-- ===== src/Client/Protocol.antt =====
-- internal/client: the flows of messages on one connection. This module has what they share: the
-- errors of a flow with wrapAll of error.go, the messages of message.go, and Go's strings and ints.
-- A string is the list of its bytes.
pub mod Headers
pub mod Errors
pub mod Warnings
pub mod Messages
pub mod Loop
pub mod Script
pub mod Granular
pub mod Execute
pub mod Parse
use edgedb_go.Common.{
  ℕ, zero, suc, ◌+◌, ◌-◌, ◌*◌, ◌^◌, ◌==◌, ltb, leb, if◌then◌else◌, Bool, true, false, ◌&&◌, ◌||◌,
  Option, none, some, List, [], ◌∷◌,
}
use edgedb_go.Buff.Reader.{ReadError}
use edgedb_go.Descriptor.{PopError}

-- The text of an error: a message alone, or Err's format of a message, the numbers of a line and of a
-- column, the line, the padding and the hint.
pub data ErrorText : Type 0 where
  plain : List ℕ → ErrorText
  positioned : List ℕ → ℕ → ℕ → List ℕ → List ℕ → List ℕ → ErrorText

-- `from_code` is what errorFromCode makes of a code and a message. `joined` is errors.Join, and
-- `many` the wrappedManyError of two errors or more.
mutual
  pub data FlowError : Type 0 where
    from_code : ℕ → ErrorText → FlowError
    decode_line_no decode_byte_no : List ℕ → FlowError
    decode_concurrency : List ℕ → FlowError
    -- the errors of the system_config: of its descriptor, of two ids that differ, of building its
    -- codec, and of decoding it
    config_descriptor : PopError → FlowError
    config_ids : List ℕ → List ℕ → FlowError
    config_codec config_value : ℕ → FlowError
    unexpected_message : ℕ → FlowError
    unknown_parameter : List ℕ → FlowError
    state_not_supported zero_results : FlowError
    -- of a query: its arguments, the state of the connection, the socket, a row, the warnings
    invalid_argument invalid_state invalid_warnings : ℕ → FlowError
    connection_closed : FlowError → FlowError
    element_count decoding : ℕ → FlowError
    -- of the descriptors of a query and of the state
    query_descriptor state_descriptor : PopError → FlowError
    query_ids state_ids : List ℕ → List ℕ → FlowError
    state_codec : ℕ → FlowError
    cardinality_mismatch : ℕ → ℕ → FlowError
    -- an error of `Next`, and one of the socket, the codecs or the user's code by its number
    reading : ReadError → FlowError
    foreign : ℕ → FlowError
    joined : FlowError → FlowError → FlowError
    many : FlowErrors → FlowError

  pub data FlowErrors : Type 0 where
    nil : FlowErrors
    cons : FlowError → FlowErrors → FlowErrors

-- The loop of wrapAll: the errors that are not nil.
unfoldable pub present : List (Option FlowError) → FlowErrors
present [] = nil
present (none ∷ es) = present es
present (some e ∷ es) = cons e (present es)

unfoldable pub wrap_present : FlowErrors → Option FlowError
wrap_present nil = none
wrap_present (cons e nil) = some e
wrap_present (cons e (cons e' es)) = some (many (cons e (cons e' es)))

unfoldable pub wrap_all : List (Option FlowError) → Option FlowError
unfolding present wrap_present
wrap_all errs = wrap_present (present errs)

-- `errors.Is` and `errors.As` look for an error of which `test` holds.
unfoldable mutual
  pub found : (FlowError → Bool) → FlowError → Bool
  found test (many es) = test (many es) || any_found test es
  found test (joined a b) = test (joined a b) || (found test a || found test b)
  found test (connection_closed e) = test (connection_closed e) || found test e
  found test e = test e

  pub any_found : (FlowError → Bool) → FlowErrors → Bool
  any_found test nil = false
  any_found test (cons e es) = found test e || any_found test es

-- Message types.
abbrev pub command_complete_type : ℕ
command_complete_type = 0x43

abbrev pub command_data_description_type : ℕ
command_data_description_type = 0x54

abbrev pub data_type : ℕ
data_type = 0x44

abbrev pub error_response_type : ℕ
error_response_type = 0x45

abbrev pub log_message_type : ℕ
log_message_type = 0x4c

abbrev pub parameter_status_type : ℕ
parameter_status_type = 0x53

abbrev pub ready_for_command_type : ℕ
ready_for_command_type = 0x5a

abbrev pub state_data_description_type : ℕ
state_data_description_type = 0x73

abbrev pub execute_script_type : ℕ
execute_script_type = 0x51

abbrev pub execute_type : ℕ
execute_type = 0x4f

abbrev pub parse_type : ℕ
parse_type = 0x50

abbrev pub sync_type : ℕ
sync_type = 0x53

-- `==` of two strings
unfoldable pub same_string : List ℕ → List ℕ → Bool
same_string [] [] = true
same_string [] (c ∷ cs) = false
same_string (b ∷ bs) [] = false
same_string (b ∷ bs) (c ∷ cs) = (b == c) && same_string bs cs

-- strconv.Atoi: a sign, and digits that have a value in 64 bits. An int is its bit pattern.
unfoldable pub digits : ℕ → List ℕ → Option ℕ
digits acc [] = some acc
digits acc (c ∷ cs) =
    let rest = digits (acc * 10 + (c - 48)) cs in if leb 48 c && leb c 57 then rest else none

positive : Option ℕ → Option ℕ
positive none = none
positive (some n) = if ltb n (2 ^ 63) then some n else none

negative : Option ℕ → Option ℕ
negative none = none
negative (some zero) = some 0
negative (some (suc n)) = if ltb n (2 ^ 63) then some (2 ^ 64 - suc n) else none

magnitude : List ℕ → Option ℕ
unfolding digits
magnitude [] = none
magnitude (c ∷ cs) = digits 0 (c ∷ cs)

unfoldable pub atoi : List ℕ → Option ℕ
unfolding positive negative magnitude
atoi [] = none
atoi (c ∷ cs) =
    if c == 45
    then negative (magnitude cs)
    else if c == 43
    then positive (magnitude cs)
    else positive (magnitude (c ∷ cs))
