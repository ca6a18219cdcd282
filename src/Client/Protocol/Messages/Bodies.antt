-- ===== src/Client/Protocol/Messages/Bodies.antt =====
-- The contents of the messages that every flow understands, and what is read from them.
use edgedb_go.Common.{
  ℕ, ◌^◌, ◌<◌, none, some, List, [], ◌∷◌, ◌++◌, length, ok, ◌≡◌, refl, Bool-cases, inl, inr,
  Outcome, arith, ap, ◌∙◌,
}
use edgedb_go.Common.Bytes.{be_bytes}
use edgedb_go.Buff.Reader.{Reader}
use edgedb_go.Buff.Reader.Reads.{
  Reads, Reads-bind, Reads-last, Reads-whole, Reads-then, text, pop_uint8-Reads, pop_uint16-Reads,
  pop_uint32-Reads, pop_bytes-Reads, discard-Reads,
}
use edgedb_go.Client.Protocol.{
  FlowError, same_string, atoi, parameter_status_type, log_message_type,
}
use edgedb_go.Client.Protocol.Headers.{Headers}
use edgedb_go.Client.Protocol.Headers.Laws.{
  headers_bytes, HeadersFit, set_all, decode_loop-Reads, ignore_headers-Reads,
}
use edgedb_go.Client.Protocol.Messages.{
  response_error, decode_error_response_msg, decode_command_complete_msg_0px,
  decode_ready_for_command_msg, Conn, pgdsn, suggested_pool_concurrency, set_concurrency,
  parameter_status, log_message, fall_through_on, fall_through, Built, decode_config,
  decode_config_v2,
}
use edgedb_go.Descriptor.{Descriptor}
use edgedb_go.Descriptor.Version.{ProtocolVersion, gte}
use edgedb_go.Descriptor.PopV2.{V2}

abbrev pub error_response_bytes : ℕ → ℕ → List ℕ → Headers → List ℕ
error_response_bytes severity code message headers =
    (severity ∷ []) ++ (be_bytes 4 code ++ (text message ++ headers_bytes headers))

pub decode_error_response_msg-Reads :
    (query : List ℕ) (severity code : ℕ) (message : List ℕ) (headers : Headers) (e : FlowError)
    → code < 2 ^ 32
    → length message < 2 ^ 32
    → HeadersFit headers
    → response_error code message (set_all [] headers) query ≡ ok e
    → Reads
        (decode_error_response_msg query)
        (error_response_bytes severity code message headers)
        (λ r. (e, r))
unfolding decode_error_response_msg
decode_error_response_msg-Reads query severity code message headers e small short (n, h) q =
    Reads-bind _ (discard-Reads 1 (severity ∷ []) refl) (
      Reads-bind _ (pop_uint32-Reads code small) (
        Reads-bind _ (pop_bytes-Reads message short) (
          Reads-bind _ (pop_uint16-Reads (length headers) n)
            (Reads-then _ (decode_loop-Reads [] headers h) (λ r. rw q refl)))))

abbrev pub command_complete_bytes : Headers → List ℕ → List ℕ
command_complete_bytes headers status = headers_bytes headers ++ text status

pub decode_command_complete_msg_0px-Reads :
    (headers : Headers) (status : List ℕ)
    → HeadersFit headers
    → length status < 2 ^ 32
    → Reads decode_command_complete_msg_0px (command_complete_bytes headers status) (λ r. r)
unfolding decode_command_complete_msg_0px
decode_command_complete_msg_0px-Reads headers status h short =
    Reads-bind _ (ignore_headers-Reads headers h) (Reads-last _ (pop_bytes-Reads status short))

abbrev pub ready_for_command_bytes : Headers → ℕ → List ℕ
ready_for_command_bytes headers state = headers_bytes headers ++ state ∷ []

pub decode_ready_for_command_msg-Reads :
    (headers : Headers) (state : ℕ)
    → HeadersFit headers
    → Reads decode_ready_for_command_msg (ready_for_command_bytes headers state) (λ r. r)
unfolding decode_ready_for_command_msg
decode_ready_for_command_msg-Reads headers state h =
    Reads-bind _ (ignore_headers-Reads headers h) (discard-Reads 1 (state ∷ []) refl)

-- Of the messages that a server may send between any others: a log message, and two of the parameters.
pub data Aside : Type 0 where
  -- a severity, a code, a text and headers
  logged : ℕ → ℕ → List ℕ → Headers → Aside
  -- the text of a parameter and, for the pool's concurrency, its number
  pool_concurrency : List ℕ → ℕ → Aside
  pg_dsn : List ℕ → Aside

abbrev pub aside_type : Aside → ℕ
aside_type (logged severity code message headers) = log_message_type
aside_type _ = parameter_status_type

abbrev pub aside_bytes : Aside → List ℕ
aside_bytes (logged severity code message headers) =
    (severity ∷ []) ++ (be_bytes 4 code ++ (text message ++ headers_bytes headers))
aside_bytes (pool_concurrency digits i) = text suggested_pool_concurrency ++ text digits
aside_bytes (pg_dsn dsn) = text pgdsn ++ text dsn

abbrev pub AsideFits : Aside → Type 0
AsideFits (logged severity code message headers) =
    (severity < 256) × (code < 2 ^ 32) × (length message < 2 ^ 32) × HeadersFit headers
AsideFits (pool_concurrency digits i) = (length digits < 2 ^ 32) × (atoi digits ≡ some i)
AsideFits (pg_dsn dsn) = length dsn < 2 ^ 32

abbrev pub heard : {C : Type 0} → Aside → Conn C → Conn C
heard (pool_concurrency digits i) c = record c {
  server_settings = (suggested_pool_concurrency, i) ∷ c.server_settings;
}
heard _ c = c

module _ {C : Type 0} (version : ProtocolVersion) (build : Descriptor → Built C)
    (build_v2 : V2 → Built C) where
  log_message-Reads :
      (severity code : ℕ) (message : List ℕ) (headers : Headers) (c : Conn C)
      → AsideFits (logged severity code message headers)
      → Reads
          (log_message version build build_v2 c)
          (aside_bytes (logged severity code message headers))
          (λ r. (none, (c, r)))
  unfolding log_message
  log_message-Reads severity code message headers c (byte, small, short, h) =
      Reads-bind _ (pop_uint8-Reads severity byte) (
        Reads-bind _ (pop_uint32-Reads code small) (
          Reads-bind _ (pop_bytes-Reads message short)
            (Reads-last _ (ignore_headers-Reads headers h))))

  set_concurrency-Reads :
      (digits : List ℕ) (i : ℕ) (c : Conn C)
      → AsideFits (pool_concurrency digits i)
      → Reads
          (set_concurrency version build build_v2 c)
          (text digits)
          (λ r. (none, (heard (pool_concurrency digits i) c, r)))
  unfolding set_concurrency
  set_concurrency-Reads digits i c (short, q) =
      Reads-then _ (pop_bytes-Reads digits short) (λ r. rw q refl)

  -- A message that any flow may meet is read to its end, and sets what it sets.
  fall_through_on-Aside :
      (decode : Reader → Outcome FlowError C) (a : Aside) (c : Conn C)
      → AsideFits a
      → Reads
          (fall_through_on version build build_v2 (aside_type a) decode c)
          (aside_bytes a)
          (λ r. (none, (heard a c, r)))
  unfolding fall_through_on parameter_status same_string
  fall_through_on-Aside decode (logged severity code message headers) c fits =
      log_message-Reads severity code message headers c fits
  fall_through_on-Aside decode (pool_concurrency digits i) c fits =
      Reads-bind _ (pop_bytes-Reads suggested_pool_concurrency (omega arith))
        (set_concurrency-Reads digits i c fits)
  fall_through_on-Aside decode (pg_dsn dsn) c fits =
      Reads-bind _ (pop_bytes-Reads pgdsn (omega arith)) (Reads-last _ (pop_bytes-Reads dsn fits))

  pub fall_through-Aside :
      (a : Aside) (c : Conn C) (r : Reader)
      → AsideFits a
      → r.msg_type ≡ aside_type a
      → r.buf ≡ aside_bytes a
      → fall_through version build build_v2 c r ≡ ok (none, (heard a c, record r { buf = [] }))
  unfolding fall_through
  fall_through-Aside a c r fits t b =
      elim (Bool-cases (gte version (record { major = 2; minor = 0 }))) [
        | inl e ↦ rw e (on_type (decode_config_v2 version build build_v2))
        | inr e ↦ rw e (on_type (decode_config version build build_v2))
      ]
    where
      on_type :
          (decode : Reader → Outcome FlowError C)
          → fall_through_on version build build_v2 r.msg_type decode c r
            ≡ ok (none, (heard a c, record r { buf = [] }))
      on_type decode =
          ap (λ x. fall_through_on version build build_v2 x decode c r) t
          ∙ Reads-whole r (fall_through_on-Aside decode a c fits) b
