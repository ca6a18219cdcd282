-- ===== src/Client/Protocol/Execute/Replies.antt =====
-- The messages with which a server answers an Execute whose codecs it accepts.
use edgedb_go.Common.{
  ℕ, ◌^◌, ◌<◌, if◌then◌else◌, Bool, true, false, none, some, List, [], ◌∷◌, ◌++◌, length,
  length-append, ok, ◌≡◌, refl, ap, ◌∙◌, arith,
}
use edgedb_go.Common.Bytes.{be_bytes, length-be_bytes}
use edgedb_go.Buff.Reader.{Reader, simple_reader}
use edgedb_go.Buff.Reader.Reads.{
  Reads, Reads-bind, Reads-then, Reads-last, Reads-whole, pop_uint16-Reads, pop_uint32-Reads,
  pop_uint64-Reads, pop_uuid-Reads, pop_slice-Reads, discard-Reads,
}
use edgedb_go.Descriptor.{id_zero}
use edgedb_go.Descriptor.Version.{ProtocolVersion}
use edgedb_go.Client.Protocol.{
  FlowError, wrap_all, same_string, command_complete_type, data_type, error_response_type,
  ready_for_command_type,
}
use edgedb_go.Client.Protocol.Headers.{Headers}
use edgedb_go.Client.Protocol.Headers.Laws.{
  headers_bytes, HeadersFit, set_all, discard_headers_0px-Reads,
}
use edgedb_go.Client.Protocol.Messages.{response_error}
use edgedb_go.Client.Protocol.Messages.Bodies.{
  error_response_bytes, decode_error_response_msg-Reads, ready_for_command_bytes,
  decode_ready_for_command_msg-Reads, Aside, logged, pool_concurrency, pg_dsn, aside_type,
  aside_bytes, AsideFits, heard, fall_through-Aside,
}
use edgedb_go.Client.Protocol.Loop.{Flow}
use edgedb_go.Client.Protocol.Loop.Delivery.{Handles}
use edgedb_go.Client.Protocol.Granular.{
  CodecPair, GranularQuery, CacheCall, flat, cache_capabilities_1px, decode_data_msg, decoded_row,
  pass_state, decode_command_complete_msg_2px,
}
use edgedb_go.Client.Protocol.Execute.{
  Builders, Exec, forget_zero_results, is_zero_results, after_row, on_data, execute_type_2px,
  handle_execute,
}

-- `row` has the bytes of a row and its value, and `failed` the parts of an error and the error that
-- decodeErrorResponseMsg makes of them. `completed` has headers, the capabilities, the status, the id
-- of the state's descriptor, and the state.
pub data ExecReply (V : Type 0) : Type 0 where
  row : List ℕ → V → ExecReply V
  completed : Headers → ℕ → List ℕ → List ℕ → List ℕ → ExecReply V
  failed : ℕ → ℕ → List ℕ → Headers → FlowError → ExecReply V
  other : Aside → ExecReply V
  ready : Headers → ℕ → ExecReply V

abbrev pub exec_type : {V : Type 0} → ExecReply V → ℕ
exec_type (row bytes v) = data_type
exec_type (completed headers capabilities status id state) = command_complete_type
exec_type (failed severity code message headers e) = error_response_type
exec_type (other a) = aside_type a
exec_type (ready headers state) = ready_for_command_type

abbrev pub exec_bytes : {V : Type 0} → ExecReply V → List ℕ
exec_bytes (row bytes v) = be_bytes 2 1 ++ (be_bytes 4 (length bytes) ++ bytes)
exec_bytes (completed headers capabilities status id state) =
    headers_bytes headers
    ++ (be_bytes 8 capabilities
        ++ (be_bytes 4 (length status) ++ (status ++ (id ++ (be_bytes 4 (length state) ++ state)))))
exec_bytes (failed severity code message headers e) =
    error_response_bytes severity code message headers
exec_bytes (other a) = aside_bytes a
exec_bytes (ready headers state) = ready_for_command_bytes headers state

-- The numbers and lengths fit their bytes, the decoder makes the value of the bytes of a row, whatever
-- the memory held, and no server's error is the client's own error for no rows. Where the id is zero,
-- the state is empty.
abbrev pub ExecFits : {V : Type 0} → List ℕ → CodecPair V → ExecReply V → Type 0
ExecFits {V} query cdcs (row bytes v) =
    (length bytes < 2 ^ 32)
    × ((memory : V) → cdcs.out.decode memory (simple_reader bytes) ≡ ok (none, v))
ExecFits query cdcs (completed headers capabilities status id state) =
    HeadersFit headers
    × (capabilities < 2 ^ 64)
    × (length status < 2 ^ 32)
    × (length id ≡ 16)
    × (length state < 2 ^ 32)
    × (same_string id id_zero ≡ true → length state ≡ 0)
ExecFits query cdcs (failed severity code message headers e) =
    (code < 2 ^ 32)
    × (length message < 2 ^ 32)
    × HeadersFit headers
    × (response_error code message (set_all [] headers) query ≡ ok e)
    × (is_zero_results (some e) ≡ false)
ExecFits query cdcs (other a) = AsideFits a
ExecFits query cdcs (ready headers state) = HeadersFit headers

-- What a reply does to the variables of the flow.
abbrev pub executed : {C V : Type 0} → Bool → ExecReply V → Flow (Exec C V) → Flow (Exec C V)
executed true (row bytes v) f = record f {
  state = record (f.state) { err = forget_zero_results f.state.err; out = v };
}
executed false (row bytes v) f = record f {
  state = record (f.state) { err = forget_zero_results f.state.err; rows = f.state.rows ++ v ∷ [] };
}
executed is_flat (completed headers capabilities status id state) f = record f {
  state = record (f.state) { calls = cache_capabilities_1px capabilities f.state.calls };
}
executed is_flat (failed severity code message headers e) f = record f {
  state = record (f.state) { err = wrap_all (forget_zero_results f.state.err ∷ some e ∷ []) };
}
executed is_flat (other a) f = record f { state = record (f.state) { conn = heard a f.state.conn } }
executed is_flat (ready headers state) f = record f { done = true }

decode_data_msg-Reads :
    {V : Type 0} (q : GranularQuery V) (cdcs : CodecPair V) (out : V) (bytes : List ℕ) (v : V)
    → ExecFits q.cmd cdcs (row bytes v)
    → Reads
        (decode_data_msg q (some cdcs) out)
        (exec_bytes (row bytes v))
        (λ r. (decoded_row (flat q) out (none, v), r))
unfolding decode_data_msg
decode_data_msg-Reads q cdcs out bytes v (short, decodes) =
    Reads-bind _ (pop_uint16-Reads 1 (omega arith)) (
      Reads-bind _ (pop_uint32-Reads (length bytes) short) (
        Reads-then _ (pop_slice-Reads (length bytes) bytes refl)
          (λ r. rw (decodes (if flat q then out else q.zero_row)) refl)))

pass_state-Reads :
    (zero_id : Bool) (state : List ℕ)
    → length state < 2 ^ 32
    → (zero_id ≡ true → length state ≡ 0)
    → Reads (pass_state zero_id) (be_bytes 4 (length state) ++ state) (λ r. r)
unfolding pass_state
pass_state-Reads true state fits empty = discard-Reads 4 (be_bytes 4 (length state) ++ state) (
    omega (
      arith,
      length-append (be_bytes 4 (length state)) state,
      length-be_bytes 4 (length state),
      empty refl,
    ))
pass_state-Reads false state fits empty =
    Reads-bind _ (pop_uint32-Reads (length state) fits) (discard-Reads (length state) state refl)

-- The id of the state's descriptor and the state, whose bytes stand behind it.
complete-state :
    (V : Type 0) (headers : Headers) (capabilities : ℕ) (status id state : List ℕ)
    (calls : List CacheCall)
    → HeadersFit headers
    → capabilities < 2 ^ 64
    → length status < 2 ^ 32
    → length id ≡ 16
    → length state < 2 ^ 32
    → (same_string id id_zero ≡ true → length state ≡ 0)
    → Reads
        (decode_command_complete_msg_2px calls)
        (exec_bytes {V = V} (completed headers capabilities status id state))
        (λ r. (cache_capabilities_1px capabilities calls, r))
unfolding decode_command_complete_msg_2px
complete-state V headers capabilities status id state calls h small short sixteen fits empty =
    Reads-bind _ (discard_headers_0px-Reads headers h) (
      Reads-bind _ (pop_uint64-Reads capabilities small) (
        Reads-bind _ (pop_uint32-Reads (length status) short) (
          Reads-bind _ (discard-Reads (length status) status refl) (
            Reads-bind _ (pop_uuid-Reads id sixteen)
              (Reads-last _ (pass_state-Reads (same_string id id_zero) state fits empty))))))

module _ {C V : Type 0} (version : ProtocolVersion) (builders : Builders C V) (q : GranularQuery V)
    (cdcs : CodecPair V) where
  on_data-row :
      (is_flat : Bool) (f : Flow (Exec C V)) (r : Reader) (bytes : List ℕ) (v : V)
      → decode_data_msg q f.state.cdcs f.state.out r
        ≡ ok (decoded_row is_flat f.state.out (none, v), record r { buf = [] })
      → on_data version builders q f r
        ≡ ok (none, (executed is_flat (row bytes v) f, record r { buf = [] }))
  unfolding on_data decoded_row after_row
  on_data-row true f r bytes v e = rw e refl
  on_data-row false f r bytes v e = rw e refl

  execute_type-Reply :
      (m : ExecReply V) (f : Flow (Exec C V)) (r : Reader)
      → ExecFits q.cmd cdcs m
      → f.state.cdcs ≡ some cdcs
      → r.msg_type ≡ exec_type m
      → r.buf ≡ exec_bytes m
      → execute_type_2px version builders q (exec_type m) f r
        ≡ ok (none, (executed (flat q) m f, record r { buf = [] }))
  unfolding execute_type_2px
  execute_type-Reply (row bytes v) f r fits h t b =
      let decoded =
        ap (λ x. decode_data_msg q x f.state.out r) h
        ∙ Reads-whole r (decode_data_msg-Reads q cdcs f.state.out bytes v fits) b in
      on_data-row (flat q) f r bytes v decoded
  execute_type-Reply (completed headers capabilities status id state) f r
        (hs, small, short, sixteen, fits, empty) h t b =
      Reads-whole r
        (Reads-last _ (
          complete-state V headers capabilities status id state f.state.calls hs small short sixteen
            fits empty))
        b
  execute_type-Reply (failed severity code message headers e) f r (small, short, hs, p, z) h t b =
      Reads-whole r
        (Reads-last _
          (decode_error_response_msg-Reads q.cmd severity code message headers e small short hs p))
        b
  execute_type-Reply (other (logged severity code message headers)) f r fits h t b =
      rw
        (fall_through-Aside version builders.config builders.config_v2
          (logged severity code message headers) f.state.conn r fits t b)
        refl
  execute_type-Reply (other (pool_concurrency digits i)) f r fits h t b =
      rw
        (fall_through-Aside version builders.config builders.config_v2 (pool_concurrency digits i)
          f.state.conn r fits t b)
        refl
  execute_type-Reply (other (pg_dsn dsn)) f r fits h t b =
      rw
        (fall_through-Aside version builders.config builders.config_v2 (pg_dsn dsn) f.state.conn r
          fits t b)
        refl
  execute_type-Reply (ready headers state) f r hs h t b =
      Reads-whole r (Reads-last _ (decode_ready_for_command_msg-Reads headers state hs)) b

  pub handle_execute-Handles :
      Handles exec_type exec_bytes
        (executed (flat q))
        (λ m f. ExecFits q.cmd cdcs m × (f.state.cdcs ≡ some cdcs))
        (handle_execute version builders q)
  unfolding handle_execute
  handle_execute-Handles m f r (fits, h) t b =
      ap (λ x. execute_type_2px version builders q x f r) t ∙ execute_type-Reply m f r fits h t b
