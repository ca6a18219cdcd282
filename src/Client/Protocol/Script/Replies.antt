-- ===== src/Client/Protocol/Script/Replies.antt =====
-- A script whose answer the socket brings in any chunks.
use edgedb_go.Common.{
  ℕ, ◌^◌, ◌<◌, true, Option, none, some, List, [], ◌∷◌, ◌++◌, length, append_assoc, ok, ◌≡◌, refl,
  ap, ◌∙◌, arith,
}
use edgedb_go.Buff.Writer.Blocks.{message_bytes}
use edgedb_go.Common.Bytes.{length-be_bytes}
use edgedb_go.Buff.Writer.{Writer, new_writer}
use edgedb_go.Buff.Writer.Words.{appended, push_string_lem}
use edgedb_go.Buff.Writer.Requests.{unwrap-message}
use edgedb_go.Buff.Reader.{Reader, Read}
use edgedb_go.Buff.Reader.Reads.{text, Reads-whole, Reads-last}
use edgedb_go.Descriptor.{Descriptor}
use edgedb_go.Descriptor.Version.{ProtocolVersion}
use edgedb_go.Descriptor.PopV2.{V2}
use edgedb_go.Client.Protocol.{
  FlowError, wrap_all, command_complete_type, ready_for_command_type, error_response_type,
  execute_script_type,
}
use edgedb_go.Client.Protocol.Headers.{Headers}
use edgedb_go.Client.Protocol.Headers.Laws.{
  headers_bytes, HeadersFit, set_all, write_headers_0px_lem,
}
use edgedb_go.Client.Protocol.Messages.{Built, response_error}
use edgedb_go.Client.Protocol.Messages.Bodies.{
  error_response_bytes, decode_error_response_msg-Reads, command_complete_bytes,
  decode_command_complete_msg_0px-Reads, ready_for_command_bytes,
  decode_ready_for_command_msg-Reads, Aside, aside_type, aside_bytes, AsideFits, heard, logged,
  pool_concurrency, pg_dsn, fall_through-Aside,
}
use edgedb_go.Client.Protocol.Loop.{Flow}
use edgedb_go.Client.Protocol.Loop.Delivery.{Handles}
use edgedb_go.Client.Protocol.Script.{
  Query, Local, handle_script, handle_type, on_error_response, on_ready_for_command, on_other,
  script_request, write_script, headers_0px,
}

-- The messages with which a server answers a script.
pub data Reply : Type 0 where
  command_complete : Headers → List ℕ → Reply
  error_response : ℕ → ℕ → List ℕ → Headers → Reply
  aside : Aside → Reply
  ready_for_command : Headers → ℕ → Reply

abbrev pub reply_type : Reply → ℕ
reply_type (command_complete headers status) = command_complete_type
reply_type (error_response severity code message headers) = error_response_type
reply_type (aside a) = aside_type a
reply_type (ready_for_command headers state) = ready_for_command_type

abbrev pub reply_bytes : Reply → List ℕ
reply_bytes (command_complete headers status) = command_complete_bytes headers status
reply_bytes (error_response severity code message headers) =
    error_response_bytes severity code message headers
reply_bytes (aside a) = aside_bytes a
reply_bytes (ready_for_command headers state) = ready_for_command_bytes headers state

-- The numbers and lengths of a message fit their bytes, and Err returns for its error.
abbrev pub ReplyFits : Query → Reply → Type 0
ReplyFits q (command_complete headers status) = HeadersFit headers × (length status < 2 ^ 32)
ReplyFits q (error_response severity code message headers) =
    (code < 2 ^ 32)
    × (length message < 2 ^ 32)
    × HeadersFit headers
    × ((e : FlowError) × (response_error code message (set_all [] headers) q.cmd ≡ ok e))
ReplyFits q (aside a) = AsideFits a
ReplyFits q (ready_for_command headers state) = HeadersFit headers

-- One more error of the server beside those before it.
abbrev pub wrapped : Option FlowError → Read FlowError → Option FlowError
wrapped earlier (ok e) = wrap_all (earlier ∷ some e ∷ [])
wrapped earlier _ = earlier

-- What a reply does to the variables of the flow.
abbrev pub replied : {C : Type 0} → Query → Reply → Flow (Local C) → Flow (Local C)
replied q (command_complete headers status) f = f
replied q (error_response severity code message headers) f = record f {
  state = record (f.state) {
    err = wrapped f.state.err (response_error code message (set_all [] headers) q.cmd);
  };
}
replied q (aside a) f = record f { state = record (f.state) { conn = heard a f.state.conn } }
replied q (ready_for_command headers state) f = record f { done = true }

module _ {C : Type 0} (version : ProtocolVersion) (build : Descriptor → Built C)
    (build_v2 : V2 → Built C) where
  handle_type-Reply :
      (q : Query) (m : Reply) (f : Flow (Local C)) (r : Reader)
      → ReplyFits q m
      → r.msg_type ≡ reply_type m
      → r.buf ≡ reply_bytes m
      → handle_type version build build_v2 (reply_type m) q f r
        ≡ ok (none, (replied q m f, record r { buf = [] }))
  unfolding handle_type on_ready_for_command on_error_response on_other
  handle_type-Reply q (command_complete headers status) f r (h, short) t b =
      Reads-whole r (Reads-last _ (decode_command_complete_msg_0px-Reads headers status h short)) b
  handle_type-Reply q (error_response severity code message headers) f r (small, short, h, (e, p)) t
        b =
      Reads-whole r
        (Reads-last _
          (decode_error_response_msg-Reads q.cmd severity code message headers e small short h p))
        b
      ∙ (rw p refl)
  handle_type-Reply q (aside (logged severity code message headers)) f r fits t b =
      rw
        (fall_through-Aside version build build_v2 (logged severity code message headers)
          f.state.conn r fits t b)
        refl
  handle_type-Reply q (aside (pool_concurrency digits i)) f r fits t b =
      rw
        (fall_through-Aside version build build_v2 (pool_concurrency digits i) f.state.conn r fits t
          b)
        refl
  handle_type-Reply q (aside (pg_dsn dsn)) f r fits t b =
      rw (fall_through-Aside version build build_v2 (pg_dsn dsn) f.state.conn r fits t b) refl
  handle_type-Reply q (ready_for_command headers state) f r h t b =
      Reads-whole r (Reads-last _ (decode_ready_for_command_msg-Reads headers state h)) b

  pub handle_script-Handles :
      (q : Query)
      → Handles reply_type reply_bytes
          (replied q)
          (λ m f. ReplyFits q m)
          (handle_script version build build_v2 q)
  unfolding handle_script
  handle_script-Handles q m f r fits t b =
      ap (λ x. handle_type version build build_v2 x q f r) t ∙ handle_type-Reply q m f r fits t b

write_script_lem :
    (q : Query) (w : Writer)
    → write_script q w ≡ ok (appended w (headers_bytes (headers_0px q) ++ text q.cmd))
unfolding write_script headers_0px
write_script_lem q w =
    rw
      (
        write_headers_0px_lem (headers_0px q) w
            (omega arith, (omega arith, omega (arith, length-be_bytes 8 q.capabilities), tt)),
        push_string_lem,
        append_assoc,
      )
      refl

-- What a script sends.
pub script_request_lem :
    (q : Query)
    → script_request q
      ≡ ok (
        message_bytes execute_script_type (headers_bytes (headers_0px q) ++ text q.cmd),
        new_writer,
      )
unfolding script_request
script_request_lem q = unwrap-message execute_script_type _ (write_script q) written
  where
    written :
        (w : Writer)
        → write_script q w ≡ ok (appended w (headers_bytes (headers_0px q) ++ text q.cmd))
    written w = write_script_lem q w
