-- ===== src/Client/Protocol/Messages/Unread.antt =====
-- The parameter pgaddr.
use edgedb_go.Common.{
  ℕ, ◌<◌, ltb, Bool, true, false, Bool-cases, inl, inr, none, some, List, ◌++◌, length,
  length-append, Outcome, ok, ◌≡◌, refl, ap, ◌∙◌, arith, lt→ltb,
}
use edgedb_go.Common.Bytes.{be_bytes, length-be_bytes}
use edgedb_go.Buff.Reader.{Reader, Data, unread_data}
use edgedb_go.Buff.Reader.Reads.{text, pop_bytes-Reads}
use edgedb_go.Buff.Reader.Feed.{next}
use edgedb_go.Descriptor.{Descriptor}
use edgedb_go.Descriptor.Version.{ProtocolVersion, gte}
use edgedb_go.Descriptor.PopV2.{V2}
use edgedb_go.Client.Protocol.{FlowError, same_string, parameter_status_type}
use edgedb_go.Client.Protocol.Messages.{
  Conn, Built, pgaddr, parameter_status, fall_through_on, fall_through, decode_config,
  decode_config_v2,
}

next-unread :
    (done : Bool) (r : Reader) (stream : List Data)
    → r.to_be_deserialized ≡ some stream
    → 0 < length r.buf
    → next done r ≡ ok (false, record r { err = some (unread_data r.msg_type) })
unfolding next
next-unread done r stream e h =
    let unread : ltb 0 (length r.buf) ≡ true = lt→ltb _ _ h in ground (arith, e, unread)

module _ {C : Type 0} (version : ProtocolVersion) (build : Descriptor → Built C)
    (build_v2 : V2 → Built C) where
  fall_through_on-pgaddr :
      (decode : Reader → Outcome FlowError C) (c : Conn C) (r : Reader) (address : List ℕ)
      → r.buf ≡ text pgaddr ++ text address
      → fall_through_on version build build_v2 parameter_status_type decode c r
        ≡ ok (none, (c, record r { buf = text address }))
  unfolding fall_through_on parameter_status same_string
  fall_through_on-pgaddr decode c r address b =
      rw ((pop_bytes-Reads pgaddr (omega arith)).reads (text address) r b) refl

  -- fallThrough returns no error for the parameter pgaddr, but it leaves the value of the parameter
  -- unread, so that the next `Next` returns false with the error of unread data, whatever the select
  -- would take. The reader has a channel.
  pub fall_through-pgaddr :
      (c : Conn C) (r : Reader) (address : List ℕ) (stream : List Data) (done : Bool)
      → r.msg_type ≡ parameter_status_type
      → r.buf ≡ text pgaddr ++ text address
      → r.to_be_deserialized ≡ some stream
      → (r' : Reader) × (fall_through version build build_v2 c r ≡ ok (none, (c, r')))
        × (next done r' ≡ ok (false, record r' { err = some (unread_data parameter_status_type) }))
  unfolding fall_through
  fall_through-pgaddr c r address stream done t b e = (
    record r { buf = text address },
    falls,
    next-unread done (record r { buf = text address }) stream e unread
        ∙ ap (λ x. ok (false, record r { err = some (unread_data x); buf = text address })) t,
  )
    where
      unread : 0 < length (text address)
      unread = omega (
        arith,
        length-append (be_bytes 4 (length address)) address,
        length-be_bytes 4 (length address),
      )

      on_type :
          (decode : Reader → Outcome FlowError C)
          → fall_through_on version build build_v2 r.msg_type decode c r
            ≡ ok (none, (c, record r { buf = text address }))
      on_type decode =
          ap (λ x. fall_through_on version build build_v2 x decode c r) t
          ∙ fall_through_on-pgaddr decode c r address b

      falls :
          fall_through version build build_v2 c r ≡ ok (none, (c, record r { buf = text address }))
      falls = elim (Bool-cases (gte version (record { major = 2; minor = 0 }))) [
        | inl e ↦ rw e (on_type (decode_config_v2 version build build_v2))
        | inr e ↦ rw e (on_type (decode_config version build build_v2))
      ]
