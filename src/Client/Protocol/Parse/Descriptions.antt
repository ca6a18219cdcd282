-- ===== src/Client/Protocol/Parse/Descriptions.antt =====
-- The descriptions of types in a CommandDataDescription.
use edgedb_go.Common.{
  ℕ, ◌^◌, ◌<◌, ◌==◌, ◌&&◌, true, false, ◌⊎◌, inr, Option, some, List, [], ◌∷◌, ◌++◌, length, ◌≡◌,
  refl, arith,
}
use edgedb_go.Common.Bytes.{be_bytes}
use edgedb_go.Buff.Reader.{simple_reader}
use edgedb_go.Buff.Reader.Reads.{
  Reads, Reads-bind, Reads-then, pop_uint8-Reads, pop_uint16-Reads, pop_uint32-Reads,
  pop_uint64-Reads, pop_uuid-Reads, pop_slice-Reads,
}
use edgedb_go.Descriptor.{PopError}
use edgedb_go.Descriptor.PopV2.{V2}
use edgedb_go.Descriptor.PopV2.RoundTrip.{pop_v2-description}
use edgedb_go.Descriptor.WireV2.{Block, description_bytes, meanings, AllFit}
use edgedb_go.Client.Protocol.{FlowError, same_string, query_descriptor, query_ids}
use edgedb_go.Client.Protocol.Warnings.{Warning}
use edgedb_go.Client.Protocol.Granular.{
  GranularQuery, CacheCall, put_type_ids, put_descriptor, cache_capabilities_1px, pop_description,
  v2_id, check_cardinality, pop_descriptors, decode_descriptors, decode_headers_2px,
  decode_command_data_description_msg_2px, at_most_one, many_results,
}

same_string_refl : (s : List ℕ) → same_string s s ≡ true
unfolding same_string
same_string_refl [] = refl
same_string_refl (b ∷ s) = ground (arith, same_string_refl s)

-- A description of types on the wire, and its last descriptor.
pub record Wired : Type 0 where
  pub blocks : List Block
  pub before : List V2
  pub desc : V2

abbrev pub wired_bytes : Wired → List ℕ
wired_bytes t =
    v2_id t.desc ++ (be_bytes 4 (length (description_bytes t.blocks)) ++ description_bytes t.blocks)

-- The blocks fit their bytes and mean the descriptor, whose id is a UUID.
abbrev pub WiredFits : Wired → Type 0
WiredFits t =
    AllFit t.blocks
    × (meanings [] t.blocks ≡ some (t.before ++ t.desc ∷ []))
    × (length (v2_id t.desc) ≡ 16)
    × (length (description_bytes t.blocks) < 2 ^ 32)

pop_description-Wired :
    (fails : PopError → FlowError) (differ : List ℕ → List ℕ → FlowError) (t : Wired)
    → WiredFits t
    → Reads (pop_description fails differ) (wired_bytes t) (λ r. (inr (t.desc), r))
unfolding pop_description simple_reader
pop_description-Wired fails differ t (fits, means, sixteen, short) =
    Reads-bind _ (pop_uuid-Reads (v2_id t.desc) sixteen) (
      Reads-bind _ (pop_uint32-Reads (length (description_bytes t.blocks)) short) (
        Reads-then _
          (pop_slice-Reads (length (description_bytes t.blocks)) (description_bytes t.blocks) refl)
          (λ r.
            rw
              (
                pop_v2-description t.blocks t.before t.desc
                    (simple_reader (description_bytes t.blocks)) fits means refl,
                same_string_refl (v2_id t.desc),
              )
              refl)))

-- The content of a CommandDataDescription without headers.
abbrev pub described_bytes : ℕ → ℕ → Wired → Wired → List ℕ
described_bytes capabilities card in_desc out_desc =
    be_bytes 2 0
    ++ (be_bytes 8 capabilities ++ ((card ∷ []) ++ (wired_bytes in_desc ++ wired_bytes out_desc)))

-- The calls on the caches that a description makes.
abbrev pub described_calls : ℕ → Wired → Wired → List CacheCall → List CacheCall
described_calls capabilities in_desc out_desc calls =
    cache_capabilities_1px capabilities calls
    ++ put_type_ids (v2_id in_desc.desc) (v2_id out_desc.desc)
      ∷ put_descriptor in_desc.desc
      ∷ put_descriptor out_desc.desc
      ∷ []

module _ {V : Type 0} (q : GranularQuery V) where
  pop_descriptors-Wired :
      (card : ℕ) (in_desc out_desc : Wired)
      → WiredFits in_desc
      → WiredFits out_desc
      → (q.exp_card == at_most_one && card == many_results) ≡ false
      → Reads
          (pop_descriptors q card)
          (wired_bytes in_desc ++ wired_bytes out_desc)
          (λ r. (inr (in_desc.desc, out_desc.desc), r))
  unfolding pop_descriptors check_cardinality
  pop_descriptors-Wired card in_desc out_desc h k fits =
      Reads-bind _ (pop_description-Wired query_descriptor query_ids in_desc h) (
        Reads-then _ (pop_description-Wired query_descriptor query_ids out_desc k)
          (λ r. rw fits refl))

  no_headers-Reads :
      (unmarshal : List ℕ → ℕ ⊎ List (Option Warning))
      → Reads (decode_headers_2px unmarshal q) (be_bytes 2 0) (λ r. (inr tt, r))
  unfolding decode_headers_2px
  no_headers-Reads unmarshal = Reads-then _ (pop_uint16-Reads 0 (omega arith)) (λ r. refl)

  -- A description without headers is read to its end: its result is the two descriptors that the
  -- blocks describe, and the caches are told of the capabilities, the ids and the descriptors.
  pub decode_description-Wired :
      (unmarshal : List ℕ → ℕ ⊎ List (Option Warning)) (calls : List CacheCall)
      (capabilities card : ℕ) (in_desc out_desc : Wired)
      → capabilities < 2 ^ 64
      → card < 256
      → WiredFits in_desc
      → WiredFits out_desc
      → (q.exp_card == at_most_one && card == many_results) ≡ false
      → Reads
          (decode_command_data_description_msg_2px unmarshal q calls)
          (described_bytes capabilities card in_desc out_desc)
          (λ r. (
            record {
              result = inr (in_desc.desc, out_desc.desc);
              calls = described_calls capabilities in_desc out_desc calls;
            },
            r,
          ))
  unfolding decode_command_data_description_msg_2px decode_descriptors
  decode_description-Wired unmarshal calls capabilities card in_desc out_desc small byte h k fits =
      Reads-bind _ (no_headers-Reads unmarshal) (
        Reads-bind _ (pop_uint64-Reads capabilities small) (
          Reads-bind _ (pop_uint8-Reads card byte)
            (Reads-then _ (pop_descriptors-Wired card in_desc out_desc h k fits) (λ r. refl))))
