-- ===== src/Client/Protocol/Granular.antt =====
-- What the granular flows of internal/client share, in the protocol from version 2 on: the query of
-- query.go, the codecs, the calls on the caches of cache.go, and the messages of granularflow2pX.go
-- and decodeDataMsg.
pub mod Requests
use edgedb_go.Common.{
  ℕ, zero, suc, ◌/◌, ◌%◌, ◌==◌, if◌then◌else◌, Bool, true, false, not, ◌&&◌, ◌⊎◌, inl, inr, Option,
  none, some, List, [], ◌∷◌, ◌++◌, Outcome, NoError, ok, err, panic, ◌>>=◌, lift, map_err, caught,
}
use edgedb_go.Buff.Writer.{Writer}
use edgedb_go.Buff.Reader.{
  Reader, Read, discard, pop_uint8, pop_uint16, pop_uint32, pop_uint64, pop_uuid, pop_bytes,
  pop_slice,
}
use edgedb_go.Descriptor.{PopError, id_zero}
use edgedb_go.Descriptor.PopV2.{V2, v2, pop_v2}
use edgedb_go.Client.Protocol.{
  FlowError, invalid_argument, invalid_warnings, element_count, decoding, query_descriptor,
  state_descriptor, query_ids, state_ids, state_codec, cardinality_mismatch, same_string,
}
use edgedb_go.Client.Protocol.Headers.{discard_headers_0px}
use edgedb_go.Client.Protocol.Warnings.{Warning, warning_err}

-- Cardinality and Format
abbrev pub at_most_one : ℕ
at_most_one = 0x6f

abbrev pub many_results : ℕ
many_results = 0x6d

abbrev pub json_format : ℕ
json_format = 0x6a

abbrev pub null_format : ℕ
null_format = 0x6e

-- `decode` is Decode: from the memory that it is called on, its error and the memory that it leaves.
pub record Decoder (V : Type 0) : Type 0 where
  pub out_id : List ℕ
  pub decode : V → Reader → Read (Option ℕ × V)

-- `encode` is Encode for the arguments of the query.
pub record Encoder : Type 0 where
  pub in_id : List ℕ
  pub encode : Writer → Outcome ℕ Writer

pub record CodecPair (V : Type 0) : Type 0 where
  pub args : Encoder
  pub out : Decoder V

-- `zero` is the value of a new variable of the type of the rows.
pub record GranularQuery (V : Type 0) : Type 0 where
  pub cmd : List ℕ
  pub fmt : ℕ
  pub exp_card : ℕ
  pub lang : ℕ
  pub capabilities : ℕ
  pub warning_handler : List FlowError → Option FlowError
  pub zero_row : V

unfoldable pub flat : {V : Type 0} → GranularQuery V → Bool
flat q = if not (q.exp_card == many_results) then true else q.fmt == json_format

-- The calls on the caches, all of which but the last are on those of the connection.
pub data CacheCall : Type 0 where
  invalidate_all : CacheCall
  put_capabilities : ℕ → CacheCall
  put_type_ids : List ℕ → List ℕ → CacheCall
  put_descriptor : V2 → CacheCall
  put_codecs : List ℕ → List ℕ → CacheCall

-- `capabilities & capabilitiesDDL != 0`, for the bit 0x8
unfoldable pub has_ddl : ℕ → Bool
has_ddl capabilities = capabilities / 8 % 2 == 1

unfoldable pub cache_capabilities_1px : ℕ → List CacheCall → List CacheCall
unfolding has_ddl
cache_capabilities_1px capabilities calls =
    (if has_ddl capabilities then calls ++ invalidate_all ∷ [] else calls)
    ++ put_capabilities capabilities ∷ []

-- What a function with an error beside its result comes to, with the reader that it leaves.
abbrev pub Tried : Type 0 → Type 0
Tried A = Read ((FlowError ⊎ A) × Reader)

-- `if err != nil { return err }`
infixl 5 ◌>>=!◌
abbrev pub ◌>>=!◌ : {A B : Type 0} → Tried A → (A → Reader → Tried B) → Tried B
m >>=! k = do (result, r) ← m; elim result [ inl e ↦ ok (inl e, r) | inr a ↦ k a r ]

unfoldable pub v2_id : V2 → List ℕ
v2_id (v2 typ id name flag _ others) = id

-- An id, and the descriptor in the slice behind it, which has to have that id.
unfoldable pub pop_description :
    (PopError → FlowError) → (List ℕ → List ℕ → FlowError) → Reader → Tried V2
unfolding v2_id
pop_description fails differ r = do
  (id, r₁) ← pop_uuid r
  (n, r₂) ← pop_uint32 r₁
  (p, r₃) ← pop_slice n r₂
  popped ← caught (pop_v2 p)
  elim popped [
    | inl e ↦ ok (inl (fails e), r₃)
    | inr (desc, p') ↦
        if same_string (v2_id desc) id
        then ok (inr desc, r₃)
        else ok (inl (differ (v2_id desc) id), r₃)
  ]

-- The headers of strings: the last one first.
headers_loop : ℕ → List (List ℕ × List ℕ) → Reader → Read (List (List ℕ × List ℕ) × Reader)
headers_loop zero m r = ok (m, r)
headers_loop (suc n) m r = do
  (key, r₁) ← pop_bytes r
  (val, r₂) ← pop_bytes r₁
  headers_loop n ((key, val) ∷ m) r₂

get_string : List ℕ → List (List ℕ × List ℕ) → Option (List ℕ)
get_string key [] = none
get_string key ((k, val) ∷ m) = if same_string key k then some val else get_string key m

-- "warnings"
abbrev warnings_key : List ℕ
warnings_key = 119 ∷ 97 ∷ 114 ∷ 110 ∷ 105 ∷ 110 ∷ 103 ∷ 115 ∷ []

-- `errors[i] = warning.Err(query)`: a nil pointer panics.
warning_errors : List ℕ → List (Option Warning) → Read (List FlowError)
warning_errors query [] = ok []
warning_errors query (none ∷ ws) = panic
warning_errors query (some w ∷ ws) = do
  e ← warning_err w query
  es ← warning_errors query ws
  ok (e ∷ es)

-- A row: the error of decodeDataMsg, the value to append, and what `q.out` points to.
pub record Row (V : Type 0) : Type 0 where
  pub error : Option FlowError
  pub appended : Option V
  pub out : V

unfoldable pub decoded_row : {V : Type 0} → Bool → V → Option ℕ × V → Row V
decoded_row true out (some e, v) = record { error = some (decoding e); appended = none; out = v }
decoded_row true out (none, v) = record { error = none; appended = none; out = v }
decoded_row false out (some e, v) = record { error = some (decoding e); appended = none; out = out }
decoded_row false out (none, v) = record { error = none; appended = some v; out = out }

-- `cdcs.out.Decode`: a nil `cdcs` panics.
decode_with : {V : Type 0} → Option (CodecPair V) → V → Reader → Read (Option ℕ × V)
decode_with none v p = panic
decode_with (some cdcs) v p = cdcs.out.decode v p

unfoldable pub decode_data_msg :
    {V : Type 0} → GranularQuery V → Option (CodecPair V) → V → Reader → Read (Row V × Reader)
unfolding flat decoded_row decode_with
decode_data_msg q cdcs out r = do
  (elm_count, r₁) ← pop_uint16 r
  if not (elm_count == 1)
      then ok (record { error = some (element_count elm_count); appended = none; out = out }, r₁)
      else do
        (elm_len, r₂) ← pop_uint32 r₁
        (p, r₃) ← pop_slice elm_len r₂
        result ← decode_with cdcs (if flat q then out else q.zero_row) p
        ok (decoded_row (flat q) out result, r₃)

-- The descriptors of the arguments and of the rows, or an error, and the calls on the caches.
pub record Described : Type 0 where
  pub result : FlowError ⊎ (V2 × V2)
  pub calls : List CacheCall

unfoldable pub check_cardinality :
    {V : Type 0} → GranularQuery V → ℕ → V2 → V2 → FlowError ⊎ (V2 × V2)
check_cardinality q card in_desc out_desc =
    if q.exp_card == at_most_one && card == many_results
    then inl (cardinality_mismatch card q.exp_card)
    else inr (in_desc, out_desc)

unfoldable pub pop_descriptors : {V : Type 0} → GranularQuery V → ℕ → Reader → Tried (V2 × V2)
unfolding pop_description check_cardinality
pop_descriptors q card r = pop_description query_descriptor query_ids r >>=! λ in_desc r₁.
    pop_description query_descriptor query_ids r₁ >>=! λ out_desc r₂.
    ok (check_cardinality q card in_desc out_desc, r₂)

-- The message behind its headers.
unfoldable pub decode_descriptors :
    {V : Type 0} → GranularQuery V → List CacheCall → Reader → Read (Described × Reader)
unfolding cache_capabilities_1px v2_id pop_descriptors
decode_descriptors q calls r = do
  (capabilities, r₁) ← pop_uint64 r
  (card, r₂) ← pop_uint8 r₁
  let calls₁ = cache_capabilities_1px capabilities calls
  (result, r₃) ← pop_descriptors q card r₂
  elim result [
    | inl e ↦ ok (record { result = inl e; calls = calls₁ }, r₃)
    | inr (i, o) ↦ ok (
      record {
        result = inr (i, o);
        calls =
            calls₁ ++ put_type_ids (v2_id i) (v2_id o) ∷ put_descriptor i ∷ put_descriptor o ∷ [];
      },
      r₃,
    )
  ]

-- `json.Unmarshal` of the warnings is `unmarshal`.
module _ {V : Type 0} (unmarshal : List ℕ → ℕ ⊎ List (Option Warning)) where
  -- The headers themselves are not used.
  unfoldable pub decode_headers_2px : GranularQuery V → Reader → Tried Unit
  unfolding headers_loop get_string warning_errors
  decode_headers_2px q r = do
    (n, r₁) ← pop_uint16 r
    (m, r₂) ← headers_loop n [] r₁
    elim (get_string warnings_key m) [
      | none ↦ ok (inr tt, r₂)
      | some json ↦ elim (unmarshal json) [
        | inl e ↦ ok (inl (invalid_warnings e), r₂)
        | inr ws ↦ do
          errors ← warning_errors q.cmd ws
          elim (q.warning_handler errors) [ none ↦ ok (inr tt, r₂) | some e ↦ ok (inl e, r₂) ]
      ]
    ]

  unfoldable pub decode_command_data_description_msg_2px :
      GranularQuery V → List CacheCall → Reader → Read (Described × Reader)
  unfolding decode_headers_2px decode_descriptors
  decode_command_data_description_msg_2px q calls r = do
    (headers, r₁) ← decode_headers_2px q r
    elim headers [
      | inl e ↦ ok (record { result = inl e; calls = calls }, r₁)
      | inr done ↦ decode_descriptors q calls r₁
    ]

-- The state behind the id of its descriptor, and whether that id is zero.
unfoldable pub pass_state : Bool → Reader → Read Reader
pass_state true r = discard 4 r
pass_state false r = do (n, r') ← pop_uint32 r; discard n r'

-- The status and the state of CommandComplete are passed over.
unfoldable pub decode_command_complete_msg_2px :
    List CacheCall → Reader → Read (List CacheCall × Reader)
unfolding cache_capabilities_1px pass_state
decode_command_complete_msg_2px calls r = do
  r₁ ← discard_headers_0px r
  (capabilities, r₂) ← pop_uint64 r₁
  (n, r₃) ← pop_uint32 r₂
  r₄ ← discard n r₃
  (id, r₅) ← pop_uuid r₄
  r₆ ← pass_state (same_string id id_zero) r₅
  ok (cache_capabilities_1px capabilities calls, r₆)
