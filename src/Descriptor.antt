-- ===== src/Descriptor.antt =====
-- internal/descriptor: the trees of type descriptors, and what its two readers share. A name is its
-- bytes, and a UUID its 16 bytes.
pub mod Version
pub mod Pop
pub mod PopV2
pub mod WireV2
pub mod Wire
pub mod Reads
use edgedb_go.Common.{
  ℕ, zero, suc, ◌+◌, ◌*◌, ◌/◌, ◌%◌, ◌==◌, ltb, if◌then◌else◌, Outcome, ok, err, panic, ◌>>=◌, lift,
  Bool, true, false, Option, none, some, List, [], ◌∷◌, ◌++◌, get_elem?,
}
use edgedb_go.Buff.Reader.{Reader, pop_uint8, pop_uint16, pop_bytes, discard}

-- `Type`, from 0 on.
pub data DescriptorType : Type 0 where
  set object base_scalar scalar tuple named_tuple array enum input_shape range object_shape :
      DescriptorType
  compound multi_range sql_record : DescriptorType

-- The types in the order of `iota`, and the type that a byte names.
abbrev pub types : List DescriptorType
types =
    set ∷ object ∷ base_scalar ∷ scalar ∷ tuple ∷ named_tuple ∷ array ∷ enum ∷ input_shape ∷ range
    ∷ object_shape ∷ compound ∷ multi_range ∷ sql_record ∷ []

unfoldable pub type_of : ℕ → Option DescriptorType
type_of n = get_elem? types n

abbrev pub id_zero : List ℕ
id_zero = 0 ∷ 0 ∷ 0 ∷ 0 ∷ 0 ∷ 0 ∷ 0 ∷ 0 ∷ 0 ∷ 0 ∷ 0 ∷ 0 ∷ 0 ∷ 0 ∷ 0 ∷ 0 ∷ []

mutual
  pub data Descriptor : Type 0 where
    descriptor : DescriptorType → List ℕ → Fields → Descriptor

  -- A field has a name, a descriptor, and whether it is required.
  pub data Fields : Type 0 where
    no_fields : Fields
    field : List ℕ → Descriptor → Bool → Fields → Fields

-- `Descriptor{}`
abbrev pub zero_descriptor : Descriptor
zero_descriptor = descriptor set id_zero no_fields

-- The field list of a descriptor that refers to one other.
abbrev pub only : Descriptor → Fields
only d = field [] d false no_fields

pub data PopError : Type 0 where
  unknown_descriptor_type : ℕ → PopError
  unexpected_cardinality : ℕ → PopError
  too_few_dimensions : PopError
  unexpected_operation : ℕ → PopError
  out_of_fuel : PopError

abbrev pub Popped : Type 0 → Type 0
Popped A = Outcome PopError A

-- `strconv.Itoa`: the digits of a number, as many as the fuel allows. 5 are enough for a uint16.
decimal : ℕ → ℕ → List ℕ
decimal zero n = []
decimal (suc fuel) n =
    if ltb n 10 then (48 + n) ∷ [] else decimal fuel (n / 10) ++ ((48 + n % 10) ∷ [])

unfoldable pub itoa : ℕ → List ℕ
unfolding decimal
itoa n = decimal 5 n

-- `descriptors[i]`
unfoldable pub at : {A : Type 0} → List A → ℕ → Popped A
at ds i = elim (get_elem? ds i) [ some d ↦ ok d | none ↦ panic ]

-- `descriptors[r.PopUint16()]`
unfoldable pub pop_position : {A : Type 0} → List A → Reader → Popped (A × Reader)
unfolding at
pop_position ds r = do (i, r') ← lift (pop_uint16 r); d ← at ds i; ok (d, r')

-- The cardinalities "o", "m", "A" and "M".
unfoldable pub cardinality : ℕ → Popped Bool
cardinality card =
    if card == 0x6f
    then ok false
    else if card == 0x6d
    then ok false
    else if card == 0x41
    then ok true
    else if card == 0x4d
    then ok true
    else err (unexpected_cardinality card)

-- `assertArrayDimensions`
unfoldable pub assert_array_dimensions : Reader → Popped Reader
assert_array_dimensions r = do
  (n, r') ← lift (pop_uint16 r)
  if n == 0 then err too_few_dimensions else lift (discard (4 * n) r')

-- `discardEnumMemberNames`
discard_names : ℕ → Reader → Popped Reader
discard_names zero r = ok r
discard_names (suc n) r = do (name, r') ← lift (pop_bytes r); discard_names n r'

unfoldable pub discard_enum_member_names : Reader → Popped Reader
unfolding discard_names
discard_enum_member_names r = do (n, r') ← lift (pop_uint16 r); discard_names n r'
