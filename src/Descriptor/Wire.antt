-- ===== src/Descriptor/Wire.antt =====
-- What a description of types says: the blocks of which it consists, their bytes, and the descriptors
-- that they stand for.
use edgedb_go.Common.{
  ℕ, ◌+◌, ◌^◌, ◌<◌, ◌≤◌, ◌==◌, ◌≡◌, ◌≢◌, ◌||◌, if◌then◌else◌, Bool, true, false, Option, none, some,
  ◌>>=?◌, List, [], ◌∷◌, ◌++◌, length, get_elem?,
}
use edgedb_go.Common.Bytes.{be_bytes}
use edgedb_go.Descriptor.{
  set, object, base_scalar, scalar, tuple, named_tuple, array, enum, input_shape, range, Descriptor,
  descriptor, Fields, no_fields, field, only, zero_descriptor, itoa,
}
use edgedb_go.Descriptor.Reads.{text, words, texts, AllShort}

-- A field of an object: its flags, its cardinality, its name, and the position of its type.
pub record ObjectField : Type 0 where
  pub flags : List ℕ
  pub card : ℕ
  pub name : List ℕ
  pub position : ℕ

-- The kinds of blocks. A number is the position of another block.
pub data Shape : Type 0 where
  a_set a_scalar a_range : ℕ → Shape
  an_object : Bool → List ObjectField → Shape
  a_base_scalar : Shape
  a_tuple : List ℕ → Shape
  a_named_tuple : List (List ℕ × ℕ) → Shape
  an_array : ℕ → List ℕ → Shape
  an_enum : List (List ℕ) → Shape
  an_annotation : ℕ → List ℕ → Shape

pub record Block : Type 0 where
  pub id : List ℕ
  pub shape : Shape

abbrev pub code : Shape → ℕ
code (a_set i) = 0
code (an_object false fields) = 1
code a_base_scalar = 2
code (a_scalar i) = 3
code (a_tuple positions) = 4
code (a_named_tuple fields) = 5
code (an_array i dimensions) = 6
code (an_enum names) = 7
code (an_object true fields) = 8
code (a_range i) = 9
code (an_annotation c bytes) = c

abbrev pub positions_bytes : List ℕ → List ℕ
positions_bytes [] = []
positions_bytes (i ∷ is) = be_bytes 2 i ++ positions_bytes is

abbrev pub named_bytes : List (List ℕ × ℕ) → List ℕ
named_bytes [] = []
named_bytes ((name, i) ∷ fields) = text name ++ (be_bytes 2 i ++ named_bytes fields)

-- What stands in front of the name: the cardinality is there since version 0.11.
abbrev pub head_bytes : Bool → ObjectField → List ℕ
head_bytes true f = f.flags ++ (f.card ∷ [])
head_bytes false f = f.flags

abbrev pub object_bytes : Bool → List ObjectField → List ℕ
object_bytes cards [] = []
object_bytes cards (f ∷ fields) =
    head_bytes cards f ++ (text f.name ++ (be_bytes 2 f.position ++ object_bytes cards fields))

abbrev pub shape_bytes : Bool → Shape → List ℕ
shape_bytes cards (a_set i) = be_bytes 2 i
shape_bytes cards (a_scalar i) = be_bytes 2 i
shape_bytes cards (a_range i) = be_bytes 2 i
shape_bytes cards (an_object input fields) = be_bytes 2 (length fields) ++ object_bytes cards fields
shape_bytes cards a_base_scalar = []
shape_bytes cards (a_tuple positions) = be_bytes 2 (length positions) ++ positions_bytes positions
shape_bytes cards (a_named_tuple fields) = be_bytes 2 (length fields) ++ named_bytes fields
shape_bytes cards (an_array i dimensions) =
    be_bytes 2 i ++ (be_bytes 2 (length dimensions) ++ words dimensions)
shape_bytes cards (an_enum names) = be_bytes 2 (length names) ++ texts names
shape_bytes cards (an_annotation c bytes) = text bytes

abbrev pub block_bytes : Bool → Block → List ℕ
block_bytes cards b = (code b.shape ∷ []) ++ (b.id ++ shape_bytes cards b.shape)

abbrev pub description_bytes : Bool → List Block → List ℕ
description_bytes cards [] = []
description_bytes cards (b ∷ bs) = block_bytes cards b ++ description_bytes cards bs

-- Without the cardinality a field is required.
abbrev pub required_meaning : Bool → ℕ → Option Bool
required_meaning false card = some true
required_meaning true card =
    if card == 65 || card == 77
    then some true
    else if card == 111 || card == 109
    then some false
    else none

-- The fields that positions stand for, among the descriptors of the blocks before.
module _ (ds : List Descriptor) where
  abbrev pub tuple_meaning : ℕ → List ℕ → Option Fields
  tuple_meaning n [] = some no_fields
  tuple_meaning n (i ∷ is) = get_elem? ds i >>=? λ d.
      tuple_meaning (n + 1) is >>=? λ fields. some (field (itoa n) d false fields)

  abbrev pub named_meaning : List (List ℕ × ℕ) → Option Fields
  named_meaning [] = some no_fields
  named_meaning ((name, i) ∷ rest) =
      get_elem? ds i >>=? λ d. named_meaning rest >>=? λ fields. some (field name d false fields)

  abbrev pub object_meaning : Bool → List ObjectField → Option Fields
  object_meaning cards [] = some no_fields
  object_meaning cards (f ∷ rest) = required_meaning cards f.card >>=? λ required.
      get_elem? ds f.position >>=? λ d.
      object_meaning cards rest >>=? λ fields. some (field f.name d required fields)

  abbrev pub meaning : Bool → List ℕ → Shape → Option Descriptor
  meaning cards id (a_set i) = get_elem? ds i >>=? λ d. some (descriptor set id (only d))
  meaning cards id (a_scalar i) = get_elem? ds i >>=? λ d. some (descriptor scalar id (only d))
  meaning cards id (a_range i) = get_elem? ds i >>=? λ d. some (descriptor range id (only d))
  meaning cards id (an_object input fields) = object_meaning cards fields >>=? λ fs.
      some (descriptor (if input then input_shape else object) id fs)
  meaning cards id a_base_scalar = some (descriptor base_scalar id no_fields)
  meaning cards id (a_tuple positions) =
      tuple_meaning 0 positions >>=? λ fs. some (descriptor tuple id fs)
  meaning cards id (a_named_tuple fields) =
      named_meaning fields >>=? λ fs. some (descriptor named_tuple id fs)
  meaning cards id (an_array i dimensions) =
      get_elem? ds i >>=? λ d. some (descriptor array id (only d))
  meaning cards id (an_enum names) = some (descriptor enum id no_fields)
  meaning cards id (an_annotation c bytes) = some zero_descriptor

-- The descriptors of the blocks behind those of `ds`.
abbrev pub meanings : Bool → List Descriptor → List Block → Option (List Descriptor)
meanings cards ds [] = some ds
meanings cards ds (b ∷ bs) =
    meaning ds cards b.id b.shape >>=? λ d. meanings cards (ds ++ d ∷ []) bs

-- Every number and every length fits the bytes that it has.
abbrev pub AllSmall : List ℕ → Type 0
AllSmall [] = Unit
AllSmall (i ∷ is) = (i < 2 ^ 16) × AllSmall is

abbrev pub AllNamed : List (List ℕ × ℕ) → Type 0
AllNamed [] = Unit
AllNamed ((name, i) ∷ fields) = (length name < 2 ^ 32) × (i < 2 ^ 16) × AllNamed fields

abbrev pub AllFields : Bool → List ObjectField → Type 0
AllFields cards [] = Unit
AllFields cards (f ∷ fields) =
    (length f.flags ≡ (if cards then 4 else 1))
    × (f.card < 2 ^ 8)
    × (length f.name < 2 ^ 32)
    × (f.position < 2 ^ 16)
    × AllFields cards fields

abbrev pub ShapeFits : Bool → Shape → Type 0
ShapeFits cards (a_set i) = i < 2 ^ 16
ShapeFits cards (a_scalar i) = i < 2 ^ 16
ShapeFits cards (a_range i) = i < 2 ^ 16
ShapeFits cards (an_object input fields) = (length fields < 2 ^ 16) × AllFields cards fields
ShapeFits cards a_base_scalar = Unit
ShapeFits cards (a_tuple positions) = (length positions < 2 ^ 16) × AllSmall positions
ShapeFits cards (a_named_tuple fields) = (length fields < 2 ^ 16) × AllNamed fields
ShapeFits cards (an_array i dimensions) =
    (i < 2 ^ 16) × (length dimensions < 2 ^ 16) × (length dimensions ≢ 0)
ShapeFits cards (an_enum names) = (length names < 2 ^ 16) × AllShort names
ShapeFits cards (an_annotation c bytes) = (128 ≤ c) × (c < 256) × (length bytes < 2 ^ 32)

abbrev pub BlockFits : Bool → Block → Type 0
BlockFits cards b = (length b.id ≡ 16) × ShapeFits cards b.shape

abbrev pub AllFit : Bool → List Block → Type 0
AllFit cards [] = Unit
AllFit cards (b ∷ bs) = BlockFits cards b × AllFit cards bs
