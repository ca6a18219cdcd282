-- ===== src/Descriptor/WireV2.antt =====
-- What a description of types of protocol 2 says, in the terms of Descriptor.Wire.
use edgedb_go.Common.{
  ℕ, ◌+◌, ◌^◌, ◌<◌, ◌≤◌, ◌≡◌, ◌≢◌, if◌then◌else◌, Bool, true, false, Option, some, ◌>>=?◌, List, [],
  ◌∷◌, ◌++◌, length, get_elem?,
}
use edgedb_go.Common.Bytes.{be_bytes}
use edgedb_go.Descriptor.{
  set, object, scalar, tuple, array, enum, input_shape, range, object_shape, compound, multi_range,
  sql_record, itoa, id_zero,
}
use edgedb_go.Descriptor.PopV2.{V2, v2, FieldsV2, no_fields, field, only, zero_v2}
use edgedb_go.Descriptor.Reads.{text, words, texts, AllShort}
use edgedb_go.Descriptor.Wire.{
  ObjectField, positions_bytes, named_bytes, required_meaning, AllSmall, AllNamed,
}

-- The name of a type, and whether it is defined by the schema.
pub record Head : Type 0 where
  pub name : List ℕ
  pub schema_defined : ℕ

-- The kinds of blocks. A type with ancestors has their positions behind its head. A field of an object
-- has the position of the type that it comes from beside it, which an input shape leaves out.
pub data Shape : Type 0 where
  a_set : ℕ → Shape
  an_object : ℕ → ℕ → List (ObjectField × ℕ) → Shape
  an_input : List (ObjectField × ℕ) → Shape
  a_scalar : Head → List ℕ → Shape
  a_tuple : Head → List ℕ → List ℕ → Shape
  a_named_tuple : Head → List ℕ → List (List ℕ × ℕ) → Shape
  an_array : Head → List ℕ → ℕ → List ℕ → Shape
  an_enum : Head → List ℕ → List (List ℕ) → Shape
  a_range a_multi_range : Head → List ℕ → ℕ → Shape
  an_object_shape : Head → Shape
  a_compound : Head → Bool → List ℕ → Shape
  an_sql_record : List (List ℕ × ℕ) → Shape
  an_annotation : ℕ → List ℕ → Shape

pub record Block : Type 0 where
  pub size : ℕ
  pub id : List ℕ
  pub shape : Shape

abbrev pub code : Shape → ℕ
code (a_set i) = 0
code (an_object b t fields) = 1
code (a_scalar h ps) = 3
code (a_tuple h ps is) = 4
code (a_named_tuple h ps xs) = 5
code (an_array h ps i dimensions) = 6
code (an_enum h ps names) = 7
code (an_input fields) = 8
code (a_range h ps i) = 9
code (an_object_shape h) = 10
code (a_compound h union is) = 11
code (a_multi_range h ps i) = 12
code (an_sql_record xs) = 13
code (an_annotation c bytes) = c

abbrev pub name_bytes : Head → List ℕ
name_bytes h = text h.name ++ (h.schema_defined ∷ [])

abbrev pub counted : List ℕ → List ℕ
counted is = be_bytes 2 (length is) ++ positions_bytes is

abbrev pub named : List (List ℕ × ℕ) → List ℕ
named xs = be_bytes 2 (length xs) ++ named_bytes xs

abbrev pub source_bytes : Bool → ℕ → List ℕ
source_bytes true source = []
source_bytes false source = be_bytes 2 source

abbrev pub object_bytes : Bool → List (ObjectField × ℕ) → List ℕ
object_bytes input [] = []
object_bytes input ((f, source) ∷ xs) =
    f.flags
    ++ ((f.card ∷ [])
        ++ (text f.name
            ++ (be_bytes 2 f.position ++ (source_bytes input source ++ object_bytes input xs))))

abbrev pub objects : Bool → List (ObjectField × ℕ) → List ℕ
objects input xs = be_bytes 2 (length xs) ++ object_bytes input xs

abbrev pub shape_bytes : Shape → List ℕ
shape_bytes (a_set i) = be_bytes 2 i
shape_bytes (an_object b t xs) = (b ∷ []) ++ (be_bytes 2 t ++ objects false xs)
shape_bytes (an_input xs) = objects true xs
shape_bytes (a_scalar h ps) = name_bytes h ++ counted ps
shape_bytes (a_tuple h ps is) = name_bytes h ++ (counted ps ++ counted is)
shape_bytes (a_named_tuple h ps xs) = name_bytes h ++ (counted ps ++ named xs)
shape_bytes (an_array h ps i dimensions) =
    name_bytes h
    ++ (counted ps ++ (be_bytes 2 i ++ (be_bytes 2 (length dimensions) ++ words dimensions)))
shape_bytes (an_enum h ps names) =
    name_bytes h ++ (counted ps ++ (be_bytes 2 (length names) ++ texts names))
shape_bytes (a_range h ps i) = name_bytes h ++ (counted ps ++ be_bytes 2 i)
shape_bytes (a_multi_range h ps i) = name_bytes h ++ (counted ps ++ be_bytes 2 i)
shape_bytes (an_object_shape h) = name_bytes h
shape_bytes (a_compound h union is) =
    name_bytes h ++ (((if union then 1 else 2) ∷ []) ++ counted is)
shape_bytes (an_sql_record xs) = named xs
shape_bytes (an_annotation c bytes) = text bytes

abbrev pub block_bytes : Block → List ℕ
block_bytes b = be_bytes 4 b.size ++ ((code b.shape ∷ []) ++ (b.id ++ shape_bytes b.shape))

abbrev pub description_bytes : List Block → List ℕ
description_bytes [] = []
description_bytes (b ∷ bs) = block_bytes b ++ description_bytes bs

-- The fields that positions stand for, among the descriptors of the blocks before.
module _ (ds : List V2) where
  abbrev pub listed_meaning : Bool → List ℕ → Option FieldsV2
  listed_meaning union [] = some no_fields
  listed_meaning union (i ∷ is) = get_elem? ds i >>=? λ d.
      listed_meaning union is >>=? λ fields. some (field [] d false union fields)

  abbrev pub numbered_meaning : ℕ → List ℕ → Option FieldsV2
  numbered_meaning n [] = some no_fields
  numbered_meaning n (i ∷ is) = get_elem? ds i >>=? λ d.
      numbered_meaning (n + 1) is >>=? λ fields. some (field (itoa n) d false false fields)

  abbrev pub named_meaning : Bool → List (List ℕ × ℕ) → Option FieldsV2
  named_meaning required [] = some no_fields
  named_meaning required ((name, i) ∷ xs) = get_elem? ds i >>=? λ d.
      named_meaning required xs >>=? λ fields. some (field name d required false fields)

  abbrev pub object_meaning : List (ObjectField × ℕ) → Option FieldsV2
  object_meaning [] = some no_fields
  object_meaning ((f, source) ∷ xs) = required_meaning true f.card >>=? λ required.
      get_elem? ds f.position >>=? λ d.
      object_meaning xs >>=? λ fields. some (field f.name d required false fields)

  abbrev pub meaning : List ℕ → Shape → Option V2
  meaning id (a_set i) = get_elem? ds i >>=? λ d. some (v2 set id [] false no_fields (only d))
  meaning id (an_object b t xs) =
      object_meaning xs >>=? λ fs. some (v2 object id [] true no_fields fs)
  meaning id (an_input xs) =
      object_meaning xs >>=? λ fs. some (v2 input_shape id [] true no_fields fs)
  meaning id (a_scalar h ps) =
      listed_meaning false ps >>=? λ a. some (v2 scalar id h.name true a no_fields)
  meaning id (a_tuple h ps is) = numbered_meaning 0 ps >>=? λ a.
      numbered_meaning 0 is >>=? λ fs. some (v2 tuple id h.name true a fs)
  meaning id (a_named_tuple h ps xs) = numbered_meaning 0 ps >>=? λ a.
      named_meaning false xs >>=? λ fs. some (v2 tuple id h.name true a fs)
  meaning id (an_array h ps i dimensions) = listed_meaning false ps >>=? λ a.
      get_elem? ds i >>=? λ d. some (v2 array id h.name true a (only d))
  meaning id (an_enum h ps names) =
      listed_meaning false ps >>=? λ a. some (v2 enum id h.name true a no_fields)
  meaning id (a_range h ps i) = listed_meaning false ps >>=? λ a.
      get_elem? ds i >>=? λ d. some (v2 range id h.name true a (only d))
  meaning id (a_multi_range h ps i) = listed_meaning false ps >>=? λ a. get_elem? ds i >>=? λ d.
      some (v2 multi_range id h.name true a (only (v2 range id_zero [] false no_fields (only d))))
  meaning id (an_object_shape h) = some (v2 object_shape id h.name true no_fields no_fields)
  meaning id (a_compound h union is) =
      listed_meaning union is >>=? λ fs. some (v2 compound id h.name true no_fields fs)
  meaning id (an_sql_record xs) =
      named_meaning true xs >>=? λ fs. some (v2 sql_record id [] false no_fields fs)
  meaning id (an_annotation c bytes) = some zero_v2

-- The descriptors of the blocks behind those of `ds`.
abbrev pub meanings : List V2 → List Block → Option (List V2)
meanings ds [] = some ds
meanings ds (b ∷ bs) = meaning ds b.id b.shape >>=? λ d. meanings (ds ++ d ∷ []) bs

-- Every number and every length fits the bytes that it has.
abbrev pub HeadFits : Head → Type 0
HeadFits h = (length h.name < 2 ^ 32) × (h.schema_defined < 2 ^ 8)

abbrev pub Positions : List ℕ → Type 0
Positions is = (length is < 2 ^ 16) × AllSmall is

abbrev pub Names : List (List ℕ × ℕ) → Type 0
Names xs = (length xs < 2 ^ 16) × AllNamed xs

abbrev pub AllFields : List (ObjectField × ℕ) → Type 0
AllFields [] = Unit
AllFields ((f, source) ∷ xs) =
    (length f.flags ≡ 4)
    × (f.card < 2 ^ 8)
    × (length f.name < 2 ^ 32)
    × (f.position < 2 ^ 16)
    × (source < 2 ^ 16)
    × AllFields xs

abbrev pub Objects : List (ObjectField × ℕ) → Type 0
Objects xs = (length xs < 2 ^ 16) × AllFields xs

abbrev pub ShapeFits : Shape → Type 0
ShapeFits (a_set i) = i < 2 ^ 16
ShapeFits (an_object b t xs) = (b < 2 ^ 8) × (t < 2 ^ 16) × Objects xs
ShapeFits (an_input xs) = Objects xs
ShapeFits (a_scalar h ps) = HeadFits h × Positions ps
ShapeFits (a_tuple h ps is) = HeadFits h × Positions ps × Positions is
ShapeFits (a_named_tuple h ps xs) = HeadFits h × Positions ps × Names xs
ShapeFits (an_array h ps i dimensions) =
    HeadFits h
    × Positions ps
    × (i < 2 ^ 16)
    × (length dimensions < 2 ^ 16)
    × (length dimensions ≢ 0)
ShapeFits (an_enum h ps names) =
    HeadFits h × Positions ps × (length names < 2 ^ 16) × AllShort names
ShapeFits (a_range h ps i) = HeadFits h × Positions ps × (i < 2 ^ 16)
ShapeFits (a_multi_range h ps i) = HeadFits h × Positions ps × (i < 2 ^ 16)
ShapeFits (an_object_shape h) = HeadFits h
ShapeFits (a_compound h union is) = HeadFits h × Positions is
ShapeFits (an_sql_record xs) = Names xs
ShapeFits (an_annotation c bytes) = (128 ≤ c) × (c < 256) × (length bytes < 2 ^ 32)

abbrev pub BlockFits : Block → Type 0
BlockFits b = (b.size < 2 ^ 32) × (length b.id ≡ 16) × ShapeFits b.shape

abbrev pub AllFit : List Block → Type 0
AllFit [] = Unit
AllFit (b ∷ bs) = BlockFits b × AllFit bs
