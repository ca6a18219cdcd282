-- ===== src/Examples/Descriptors.antt =====
-- internal/descriptor and internal/internal.go at concrete descriptions.
use edgedb_go.Common.{ℕ, ◌≡◌, refl, ok, arith, true, false, List, [], ◌∷◌, ◌++◌, none, ltb, leb}
use edgedb_go.Buff.Reader.{Reader}
use edgedb_go.Descriptor.{
  base_scalar, scalar, set, array, object, id_zero, Descriptor, descriptor, no_fields, field, only,
  zero_descriptor,
}
use edgedb_go.Descriptor.Version.{ProtocolVersion, gt, gte, lt, rank, compare-rank}
use edgedb_go.Descriptor.Pop.{pop}
use edgedb_go.Descriptor.Pop.Shapes.{has_cards}
use edgedb_go.Descriptor.Pop.RoundTrip.{pop-description, pop-annotation}
use edgedb_go.Descriptor.PopV2
use edgedb_go.Descriptor.PopV2.{pop_v2}
use edgedb_go.Descriptor.PopV2.RoundTrip.{pop_v2-description}
use edgedb_go.Descriptor.WireV2
use edgedb_go.Descriptor.Wire.{
  Block, a_base_scalar, an_array, an_object, an_annotation, description_bytes, block_bytes,
}

abbrev version : ProtocolVersion
version = record { major = 1; minor = 0 }

version-has_cards : has_cards version ≡ true
unfolding gt gte
version-has_cards = refl

abbrev old_version : ProtocolVersion
old_version = record { major = 0; minor = 9 }

abbrev reader : List ℕ → Reader
reader buf = record {
  to_be_deserialized = none;
  held = none;
  err = none;
  buf = buf;
  msg_type = 84;
  released = [];
}

-- A base scalar, an array of it, and an object with a required field "n" of that array.
abbrev three_blocks : List Block
three_blocks =
    record { id = id_zero; shape = a_base_scalar }
    ∷ record { id = id_zero; shape = an_array 0 (5 ∷ []) }
    ∷ record {
      id = id_zero;
      shape =
          an_object false
            (record { flags = 0 ∷ 0 ∷ 0 ∷ 0 ∷ []; card = 65; name = 110 ∷ []; position = 1 } ∷ []);
    }
    ∷ []

abbrev a_scalar_type : Descriptor
a_scalar_type = descriptor base_scalar id_zero no_fields

abbrev an_array_type : Descriptor
an_array_type = descriptor array id_zero (only a_scalar_type)

abbrev an_object_type : Descriptor
an_object_type = descriptor object id_zero (field (110 ∷ []) an_array_type true no_fields)

pop-description_example :
    pop version (reader (description_bytes true three_blocks)) ≡ ok (an_object_type, reader [])
pop-description_example =
    pop-description version true version-has_cards three_blocks (a_scalar_type ∷ an_array_type ∷ [])
      an_object_type (reader (description_bytes true three_blocks)) (ground arith) refl refl

abbrev annotated : List ℕ
annotated =
    description_bytes true three_blocks
    ++ block_bytes true (record { id = id_zero; shape = an_annotation 255 (110 ∷ []) })

pop-annotation_example : pop version (reader annotated) ≡ ok (zero_descriptor, reader [])
pop-annotation_example =
    pop-annotation version true version-has_cards three_blocks
      (a_scalar_type ∷ an_array_type ∷ an_object_type ∷ []) id_zero (110 ∷ []) 255
      (reader annotated) (ground arith) refl (ground arith) refl

-- The scalar type "n", and a set of it.
abbrev two_blocks : List WireV2.Block
two_blocks =
    record {
      size = 24;
      id = id_zero;
      shape = WireV2.a_scalar (record { name = 110 ∷ []; schema_defined = 1 }) [];
    }
    ∷ record { size = 19; id = id_zero; shape = WireV2.a_set 0 }
    ∷ []

abbrev n_type : PopV2.V2
n_type = PopV2.v2 scalar id_zero (110 ∷ []) true PopV2.no_fields PopV2.no_fields

abbrev set_type : PopV2.V2
set_type = PopV2.v2 set id_zero [] false PopV2.no_fields (PopV2.only n_type)

pop_v2-description_example :
    pop_v2 (reader (WireV2.description_bytes two_blocks)) ≡ ok (set_type, reader [])
pop_v2-description_example =
    pop_v2-description two_blocks (n_type ∷ []) set_type
      (reader (WireV2.description_bytes two_blocks)) (ground arith) refl refl

compare-rank_example :
    (gt version old_version ≡ ltb (rank old_version) (rank version))
    × (gte version old_version ≡ leb (rank old_version) (rank version))
    × (lt version old_version ≡ ltb (rank version) (rank old_version))
compare-rank_example = compare-rank version old_version (omega arith) (omega arith)
