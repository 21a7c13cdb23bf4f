-- ===== src/Pdef/Samples.antt =====
-- A PDEF structure, a rule on it and a packet, for tests.
use rxtracenetcap.Prelude.Options.{some_injective}
use rxtracenetcap.Prelude.{ℕ, ◌≡◌, Bool, true, false, Option, none, some, List, [], ◌∷◌, arith}
use rxtracenetcap.Pdef.Types.{
  Field, StructDef, Instruction, FilterRule, ProtocolDef, field_type_uint16, field_type_uint8,
  endian_big, endian_type_unknown, EndianMode,
}
use rxtracenetcap.Pdef.Compiled.{FieldsFit}
use rxtracenetcap.Pdef.Filters.{StructsFit}
use rxtracenetcap.Prelude.{subst, ◌+◌, ◌<◌, ◌^◌, if◌then◌else◌, str_beq}
use rxtracenetcap.Pdef.Compile.{
  find_field_by_path, find_target_struct, target_struct, TempFilterRule, FilterCondition, cond_in,
  cond_gt, cond_not_in, compile_conditions, compile_filter_rules,
}

-- `uint16 magic; uint8 version;`
abbrev pub magic : Field
magic = record {
  name = 1 ∷ [];
  type = field_type_uint16;
  offset = 0;
  size = 2;
  endian = endian_big;
  is_variable = false;
  is_array = false;
  array_size = 0;
}

abbrev pub version : Field
version = record {
  name = 2 ∷ [];
  type = field_type_uint8;
  offset = 2;
  size = 1;
  endian = endian_big;
  is_variable = false;
  is_array = false;
  array_size = 0;
}

abbrev pub header_fields : List Field
header_fields = magic ∷ version ∷ []

abbrev pub header : StructDef
header = record { name = 7 ∷ []; fields = header_fields; min_size = 3; has_variable = false }

-- `magic in (258, 772); version > 4; version not in (5, 6);`
abbrev pub header_conditions : List FilterCondition
header_conditions =
    record { field_name = 1 ∷ []; op = cond_in; value = 0; mask = 0; values = 258 ∷ 772 ∷ [] }
    ∷ record { field_name = 2 ∷ []; op = cond_gt; value = 4; mask = 0; values = [] }
    ∷ record { field_name = 2 ∷ []; op = cond_not_in; value = 0; mask = 0; values = 5 ∷ 6 ∷ [] }
    ∷ []

abbrev pub header_rule : TempFilterRule
header_rule = record {
  name = 3 ∷ [];
  conditions = header_conditions;
  sliding_window = true;
  sliding_max_offset = 0;
}

abbrev pub or_nothing : {A : Type 0} → List A → Option (List A) → List A
or_nothing xs none = xs
or_nothing xs (some ys) = ys

abbrev pub header_code : List Instruction
header_code = or_nothing [] (compile_conditions header_fields header_conditions)

abbrev pub header_rules : List FilterRule
header_rules = or_nothing [] (compile_filter_rules (header ∷ []) (header_rule ∷ []))

abbrev pub protocol : EndianMode → ProtocolDef
protocol mode = record {
  name = 9 ∷ [];
  default_endian = endian_big;
  filters = header_rules;
  endian_mode = mode;
  detected_endian = endian_type_unknown;
}

-- 0x0102, version 9.
abbrev pub packet : List ℕ
packet = 1 ∷ 2 ∷ 9 ∷ []

fits_cons :
    (f : Field) (fields : List Field)
    → f.offset + 8 < 2 ^ 32
    → FieldsFit fields
    → FieldsFit (f ∷ fields)
unfolding find_field_by_path
fits_cons f fields h k path g e = go (str_beq f.name path) e
  where
    go :
        (b : Bool)
        → (if b then some f else find_field_by_path fields path) ≡ some g
        → g.offset + 8 < 2 ^ 32
    go true q = subst (λ (x : Field). x.offset + 8 < 2 ^ 32) (some_injective q) h
    go false q = k path g q

fits_nil : FieldsFit []
unfolding find_field_by_path
fits_nil path f e = ground (arith, e)

pub header_fields-FieldsFit : FieldsFit header_fields
header_fields-FieldsFit =
    fits_cons magic (version ∷ []) (omega arith) (fits_cons version [] (omega arith) fits_nil)

pub one_struct-StructsFit : (s : StructDef) → FieldsFit s.fields → StructsFit (s ∷ [])
unfolding target_struct find_target_struct
one_struct-StructsFit s h [] t e = ground (arith, e)
one_struct-StructsFit s h (c ∷ cs) t e = go (find_field_by_path s.fields c.field_name) e
  where
    go :
        (o : Option Field)
        → (elim o [ none ↦ none | some f ↦ some s ]) ≡ some t
        → FieldsFit t.fields
    go none q = ground (arith, q)
    go (some f) q = subst (λ (x : StructDef). FieldsFit x.fields) (some_injective q) h
