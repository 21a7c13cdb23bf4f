-- ===== src/Pdef/Swap.antt =====
-- The second bytecode of a rule, with the loads of the other byte order (`swap_endian_opcode` of
-- src/pdef/parser.c), is the code of the same conditions on fields of the other byte order.
use rxtracenetcap.Pdef.Executor.{execute_bytecode}
use rxtracenetcap.Pdef.Rules.{all_hold}
use rxtracenetcap.Pdef.Compiled.{FieldsFit, compile_conditions-execute_bytecode}
use rxtracenetcap.Prelude.{
  ok, subst, ◌≤◌, ◌<◌, ◌^◌, ℕ, suc, ◌+◌, ◌≡◌, refl, sym, ap, ◌∙◌, Bool, true, false, Option, none,
  some, List, [], ◌∷◌, ◌++◌, map, length, is_empty, if◌then◌else◌, str_beq, Str,
}
use rxtracenetcap.Prelude.Options.{◌>>=◌, bind-some}
use rxtracenetcap.Pdef.Types.{
  FieldType, field_type_uint8, field_type_uint16, field_type_uint32, field_type_uint64,
  field_type_int8, field_type_int16, field_type_int32, field_type_int64, field_type_bytes,
  field_type_string, field_type_varbytes, field_type_nested, Endian, endian_big, endian_little,
  Field, Instruction, op_return_true, op_return_false,
}
use rxtracenetcap.Pdef.Compile.{
  ConditionOp, cond_eq, cond_ne, cond_gt, cond_ge, cond_lt, cond_le, cond_mask, cond_in,
  cond_not_in, FilterCondition, plain, load_of, find_field_by_path, get_load_opcode,
  swap_endian_opcode, swap_instruction, get_cmp_opcode, compare_of, cond_size, conds_size, emit_in,
  emit_not_in, emit_tests, emit_conditions, compile_conditions,
}

abbrev pub other_endian : Endian → Endian
other_endian endian_big = endian_little
other_endian endian_little = endian_big

-- The field in the other byte order.
abbrev pub swap_field : Field → Field
swap_field f = record f { endian = other_endian f.endian }

get_load_opcode-other_endian :
    (t : FieldType) (e : Endian)
    → swap_endian_opcode (get_load_opcode t e) ≡ get_load_opcode t (other_endian e)
unfolding get_load_opcode swap_endian_opcode
get_load_opcode-other_endian field_type_uint8 endian_big = refl
get_load_opcode-other_endian field_type_uint8 endian_little = refl
get_load_opcode-other_endian field_type_uint16 endian_big = refl
get_load_opcode-other_endian field_type_uint16 endian_little = refl
get_load_opcode-other_endian field_type_uint32 endian_big = refl
get_load_opcode-other_endian field_type_uint32 endian_little = refl
get_load_opcode-other_endian field_type_uint64 endian_big = refl
get_load_opcode-other_endian field_type_uint64 endian_little = refl
get_load_opcode-other_endian field_type_int8 endian_big = refl
get_load_opcode-other_endian field_type_int8 endian_little = refl
get_load_opcode-other_endian field_type_int16 endian_big = refl
get_load_opcode-other_endian field_type_int16 endian_little = refl
get_load_opcode-other_endian field_type_int32 endian_big = refl
get_load_opcode-other_endian field_type_int32 endian_little = refl
get_load_opcode-other_endian field_type_int64 endian_big = refl
get_load_opcode-other_endian field_type_int64 endian_little = refl
get_load_opcode-other_endian field_type_bytes endian_big = refl
get_load_opcode-other_endian field_type_bytes endian_little = refl
get_load_opcode-other_endian field_type_string endian_big = refl
get_load_opcode-other_endian field_type_string endian_little = refl
get_load_opcode-other_endian field_type_varbytes endian_big = refl
get_load_opcode-other_endian field_type_varbytes endian_little = refl
get_load_opcode-other_endian field_type_nested endian_big = refl
get_load_opcode-other_endian field_type_nested endian_little = refl

pub find_field_by_path-swap_field :
    (fields : List Field) (path : Str)
    → find_field_by_path (map swap_field fields) path
      ≡ (do f ← find_field_by_path fields path; some (swap_field f))
unfolding find_field_by_path
find_field_by_path-swap_field [] path = refl
find_field_by_path-swap_field (f ∷ fields) path =
    go (str_beq f.name path) (find_field_by_path-swap_field fields path)
  where
    go :
        (b : Bool)
        → find_field_by_path (map swap_field fields) path
          ≡ (do g ← find_field_by_path fields path; some (swap_field g))
        → (if b then some (swap_field f) else find_field_by_path (map swap_field fields) path)
          ≡ (do g ← (if b then some f else find_field_by_path fields path); some (swap_field g))
    go true ih = refl
    go false ih = ih

map-append :
    (f : Instruction → Instruction) (xs ys : List Instruction)
    → map f (xs ++ ys) ≡ map f xs ++ map f ys
map-append f [] ys = refl
map-append f (x ∷ xs) ys = ap (λ zs. f x ∷ zs) (map-append f xs ys)

emit_in-swap :
    (next fail idx : ℕ) (vs : List ℕ)
    → map swap_instruction (emit_in next fail idx vs) ≡ emit_in next fail idx vs
unfolding emit_in swap_endian_opcode
emit_in-swap next fail idx [] = refl
emit_in-swap next fail idx (v ∷ []) = refl
emit_in-swap next fail idx (v ∷ w ∷ vs) = rw (emit_in-swap next fail (idx + 3) (w ∷ vs)) refl

emit_not_in-swap :
    (next fail idx : ℕ) (vs : List ℕ)
    → map swap_instruction (emit_not_in next fail idx vs) ≡ emit_not_in next fail idx vs
unfolding emit_not_in swap_endian_opcode
emit_not_in-swap next fail idx [] = refl
emit_not_in-swap next fail idx (v ∷ vs) = rw (emit_not_in-swap next fail (idx + 3) vs) refl

emit_tests-swap :
    (op : ConditionOp) (next fail idx : ℕ) (c : FilterCondition)
    → map swap_instruction (emit_tests op next fail idx c) ≡ emit_tests op next fail idx c
unfolding emit_tests compare_of get_cmp_opcode swap_endian_opcode
emit_tests-swap cond_in next fail idx c = emit_in-swap next fail idx c.values
emit_tests-swap cond_not_in next fail idx c = emit_not_in-swap next fail idx c.values
emit_tests-swap cond_eq next fail idx c = refl
emit_tests-swap cond_ne next fail idx c = refl
emit_tests-swap cond_gt next fail idx c = refl
emit_tests-swap cond_ge next fail idx c = refl
emit_tests-swap cond_lt next fail idx c = refl
emit_tests-swap cond_le next fail idx c = refl
emit_tests-swap cond_mask next fail idx c = refl

-- One condition, before the code `m` of the others.
condition-swap :
    (f : Field) (tests : List Instruction) (m : Option (List Instruction))
    → map swap_instruction tests ≡ tests
    → (do
      rest ← (do body ← m; some (map swap_instruction body))
      some (load_of (swap_field f) ∷ tests ++ rest))
      ≡ (do
        body ← (do rest ← m; some (load_of f ∷ tests ++ rest))
        some (map swap_instruction body))
condition-swap f tests none e = refl
condition-swap f tests (some rest) e =
    rw (map-append swap_instruction tests rest, e, get_load_opcode-other_endian f.type f.endian)
      refl

emit_conditions-swap :
    (fields : List Field) (success fail start : ℕ) (cs : List FilterCondition)
    → emit_conditions (map swap_field fields) success fail start cs
      ≡ (do body ← emit_conditions fields success fail start cs; some (map swap_instruction body))
unfolding emit_conditions
emit_conditions-swap fields success fail start [] = refl
emit_conditions-swap fields success fail start (c ∷ cs) =
    rw (find_field_by_path-swap_field fields c.field_name) (
      go (cond_size c.op c.values) (find_field_by_path fields c.field_name)
        (λ size. emit_conditions-swap fields success fail (start + size) cs))
  where
    go :
        (size? : Option ℕ) (field? : Option Field)
        → ((size : ℕ)
            → emit_conditions (map swap_field fields) success fail (start + size) cs ≡ (do
              body ← emit_conditions fields success fail (start + size) cs
              some (map swap_instruction body)))
        → (do
          size ← size?
          f ← (do g ← field?; some (swap_field g))
          rest ← emit_conditions (map swap_field fields) success fail (start + size) cs
          some (
              load_of f
                ∷ emit_tests c.op (if is_empty cs then success else start + size) fail (suc start) c
              ++ rest))
          ≡ (do
            body ← (do
              size ← size?
              f ← field?
              rest ← emit_conditions fields success fail (start + size) cs
              some (
                  load_of f
                    ∷ emit_tests c.op
                        (if is_empty cs then success else start + size)
                        fail
                        (suc start)
                        c
                  ++ rest))
            some (map swap_instruction body))
    go none field? ih = refl
    go (some size) none ih = refl
    go (some size) (some f) ih = rw (ih size) (
        condition-swap f
          (emit_tests c.op (if is_empty cs then success else start + size) fail (suc start) c)
          (emit_conditions fields success fail (start + size) cs)
          (emit_tests-swap c.op (if is_empty cs then success else start + size) fail (suc start) c))

pub compile_conditions-swap :
    (fields : List Field) (cs : List FilterCondition)
    → compile_conditions (map swap_field fields) cs
      ≡ (do code ← compile_conditions fields cs; some (map swap_instruction code))
unfolding compile_conditions swap_endian_opcode
compile_conditions-swap fields cs = go (conds_size cs)
  where
    finish :
        (m : Option (List Instruction))
        → (do
          body ← (do b ← m; some (map swap_instruction b))
          some (body ++ plain op_return_true ∷ plain op_return_false ∷ []))
          ≡ (do
            code ← (do body ← m; some (body ++ plain op_return_true ∷ plain op_return_false ∷ []))
            some (map swap_instruction code))
    finish none = refl
    finish (some body) =
        rw (map-append swap_instruction body (plain op_return_true ∷ plain op_return_false ∷ []))
          refl

    go :
        (size? : Option ℕ)
        → (do
          size ← size?
          body ← emit_conditions (map swap_field fields) size (suc size) 0 cs
          some (body ++ plain op_return_true ∷ plain op_return_false ∷ []))
          ≡ (do
            code ← (do
              size ← size?
              body ← emit_conditions fields size (suc size) 0 cs
              some (body ++ plain op_return_true ∷ plain op_return_false ∷ []))
            some (map swap_instruction code))
    go none = refl
    go (some size) =
        rw (emit_conditions-swap fields size (suc size) 0 cs)
          (finish (emit_conditions fields size (suc size) 0 cs))

length-map : (code : List Instruction) → length (map swap_instruction code) ≡ length code
length-map [] = refl
length-map (ins ∷ code) = ap suc (length-map code)

some_field : {f g : Field} → some f ≡ some g → f ≡ g
some_field e = cc e

map-FieldsFit : (fields : List Field) → FieldsFit fields → FieldsFit (map swap_field fields)
map-FieldsFit fields fit path f e =
    (let (g, g_ok, h) =
        bind-some (find_field_by_path fields path) (λ g. some (swap_field g)) f
          (sym (find_field_by_path-swap_field fields path) ∙ e) in
      subst (λ x. x.offset + 8 < 2 ^ 32) (some_field h) (fit path g g_ok))

-- Where a rule's conditions compile, and no field of the structure reaches past 2 ^ 32, the
-- bytecode with the swapped loads returns on every packet, within as many rounds as it has
-- instructions. It returns `true` exactly if each condition holds of the number that its field
-- reads in the other byte order.
pub swapped-execute_bytecode :
    (fields : List Field) (cs : List FilterCondition) (code : List Instruction) (packet : List ℕ)
    (fuel : ℕ)
    → FieldsFit fields
    → compile_conditions fields cs ≡ some code
    → length code ≤ fuel
    → execute_bytecode fuel packet (map swap_instruction code)
      ≡ ok (all_hold (map swap_field fields) packet cs)
swapped-execute_bytecode fields cs code packet fuel fit e le =
    compile_conditions-execute_bytecode (map swap_field fields) cs (map swap_instruction code)
      packet fuel (map-FieldsFit fields fit)
      (compile_conditions-swap fields cs ∙ ap (λ o. do c ← o; some (map swap_instruction c)) e)
      (subst (λ n. n ≤ fuel) (sym (length-map code)) le)
