-- ===== src/Pdef/Compiled.antt =====
-- The code that src/pdef/parser.c generates for a filter rule, run by src/runtime/executor.c, decides
-- the conditions of the rule.
use rxtracenetcap.Prelude.{
  ℕ, suc, ◌+◌, ◌-◌, ◌^◌, ◌≤◌, ◌<◌, ◌≡◌, refl, sym, ap, subst, ◌∙◌, Bool, true, false, ◌&&◌, Option,
  none, some, List, [], ◌∷◌, ◌++◌, length, length-append, leb, is_empty, if◌then◌else◌, get_elem?,
  get_elem?-bound, ok, arith, Str,
}
use rxtracenetcap.Prelude.Options.{◌>>=◌, bind-some}
use rxtracenetcap.Pdef.Types.{Instruction, Field, op_return_true, op_return_false}
use rxtracenetcap.Pdef.Executor.{execute_opcode, execute_bytecode, execute_loop}
use rxtracenetcap.Pdef.Compile.{
  FilterCondition, plain, load_of, find_field_by_path, conds_size, emit_tests, emit_conditions,
  compile_conditions,
}
use rxtracenetcap.Pdef.Rules.{number_at, condition_test, number_test, field_test, all_hold}
use rxtracenetcap.Pdef.Loads.{loaded, load_opcode_lem}
use rxtracenetcap.Pdef.Runs.{
  At, At-append_left, At-append_right, At-whole, Ends, Lands, Ends-continue, Ends-mono, Ends-halt,
  inside,
}
use rxtracenetcap.Pdef.Conditions.{at_ip, of_some, tests_lem}
use rxtracenetcap.Pdef.Layout.{
  emitted, emit_conditions-length, emit_tests-length, next_start_lem, some_code,
}

-- No field reaches past 2 ^ 32.
abbrev pub FieldsFit : List Field → Type 0
FieldsFit fields =
    (path : Str) (f : Field) → find_field_by_path fields path ≡ some f → f.offset + 8 < 2 ^ 32

module _ (fields : List Field) (success : ℕ) where
  module _ (code : List Instruction) (packet : List ℕ) (fit : FieldsFit fields)
      (at_end : At code success (plain op_return_true ∷ plain op_return_false ∷ [])) where
    ends_true : Lands code packet 2 success true
    unfolding execute_opcode
    ends_true acc cmp =
        Ends-halt code packet 1 (at_ip success acc cmp) (plain op_return_true) true at_end.0 refl

    ends_false : (k : ℕ) → 1 ≤ k → Lands code packet k (suc success) false
    unfolding execute_opcode
    ends_false k le acc cmp =
        Ends-mono code packet 1 k (at_ip (suc success) acc cmp) false
          (Ends-halt code packet 0 (at_ip (suc success) acc cmp) (plain op_return_false) false
            at_end.1.0 refl)
          le

    success_in : (t : ℕ) → t ≤ success → leb (length code) t ≡ false
    success_in t h = ground (arith, get_elem?-bound code success (plain op_return_true) at_end.0)

    fail_in : leb (length code) (suc success) ≡ false
    fail_in = inside code packet (suc success) (plain op_return_false) at_end.1.0

    load_and_test :
        (c : FilterCondition) (f : Field) (start k acc : ℕ) (cmp b : Bool)
        → get_elem? code start ≡ some (load_of f)
        → f.offset + 8 < 2 ^ 32
        → ((v : ℕ) → Ends code packet k (at_ip (suc start) v cmp) (condition_test c.op c v && b))
        → Ends code packet (suc k) (at_ip start acc cmp) (field_test packet c (some f) && b)
    load_and_test c f start k acc cmp b e small h = go (number_at f packet) refl
      where
        run :
            execute_opcode (load_of f).opcode (length code) packet (load_of f) (at_ip start acc cmp)
            ≡ ok (loaded (at_ip start acc cmp) (number_at f packet))
        run =
            load_opcode_lem f.type f.endian (length code) packet (load_of f) (at_ip start acc cmp)
              small

        go :
            (o : Option ℕ)
            → number_at f packet ≡ o
            → Ends code packet
                (suc k)
                (at_ip start acc cmp)
                (number_test c (number_at f packet) && b)
        go none q =
            subst (λ o. Ends code packet (suc k) (at_ip start acc cmp) (number_test c o && b))
              (sym q)
              (Ends-halt code packet k (at_ip start acc cmp) (load_of f) false e
                (run ∙ ap (λ o. ok (loaded (at_ip start acc cmp) o)) q))
        go (some v) q =
            subst (λ o. Ends code packet (suc k) (at_ip start acc cmp) (number_test c o && b))
              (sym q)
              (Ends-continue code packet k (at_ip start acc cmp) (at_ip (suc start) v cmp)
                (load_of f) (condition_test c.op c v && b) e
                (run ∙ ap (λ o. ok (loaded (at_ip start acc cmp) o)) q) (h v))

    no_conditions :
        (start size : ℕ)
        → start + size ≡ success
        → 0 ≡ size
        → Lands code packet (2 + size) start true
    no_conditions start size l e acc cmp fuel le =
        subst (λ i. execute_loop fuel code packet (at_ip i acc cmp) ≡ ok true) (omega (arith, l, e))
          (ends_true acc cmp fuel (omega (arith, le)))

    conditions_lem :
        (cs : List FilterCondition) (start size : ℕ) (body : List Instruction)
        → conds_size cs ≡ some size
        → emit_conditions fields success (suc success) start cs ≡ some body
        → start + size ≡ success
        → At code start body
        → Lands code packet (2 + size) start (all_hold fields packet cs)
    unfolding conds_size emit_conditions all_hold
    conditions_lem [] start size body e₁ e₂ l h acc cmp =
        no_conditions start size l (of_some e₁) acc cmp
    conditions_lem (c ∷ cs) start size body e₁ e₂ l h acc cmp =
        (let v = emitted fields success c cs start size body e₁ e₂ in
          let n = v.size_here in
          let next = (if is_empty cs then success else start + n) in
          let tests = emit_tests c.op next (suc success) (suc start) c in
          let same =
            next_start_lem cs success (start + n) v.size_rest v.rest_size
              (omega (arith, l, v.sum)) in
          let here = subst (At code start) (sym v.whole) h in
          let later =
            At-append_right code (suc start) tests v.rest (start + n)
              (omega (arith, emit_tests-length c.op next (suc success) (suc start) n c v.has_size))
              here.1 in
          let ih =
            conditions_lem cs (start + n) v.size_rest v.rest v.rest_size v.rest_code
              (omega (arith, l, v.sum)) later in
          subst
            (λ o.
              Ends code packet (2 + size) (at_ip start acc cmp)
                (field_test packet c o && all_hold fields packet cs))
            (sym v.has_field)
            (Ends-mono code packet (suc (2 + v.size_rest + (n - 1))) (2 + size)
              (at_ip start acc cmp)
              (field_test packet c (some v.field) && all_hold fields packet cs)
              (load_and_test c v.field start (2 + v.size_rest + (n - 1)) acc cmp
                (all_hold fields packet cs) here.0 (fit c.field_name v.field v.has_field)
                (λ w.
                  tests_lem code packet next (suc success) (2 + v.size_rest)
                    (all_hold fields packet cs) (success_in next (omega (arith, l, v.sum, same)))
                    fail_in
                    (subst (λ i. Lands code packet (2 + v.size_rest) i (all_hold fields packet cs))
                      (sym same) ih)
                    (ends_false (2 + v.size_rest) (omega arith)) c.op (suc start) n c v.has_size
                    (At-append_left code (suc start) tests v.rest here.1) (omega (arith, same)) w
                    cmp))
              (omega (
                arith,
                v.sum,
                emit_tests-length c.op next (suc success) (suc start) n c v.has_size,
              ))))

is_empty-append :
    (xs : List Instruction) (y : Instruction) (ys : List Instruction)
    → is_empty (xs ++ y ∷ ys) ≡ false
is_empty-append [] y ys = refl
is_empty-append (x ∷ xs) y ys = refl

abbrev returns : List Instruction
returns = plain op_return_true ∷ plain op_return_false ∷ []

body_lem :
    (fields : List Field) (cs : List FilterCondition) (size : ℕ) (body : List Instruction)
    (packet : List ℕ) (fuel : ℕ)
    → FieldsFit fields
    → conds_size cs ≡ some size
    → emit_conditions fields size (suc size) 0 cs ≡ some body
    → length (body ++ returns) ≤ fuel
    → execute_bytecode fuel packet (body ++ returns) ≡ ok (all_hold fields packet cs)
unfolding execute_bytecode
body_lem fields cs size body packet fuel fit e₁ e₂ le =
    (let code = body ++ returns in
      let len = emit_conditions-length fields size cs 0 size body e₁ e₂ in
      let at_end = At-append_right code 0 body returns size (omega (arith, len)) (At-whole code) in
      let at_start = At-append_left code 0 body returns (At-whole code) in
      rw (is_empty-append body (plain op_return_true) (plain op_return_false ∷ [])) (
        conditions_lem fields size code packet fit at_end cs 0 size body e₁ e₂ (omega arith)
          at_start 0 false fuel (omega (arith, le, len, length-append body returns))))

-- Where a rule's conditions compile, and no field of the structure reaches past 2 ^ 32, the bytecode
-- returns on every packet, within as many rounds as it has instructions, and without a read outside
-- of the packet. It returns `true` exactly if each condition holds of the number that its field reads.
pub compile_conditions-execute_bytecode :
    (fields : List Field) (cs : List FilterCondition) (code : List Instruction) (packet : List ℕ)
    (fuel : ℕ)
    → FieldsFit fields
    → compile_conditions fields cs ≡ some code
    → length code ≤ fuel
    → execute_bytecode fuel packet code ≡ ok (all_hold fields packet cs)
unfolding compile_conditions
compile_conditions-execute_bytecode fields cs code packet fuel fit e le =
    (let (size, size_ok, t) =
        bind-some (conds_size cs)
          (λ size. do body ← emit_conditions fields size (suc size) 0 cs; some (body ++ returns))
          code e in
      let (body, body_ok, u) =
        bind-some (emit_conditions fields size (suc size) 0 cs) (λ body. some (body ++ returns))
          code t in
      subst (λ x. execute_bytecode fuel packet x ≡ ok (all_hold fields packet cs)) (some_code u)
        (body_lem fields cs size body packet fuel fit size_ok body_ok
          (subst (λ x. length x ≤ fuel) (sym (some_code u)) le)))
