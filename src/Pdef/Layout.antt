-- ===== src/Pdef/Layout.antt =====
-- How src/pdef/parser.c lays the code of the conditions out: their sizes and their starts.
use rxtracenetcap.Prelude.{
  ℕ, suc, ◌+◌, ◌*◌, ◌≡◌, refl, sym, ap, subst, ◌∙◌, some, List, [], ◌∷◌, ◌++◌, length,
  length-append, is_empty, if◌then◌else◌, arith,
}
use rxtracenetcap.Prelude.Options.{◌>>=◌, bind-some}
use rxtracenetcap.Pdef.Types.{Instruction, Field}
use rxtracenetcap.Pdef.Compile.{
  ConditionOp, cond_eq, cond_ne, cond_gt, cond_ge, cond_lt, cond_le, cond_mask, cond_in,
  cond_not_in, FilterCondition, load_of, find_field_by_path, cond_size, conds_size, emit_in,
  emit_not_in, emit_tests, emit_conditions,
}
use rxtracenetcap.Pdef.Conditions.{of_some}

emit_in-length :
    (next fail idx v : ℕ) (vs : List ℕ)
    → suc (length (emit_in next fail idx (v ∷ vs))) ≡ 3 * suc (length vs)
unfolding emit_in
emit_in-length next fail idx v [] = refl
emit_in-length next fail idx v (w ∷ vs) = omega (arith, emit_in-length next fail (idx + 3) w vs)

emit_not_in-length :
    (next fail idx : ℕ) (vs : List ℕ) → length (emit_not_in next fail idx vs) ≡ 3 * length vs
unfolding emit_not_in
emit_not_in-length next fail idx [] = refl
emit_not_in-length next fail idx (v ∷ vs) = omega (arith, emit_not_in-length next fail (idx + 3) vs)

in-length :
    (next fail idx size : ℕ) (vs : List ℕ)
    → cond_size cond_in vs ≡ some size
    → suc (length (emit_in next fail idx vs)) ≡ size
unfolding cond_size
in-length next fail idx size [] e = ground (arith, e)
in-length next fail idx size (v ∷ vs) e = emit_in-length next fail idx v vs ∙ of_some e

not_in-length :
    (next fail idx size : ℕ) (vs : List ℕ)
    → cond_size cond_not_in vs ≡ some size
    → suc (length (emit_not_in next fail idx vs)) ≡ size
unfolding cond_size
not_in-length next fail idx size [] e = ground (arith, e)
not_in-length next fail idx size (v ∷ vs) e =
    omega (arith, emit_not_in-length next fail idx (v ∷ vs), of_some e)

pub emit_tests-length :
    (op : ConditionOp) (next fail idx size : ℕ) (c : FilterCondition)
    → cond_size op c.values ≡ some size
    → suc (length (emit_tests op next fail idx c)) ≡ size
unfolding emit_tests cond_size
emit_tests-length cond_in next fail idx size c e = in-length next fail idx size c.values e
emit_tests-length cond_not_in next fail idx size c e = not_in-length next fail idx size c.values e
emit_tests-length cond_eq next fail idx size c e = of_some e
emit_tests-length cond_ne next fail idx size c e = of_some e
emit_tests-length cond_gt next fail idx size c e = of_some e
emit_tests-length cond_ge next fail idx size c e = of_some e
emit_tests-length cond_lt next fail idx size c e = of_some e
emit_tests-length cond_le next fail idx size c e = of_some e
emit_tests-length cond_mask next fail idx size c e = of_some e

-- Where the code of the first condition goes on.
pub next_start_lem :
    (cs : List FilterCondition) (success next rest : ℕ)
    → conds_size cs ≡ some rest
    → next + rest ≡ success
    → (if is_empty cs then success else next) ≡ next
unfolding conds_size
next_start_lem [] success next rest e h = omega (arith, h, of_some e)
next_start_lem (c ∷ cs) success next rest e h = refl

pub some_code : {xs ys : List Instruction} → some xs ≡ some ys → xs ≡ ys
some_code e = ground (arith, e)

module _ (fields : List Field) (success : ℕ) where
  -- The code of the first condition, and of the others after it.
  abbrev pub code_here :
      FilterCondition → List FilterCondition → ℕ → ℕ → Field → List Instruction → List Instruction
  code_here c cs start n f tail =
      load_of f
        ∷ emit_tests c.op (if is_empty cs then success else start + n) (suc success) (suc start) c
      ++ tail

  -- The parts of the code of some conditions, where the compiler accepts them.
  pub record Emitted (c : FilterCondition) (cs : List FilterCondition) (start size : ℕ)
      (body : List Instruction) : Type 0 where
    pub size_here : ℕ
    pub size_rest : ℕ
    pub field : Field
    pub rest : List Instruction
    pub has_size : cond_size c.op c.values ≡ some size_here
    pub rest_size : conds_size cs ≡ some size_rest
    pub sum : size_here + size_rest ≡ size
    pub has_field : find_field_by_path fields c.field_name ≡ some field
    pub rest_code : emit_conditions fields success (suc success) (start + size_here) cs ≡ some rest
    pub whole : code_here c cs start size_here field rest ≡ body

  pub emitted :
      (c : FilterCondition) (cs : List FilterCondition) (start size : ℕ) (body : List Instruction)
      → conds_size (c ∷ cs) ≡ some size
      → emit_conditions fields success (suc success) start (c ∷ cs) ≡ some body
      → Emitted c cs start size body
  unfolding conds_size emit_conditions
  emitted c cs start size body e₁ e₂ =
      (let (n, n_ok, s₁) =
          bind-some (cond_size c.op c.values) (λ n. do r ← conds_size cs; some (n + r)) size e₁ in
        let (r, r_ok, s₂) = bind-some (conds_size cs) (λ r. some (n + r)) size s₁ in
        let t₁ =
          subst
            (λ o.
              (do
                m ← o
                f ← find_field_by_path fields c.field_name
                tail ← emit_conditions fields success (suc success) (start + m) cs
                some (code_here c cs start m f tail))
              ≡ some body)
            n_ok e₂ in
        let (f, f_ok, t₂) =
          bind-some (find_field_by_path fields c.field_name)
            (λ f. do
              tail ← emit_conditions fields success (suc success) (start + n) cs
              some (code_here c cs start n f tail))
            body t₁ in
        let (tail, tail_ok, t₃) =
          bind-some (emit_conditions fields success (suc success) (start + n) cs)
            (λ tail. some (code_here c cs start n f tail)) body t₂ in
        record {
          size_here = n;
          size_rest = r;
          field = f;
          rest = tail;
          has_size = n_ok;
          rest_size = r_ok;
          sum = of_some s₂;
          has_field = f_ok;
          rest_code = tail_ok;
          whole = some_code t₃;
        })

  pub emit_conditions-length :
      (cs : List FilterCondition) (start size : ℕ) (body : List Instruction)
      → conds_size cs ≡ some size
      → emit_conditions fields success (suc success) start cs ≡ some body
      → length body ≡ size
  unfolding conds_size emit_conditions
  emit_conditions-length [] start size body e₁ e₂ = ap length (sym (some_code e₂)) ∙ of_some e₁
  emit_conditions-length (c ∷ cs) start size body e₁ e₂ =
      (let v = emitted c cs start size body e₁ e₂ in
        let next = (if is_empty cs then success else start + v.size_here) in
        omega (
          arith,
          ap length v.whole,
          length-append (emit_tests c.op next (suc success) (suc start) c) v.rest,
          emit_tests-length c.op next (suc success) (suc start) v.size_here c v.has_size,
          emit_conditions-length cs (start + v.size_here) v.size_rest v.rest v.rest_size
              v.rest_code,
          v.sum,
        ))
