-- ===== src/Pdef/Conditions.antt =====
-- The code that src/pdef/parser.c emits for the operator of a condition tests the accumulator as the
-- condition says, and goes to the next condition or to the end that fails.
use rxtracenetcap.Prelude.{
  ℕ, suc, ◌+◌, ◌-◌, ◌*◌, ◌≤◌, ◌≡◌, refl, sym, subst, Bool, true, false, not, ◌&&◌, ◌||◌, some, List,
  [], ◌∷◌, length, leb, ◌==◌, if◌then◌else◌, get_elem?, ok, arith,
}
use rxtracenetcap.Pdef.Types.{Instruction}
use rxtracenetcap.Pdef.Executor.{Vm, continue, execute_opcode}
use rxtracenetcap.Pdef.Compile.{
  ConditionOp, cond_eq, cond_ne, cond_gt, cond_ge, cond_lt, cond_le, cond_mask, cond_in,
  cond_not_in, FilterCondition, compare_eq, jump_if_false, jump_to, cond_size, emit_in, emit_not_in,
  emit_tests, compare_of, get_cmp_opcode,
}
use rxtracenetcap.Pdef.Rules.{any_equal, condition_test}
use rxtracenetcap.Pdef.Runs.{At, Ends, Lands, Ends-continue, Ends-mono, inside}

or_false : (r b : Bool) → (if r then b else false) ≡ ((r || false) && b)
or_false true b = refl
or_false false b = refl

or_more : (r s b : Bool) → (if r then b else s && b) ≡ ((r || s) && b)
or_more true s b = refl
or_more false s b = refl

nor_false : (r b : Bool) → (if r then false else b) ≡ (not (r || false) && b)
nor_false true b = refl
nor_false false b = refl

nor_more : (r s b : Bool) → (if r then false else not s && b) ≡ (not (r || s) && b)
nor_more true s b = refl
nor_more false s b = refl

and_if : (r b : Bool) → (if r then b else false) ≡ (r && b)
and_if true b = refl
and_if false b = refl

pub of_some : {m n : ℕ} → some m ≡ some n → m ≡ n
of_some e = ground (arith, e)

-- The machine at an instruction.
abbrev pub at_ip : ℕ → ℕ → Bool → Vm
at_ip i acc cmp = record { ip = i; acc = acc; cmp_result = cmp }

module _ (code : List Instruction) (packet : List ℕ) where
  -- A comparison and the jump after it.
  compare_and_jump :
      (k idx target acc : ℕ) (cmp r b c : Bool) (ins : Instruction)
      → get_elem? code idx ≡ some ins
      → get_elem? code (suc idx) ≡ some (jump_if_false target)
      → execute_opcode ins.opcode (length code) packet ins (at_ip idx acc cmp)
        ≡ ok (continue (at_ip (suc idx) acc r))
      → leb (length code) target ≡ false
      → Ends code packet k (at_ip (suc (suc idx)) acc true) b
      → Ends code packet k (at_ip target acc false) c
      → Ends code packet (2 + k) (at_ip idx acc cmp) (if r then b else c)
  unfolding execute_opcode
  compare_and_jump k idx target acc cmp true b c ins e₁ e₂ x t h₁ h₂ =
      Ends-mono code packet (suc (suc k)) (2 + k) (at_ip idx acc cmp) b
        (Ends-continue code packet (suc k) (at_ip idx acc cmp) (at_ip (suc idx) acc true) ins b e₁ x
          (Ends-continue code packet k (at_ip (suc idx) acc true) (at_ip (suc (suc idx)) acc true)
            (jump_if_false target) b e₂ refl h₁))
        (omega arith)
  compare_and_jump k idx target acc cmp false b c ins e₁ e₂ x t h₁ h₂ =
      Ends-mono code packet (suc (suc k)) (2 + k) (at_ip idx acc cmp) c
        (Ends-continue code packet (suc k) (at_ip idx acc cmp) (at_ip (suc idx) acc false) ins c e₁
          x
          (Ends-continue code packet k (at_ip (suc idx) acc false) (at_ip target acc false)
            (jump_if_false target) c e₂ (rw t refl) h₂))
        (omega arith)

  take_jump :
      (k idx target acc : ℕ) (cmp b : Bool)
      → get_elem? code idx ≡ some (jump_to target)
      → leb (length code) target ≡ false
      → Ends code packet k (at_ip target acc cmp) b
      → Ends code packet (suc k) (at_ip idx acc cmp) b
  unfolding execute_opcode
  take_jump k idx target acc cmp b e t h =
      Ends-continue code packet k (at_ip idx acc cmp) (at_ip target acc cmp) (jump_to target) b e
        (rw t refl) h

  -- A run with a larger bound, and its result written in another way.
  finish :
      (k l : ℕ) (vm : Vm) (b c : Bool)
      → Ends code packet k vm b
      → k ≤ l
      → b ≡ c
      → Ends code packet l vm c
  finish k l vm b c h le e =
      subst (λ x. Ends code packet l vm x) e (Ends-mono code packet k l vm b h le)

  move :
      (k i j acc : ℕ) (cmp b : Bool)
      → i ≡ j
      → Ends code packet k (at_ip i acc cmp) b
      → Ends code packet k (at_ip j acc cmp) b
  move k i j acc cmp b e h = subst (λ x. Ends code packet k (at_ip x acc cmp) b) e h

  inside_at :
      (i j : ℕ) (ins : Instruction)
      → get_elem? code i ≡ some ins
      → i ≡ j
      → leb (length code) j ≡ false
  inside_at i j ins h e = subst (λ x. leb (length code) x ≡ false) e (inside code packet i ins h)

  module _ (next fail k : ℕ) (b : Bool) (next_in : leb (length code) next ≡ false)
      (fail_in : leb (length code) fail ≡ false) (at_next : Lands code packet k next b)
      (at_fail : Lands code packet k fail false) where
    in_lem :
        (idx v : ℕ) (vs : List ℕ)
        → At code idx (emit_in next fail idx (v ∷ vs))
        → idx + (2 + 3 * length vs) ≡ next
        → (acc : ℕ) (cmp : Bool)
        → Ends code packet
            (k + (2 + 3 * length vs))
            (at_ip idx acc cmp)
            (any_equal acc (v ∷ vs) && b)
    unfolding emit_in any_equal execute_opcode
    in_lem idx v [] (e₁, (e₂, u)) l acc cmp =
        finish (2 + k) (k + 2) (at_ip idx acc cmp) (if acc == v then b else false)
          (((acc == v) || false) && b)
          (compare_and_jump k idx fail acc cmp (acc == v) b false (compare_eq v) e₁ e₂ refl fail_in
            (move k next (suc (suc idx)) acc true b (omega (arith, l)) (at_next acc true))
            (at_fail acc false))
          (omega arith) (or_false (acc == v) b)
    in_lem idx v (w ∷ vs) (e₁, (e₂, (e₃, (e₄, h)))) l acc cmp =
        finish (2 + (k + (2 + 3 * length vs))) (k + (2 + 3 * suc (length vs))) (at_ip idx acc cmp)
          (if acc == v then b else any_equal acc (w ∷ vs) && b)
          (((acc == v) || any_equal acc (w ∷ vs)) && b)
          (compare_and_jump (k + (2 + 3 * length vs)) idx (idx + 1 + 2) acc cmp (acc == v) b
            (any_equal acc (w ∷ vs) && b) (compare_eq v) e₁ e₂ refl
            (inside_at (suc (suc (suc idx))) (idx + 1 + 2) (compare_eq w) e₄ (omega arith))
            (Ends-mono code packet (suc k) (k + (2 + 3 * length vs))
              (at_ip (suc (suc idx)) acc true) b
              (take_jump k (suc (suc idx)) next acc true b e₃ next_in (at_next acc true))
              (omega arith))
            (move (k + (2 + 3 * length vs)) (idx + 3) (idx + 1 + 2) acc false
              (any_equal acc (w ∷ vs) && b) (omega arith)
              (in_lem (idx + 3) w vs
                (subst (λ i. At code i (emit_in next fail (idx + 3) (w ∷ vs))) (omega arith)
                  (e₄, h))
                (omega (arith, l)) acc false)))
          (omega arith) (or_more (acc == v) (any_equal acc (w ∷ vs)) b)

    not_in_lem :
        (idx v : ℕ) (vs : List ℕ)
        → At code idx (emit_not_in next fail idx (v ∷ vs))
        → (acc : ℕ) (cmp : Bool)
        → Ends code packet
            (k + 3 * suc (length vs))
            (at_ip idx acc cmp)
            (not (any_equal acc (v ∷ vs)) && b)
    unfolding emit_not_in any_equal execute_opcode
    not_in_lem idx v [] (e₁, (e₂, (e₃, u))) acc cmp =
        finish (2 + suc k) (k + 3) (at_ip idx acc cmp) (if acc == v then false else b)
          (not ((acc == v) || false) && b)
          (compare_and_jump (suc k) idx next acc cmp (acc == v) false b (compare_eq v) e₁ e₂ refl
            next_in (take_jump k (suc (suc idx)) fail acc true false e₃ fail_in (at_fail acc true))
            (Ends-mono code packet k (suc k) (at_ip next acc false) b (at_next acc false)
              (omega arith)))
          (omega arith) (nor_false (acc == v) b)
    not_in_lem idx v (w ∷ vs) (e₁, (e₂, (e₃, (e₄, h)))) acc cmp =
        finish (2 + (k + 3 * suc (length vs))) (k + 3 * suc (suc (length vs))) (at_ip idx acc cmp)
          (if acc == v then false else not (any_equal acc (w ∷ vs)) && b)
          (not ((acc == v) || any_equal acc (w ∷ vs)) && b)
          (compare_and_jump (k + 3 * suc (length vs)) idx (idx + 1 + 2) acc cmp (acc == v) false
            (not (any_equal acc (w ∷ vs)) && b) (compare_eq v) e₁ e₂ refl
            (inside_at (suc (suc (suc idx))) (idx + 1 + 2) (compare_eq w) e₄ (omega arith))
            (Ends-mono code packet (suc k) (k + 3 * suc (length vs))
              (at_ip (suc (suc idx)) acc true) false
              (take_jump k (suc (suc idx)) fail acc true false e₃ fail_in (at_fail acc true))
              (omega arith))
            (move (k + 3 * suc (length vs)) (idx + 3) (idx + 1 + 2) acc false
              (not (any_equal acc (w ∷ vs)) && b) (omega arith)
              (not_in_lem (idx + 3) w vs
                (subst (λ i. At code i (emit_not_in next fail (idx + 3) (w ∷ vs))) (omega arith)
                  (e₄, h))
                acc false)))
          (omega arith) (nor_more (acc == v) (any_equal acc (w ∷ vs)) b)

    -- One comparison, and the jump to the end where it fails.
    compare_lem :
        (idx acc : ℕ) (cmp r : Bool) (ins : Instruction)
        → At code idx (ins ∷ jump_if_false fail ∷ [])
        → suc (suc idx) ≡ next
        → execute_opcode ins.opcode (length code) packet ins (at_ip idx acc cmp)
          ≡ ok (continue (at_ip (suc idx) acc r))
        → Ends code packet (k + 2) (at_ip idx acc cmp) (r && b)
    compare_lem idx acc cmp r ins (e₁, (e₂, u)) l x =
        finish (2 + k) (k + 2) (at_ip idx acc cmp) (if r then b else false) (r && b)
          (compare_and_jump k idx fail acc cmp r b false ins e₁ e₂ x fail_in
            (move k next (suc (suc idx)) acc true b (sym l) (at_next acc true)) (at_fail acc false))
          (omega arith) (and_if r b)

    in_values :
        (vs : List ℕ) (idx size : ℕ)
        → cond_size cond_in vs ≡ some size
        → At code idx (emit_in next fail idx vs)
        → idx + size ≡ suc next
        → (acc : ℕ) (cmp : Bool)
        → Ends code packet (k + (size - 1)) (at_ip idx acc cmp) (any_equal acc vs && b)
    unfolding cond_size
    in_values [] idx size e h l acc cmp = ground (arith, e)
    in_values (v ∷ vs) idx size e h l acc cmp =
        finish (k + (2 + 3 * length vs)) (k + (size - 1)) (at_ip idx acc cmp)
          (any_equal acc (v ∷ vs) && b) (any_equal acc (v ∷ vs) && b)
          (in_lem idx v vs h (omega (arith, l, of_some e)) acc cmp) (omega (arith, of_some e)) refl

    not_in_values :
        (vs : List ℕ) (idx size : ℕ)
        → cond_size cond_not_in vs ≡ some size
        → At code idx (emit_not_in next fail idx vs)
        → (acc : ℕ) (cmp : Bool)
        → Ends code packet (k + (size - 1)) (at_ip idx acc cmp) (not (any_equal acc vs) && b)
    unfolding cond_size
    not_in_values [] idx size e h acc cmp = ground (arith, e)
    not_in_values (v ∷ vs) idx size e h acc cmp =
        finish (k + 3 * suc (length vs)) (k + (size - 1)) (at_ip idx acc cmp)
          (not (any_equal acc (v ∷ vs)) && b) (not (any_equal acc (v ∷ vs)) && b)
          (not_in_lem idx v vs h acc cmp) (omega (arith, of_some e)) refl

    -- The code of a condition from after its load on, `size` instructions with it.
    abbrev pub TestsLem : ConditionOp → Type 0
    TestsLem op =
        (idx size : ℕ) (c : FilterCondition)
        → cond_size op c.values ≡ some size
        → At code idx (emit_tests op next fail idx c)
        → idx + size ≡ suc next
        → (acc : ℕ) (cmp : Bool)
        → Ends code packet (k + (size - 1)) (at_ip idx acc cmp) (condition_test op c acc && b)

    pub tests_lem : (op : ConditionOp) → TestsLem op
    unfolding cond_size emit_tests compare_of get_cmp_opcode execute_opcode
    tests_lem cond_eq idx size c e h l acc cmp =
        finish (k + 2) (k + (size - 1)) (at_ip idx acc cmp) (condition_test cond_eq c acc && b)
          (condition_test cond_eq c acc && b)
          (compare_lem idx acc cmp (condition_test cond_eq c acc) (compare_of cond_eq c) h
            (omega (arith, l, of_some e)) refl)
          (omega (arith, of_some e)) refl
    tests_lem cond_ne idx size c e h l acc cmp =
        finish (k + 2) (k + (size - 1)) (at_ip idx acc cmp) (condition_test cond_ne c acc && b)
          (condition_test cond_ne c acc && b)
          (compare_lem idx acc cmp (condition_test cond_ne c acc) (compare_of cond_ne c) h
            (omega (arith, l, of_some e)) refl)
          (omega (arith, of_some e)) refl
    tests_lem cond_gt idx size c e h l acc cmp =
        finish (k + 2) (k + (size - 1)) (at_ip idx acc cmp) (condition_test cond_gt c acc && b)
          (condition_test cond_gt c acc && b)
          (compare_lem idx acc cmp (condition_test cond_gt c acc) (compare_of cond_gt c) h
            (omega (arith, l, of_some e)) refl)
          (omega (arith, of_some e)) refl
    tests_lem cond_ge idx size c e h l acc cmp =
        finish (k + 2) (k + (size - 1)) (at_ip idx acc cmp) (condition_test cond_ge c acc && b)
          (condition_test cond_ge c acc && b)
          (compare_lem idx acc cmp (condition_test cond_ge c acc) (compare_of cond_ge c) h
            (omega (arith, l, of_some e)) refl)
          (omega (arith, of_some e)) refl
    tests_lem cond_lt idx size c e h l acc cmp =
        finish (k + 2) (k + (size - 1)) (at_ip idx acc cmp) (condition_test cond_lt c acc && b)
          (condition_test cond_lt c acc && b)
          (compare_lem idx acc cmp (condition_test cond_lt c acc) (compare_of cond_lt c) h
            (omega (arith, l, of_some e)) refl)
          (omega (arith, of_some e)) refl
    tests_lem cond_le idx size c e h l acc cmp =
        finish (k + 2) (k + (size - 1)) (at_ip idx acc cmp) (condition_test cond_le c acc && b)
          (condition_test cond_le c acc && b)
          (compare_lem idx acc cmp (condition_test cond_le c acc) (compare_of cond_le c) h
            (omega (arith, l, of_some e)) refl)
          (omega (arith, of_some e)) refl
    tests_lem cond_mask idx size c e h l acc cmp =
        finish (k + 2) (k + (size - 1)) (at_ip idx acc cmp) (condition_test cond_mask c acc && b)
          (condition_test cond_mask c acc && b)
          (compare_lem idx acc cmp (condition_test cond_mask c acc) (compare_of cond_mask c) h
            (omega (arith, l, of_some e)) refl)
          (omega (arith, of_some e)) refl
    tests_lem cond_in idx size c e h l acc cmp = in_values c.values idx size e h l acc cmp
    tests_lem cond_not_in idx size c e h l acc cmp = not_in_values c.values idx size e h acc cmp
