-- ===== src/Pdef/Runs.antt =====
-- Runs of the bytecode machine of src/runtime/executor.c over stretches of a program.
use rxtracenetcap.Prelude.{
  ℕ, zero, suc, ◌+◌, ◌≤◌, ◌≡◌, refl, subst, Bool, false, some, List, [], ◌∷◌, ◌++◌, length, leb,
  get_elem?, get_elem?-bound, ok, arith,
}
use rxtracenetcap.Pdef.Types.{Instruction}
use rxtracenetcap.Pdef.Executor.{Vm, halt, continue, execute_opcode, execute_loop}

-- These instructions stand in the program from `idx` on.
abbrev pub At : List Instruction → ℕ → List Instruction → Type 0
At code idx [] = Unit {0}
At code idx (ins ∷ rest) = (get_elem? code idx ≡ some ins) × At code (suc idx) rest

pub At-append_left :
    (code : List Instruction) (idx : ℕ) (xs ys : List Instruction)
    → At code idx (xs ++ ys)
    → At code idx xs
At-append_left code idx [] ys h = tt
At-append_left code idx (x ∷ xs) ys (e, h) = (e, At-append_left code (suc idx) xs ys h)

pub At-append_right :
    (code : List Instruction) (idx : ℕ) (xs ys : List Instruction) (j : ℕ)
    → j ≡ idx + length xs
    → At code idx (xs ++ ys)
    → At code j ys
At-append_right code idx [] ys j e h = subst (λ i. At code i ys) (omega (arith, e)) h
At-append_right code idx (x ∷ xs) ys j e (k, h) =
    At-append_right code (suc idx) xs ys j (omega (arith, e)) h

At-shift :
    (ins : Instruction) (code : List Instruction) (idx : ℕ) (xs : List Instruction)
    → At code idx xs
    → At (ins ∷ code) (suc idx) xs
At-shift ins code idx [] h = tt
At-shift ins code idx (x ∷ xs) (e, h) = (e, At-shift ins code (suc idx) xs h)

pub At-whole : (code : List Instruction) → At code 0 code
At-whole [] = tt
At-whole (ins ∷ code) = (refl, At-shift ins code 0 code (At-whole code))

module _ (code : List Instruction) (packet : List ℕ) where
  -- From here the program returns `b` within `k` rounds.
  abbrev pub Ends : ℕ → Vm → Bool → Type 0
  Ends k vm b = (fuel : ℕ) → k ≤ fuel → execute_loop fuel code packet vm ≡ ok b

  -- The same at this instruction, whatever the registers hold.
  abbrev pub Lands : ℕ → ℕ → Bool → Type 0
  Lands k t b = (acc : ℕ) (cmp : Bool) → Ends k (record { ip = t; acc = acc; cmp_result = cmp }) b

  pub Ends-continue :
      (k : ℕ) (vm vm' : Vm) (ins : Instruction) (b : Bool)
      → get_elem? code vm.ip ≡ some ins
      → execute_opcode ins.opcode (length code) packet ins vm ≡ ok (continue vm')
      → Ends k vm' b
      → Ends (suc k) vm b
  unfolding execute_loop
  Ends-continue k vm vm' ins b e x h zero l = absurd (omega (arith, l))
  Ends-continue k vm vm' ins b e x h (suc fuel) l = rw (e, x) (h fuel (omega (arith, l)))

  pub Ends-halt :
      (k : ℕ) (vm : Vm) (ins : Instruction) (b : Bool)
      → get_elem? code vm.ip ≡ some ins
      → execute_opcode ins.opcode (length code) packet ins vm ≡ ok (halt b)
      → Ends (suc k) vm b
  unfolding execute_loop
  Ends-halt k vm ins b e x zero l = absurd (omega (arith, l))
  Ends-halt k vm ins b e x (suc fuel) l = rw (e, x) refl

  pub Ends-mono : (k l : ℕ) (vm : Vm) (b : Bool) → Ends k vm b → k ≤ l → Ends l vm b
  Ends-mono k l vm b h le fuel m = h fuel (omega (arith, le, m))

  -- The test of a jump target that is inside the program.
  pub inside :
      (t : ℕ) (ins : Instruction) → get_elem? code t ≡ some ins → leb (length code) t ≡ false
  inside t ins e = ground (arith, get_elem?-bound code t ins e)
