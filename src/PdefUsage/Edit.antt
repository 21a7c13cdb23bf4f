-- ===== src/PdefUsage/Edit.antt =====
-- What the write-back of src/rxcapturemanagerthread.cpp changes in the text of a PDEF file.
use rxtracenetcap.Prelude.{
  ℕ, zero, suc, ◌+◌, ◌≤◌, ◌≡◌, refl, sym, ap, subst, ◌∙◌, Option, none, some, [], ◌∷◌, ◌++◌, take,
  drop, length, Str, ◌⊎◌, inl, inr, arith,
}
use rxtracenetcap.Prelude.Options.{some_injective}
use rxtracenetcap.Prelude.Text.{codes, find_text_from}
use rxtracenetcap.Prelude.Search.{
  drop-drop, append_assoc, take-drop, Marks, take-Marks, length-take_le, find_text_from-Marks,
}
use rxtracenetcap.Pdef.Types.{EndianType}
use rxtracenetcap.PdefUsage.{
  endian_text, within, replace_endian, replace_value, insert_pos, insert_line, insert_value,
  edit_endian,
}

-- Between an `=` and a `;` there is another value, which takes the place of at most 49 bytes.
abbrev pub IsReplaced : Str → Str → Str → Type 0
IsReplaced value content new_content =
    (before : Str) × (old : Str) × (after : Str) × (content
      ≡ before ++ b'=' ∷ (old ++ b';' ∷ after))
    × (new_content ≡ before ++ b'=' ∷ (codes " " ++ (value ++ b';' ∷ after)))
    × (length old ≤ 49)

-- There is another line, with the value.
abbrev pub IsInserted : Str → Str → Str → Type 0
IsInserted value content new_content =
    (before : Str) × (after : Str) × (content ≡ before ++ after)
    × (new_content ≡ before ++ (codes "    endian = " ++ (value ++ (codes ";\n" ++ after))))

-- The text from the one mark on.
from_mark :
    (content : Str) (i k : ℕ)
    → Marks b'=' content i
    → Marks b';' content (i + suc k)
    → drop i content
      ≡ b'=' ∷ (take k (drop (suc i) content) ++ b';' ∷ drop (suc (i + suc k)) content)
from_mark content i k m n =
    let t = drop (suc i) content in
    let e : drop k t ≡ b';' ∷ drop (suc (i + suc k)) content =
      drop-drop (suc i) k content
      ∙ ap (λ n. drop n content) {x = suc i + k} {y = i + suc k} (omega arith)
      ∙ n in
    m ∙ ap (λ (l : Str). b'=' ∷ l) (sym (take-drop k t) ∙ ap (λ (l : Str). take k t ++ l) e)

replace_endian-after :
    (content value : Str) (i j : ℕ)
    → Marks b'=' content i
    → Marks b';' content j
    → replace_endian content value i j
      ≡ take i content ++ b'=' ∷ (codes " " ++ (value ++ b';' ∷ drop (suc j) content))
unfolding replace_endian
replace_endian-after content value i j m n =
    let rest = codes " " ++ (value ++ drop j content) in
    let e : take (i + 1) content ≡ take i content ++ b'=' ∷ [] =
      ap (λ n. take n content) {x = i + 1} {y = suc i} (omega arith)
      ∙ take-Marks b'=' content i m in
    let a : take (i + 1) content ++ rest ≡ take i content ++ b'=' ∷ rest =
      ap (λ (l : Str). l ++ rest) e ∙ append_assoc (take i content) (b'=' ∷ []) rest in
    a ∙ ap (λ (l : Str). take i content ++ b'=' ∷ (codes " " ++ (value ++ l))) n

replace_endian-IsReplaced :
    (content value : Str) (i k : ℕ)
    → Marks b'=' content i
    → Marks b';' content (i + suc k)
    → k ≤ 49
    → IsReplaced value content (replace_endian content value i (i + suc k))
replace_endian-IsReplaced content value i k m n h = (
  take i content,
  take k (drop (suc i) content),
  drop (suc (i + suc k)) content,
  sym (take-drop i content) ∙ ap (λ (l : Str). take i content ++ l) (from_mark content i k m n),
  replace_endian-after content value i (i + suc k) m n,
  omega (arith, length-take_le k (drop (suc i) content), h),
)

-- A mark that is found within a limit.
within-some :
    (limit : ℕ) (o : Option ℕ) (j : ℕ) → within limit o ≡ some j → (o ≡ some j) × (j ≤ limit)
within-some limit none j h = grind (arith, h)
within-some limit (some p) j h = ground (arith, h)

between :
    (content value : Str) (i j k : ℕ)
    → Marks b'=' content i
    → j ≡ i + k
    → Marks b';' content j
    → j ≤ i + 50
    → IsReplaced value content (replace_endian content value i j)
between content value i j zero m e n h =
    let same : j ≡ i = omega (arith, e) in
    let clash : b';' ∷ drop (suc j) content ≡ b'=' ∷ drop (suc i) content =
      sym n ∙ ap (λ n. drop n content) same ∙ m in
    absurd (grind (arith, clash))
between content value i j (suc k) m e n h =
    subst (λ j. IsReplaced value content (replace_endian content value i j)) (sym e)
      (replace_endian-IsReplaced content value i k m (subst (Marks b';' content) e n)
        (omega (arith, e, h)))

replace_value-IsReplaced :
    (content value new_content : Str) (o : Option ℕ)
    → ((eq_pos : ℕ) → o ≡ some eq_pos → Marks b'=' content eq_pos)
    → replace_value content value o ≡ some new_content
    → IsReplaced value content new_content
unfolding replace_value
replace_value-IsReplaced content value new_content none m h = grind (arith, h)
replace_value-IsReplaced content value new_content (some eq_pos) m h =
    go (within (eq_pos + 50) (find_text_from (codes ";") content eq_pos)) refl h
  where
    go :
        (w : Option ℕ)
        → within (eq_pos + 50) (find_text_from (codes ";") content eq_pos) ≡ w
        → elim w [
          | none ↦ none
          | some semi_pos ↦ some (replace_endian content value eq_pos semi_pos)
        ]
          ≡ some new_content
        → IsReplaced value content new_content
    go none e f = grind (arith, f)
    go (some semi_pos) e f =
        let (g, bound) =
          within-some (eq_pos + 50) (find_text_from (codes ";") content eq_pos) semi_pos e in
        let (k, d, n) = find_text_from-Marks b';' content eq_pos semi_pos g in
        subst (IsReplaced value content) (some_injective f)
          (between content value eq_pos semi_pos k (m eq_pos refl) d n bound)

insert_value-IsInserted :
    (content value new_content : Str) (o : Option ℕ)
    → insert_value content value o ≡ some new_content
    → IsInserted value content new_content
unfolding insert_value insert_line
insert_value-IsInserted content value new_content none h = grind (arith, h)
insert_value-IsInserted content value new_content (some protocol_pos) h =
    go (find_text_from (codes "{") content protocol_pos) h
  where
    go :
        (w : Option ℕ)
        → elim w [
          | none ↦ none
          | some brace_open ↦ some (insert_line content value (insert_pos content brace_open))
        ]
          ≡ some new_content
        → IsInserted value content new_content
    go none f = grind (arith, f)
    go (some brace_open) f = (
      take (insert_pos content brace_open) content,
      drop (insert_pos content brace_open) content,
      sym (take-drop (insert_pos content brace_open) content),
      sym (some_injective f),
    )

-- Where the function finds what to write, the text of the file stays as it is except for one place:
-- either the at most 49 bytes between an `=` and a `;` are replaced by a space and the name of the
-- byte order, or a line that sets it is inserted.
pub edit_endian-IsReplaced :
    (content new_content : Str) (d : EndianType)
    → edit_endian content d ≡ some new_content
    → IsReplaced (endian_text d) content new_content
      ⊎ IsInserted (endian_text d) content new_content
unfolding edit_endian
edit_endian-IsReplaced content new_content d h = go (find_text_from (codes "endian") content 0) h
  where
    go :
        (o : Option ℕ)
        → elim o [
          | some endian_pos ↦
              replace_value content
                (endian_text d)
                (within (endian_pos + 20) (find_text_from (codes "=") content endian_pos))
          | none ↦
              insert_value content (endian_text d) (find_text_from (codes "@protocol") content 0)
        ]
          ≡ some new_content
        → IsReplaced (endian_text d) content new_content
          ⊎ IsInserted (endian_text d) content new_content
    go none e = inr (
        insert_value-IsInserted content (endian_text d) new_content
          (find_text_from (codes "@protocol") content 0) e)
    go (some endian_pos) e = inl (
        replace_value-IsReplaced content (endian_text d) new_content
          (within (endian_pos + 20) (find_text_from (codes "=") content endian_pos))
          (λ j w.
            (let (g, bound) =
                within-some (endian_pos + 20) (find_text_from (codes "=") content endian_pos) j w in
              let (k, q, m) = find_text_from-Marks b'=' content endian_pos j g in m))
          e)
