-- ===== src/Manager/Json.antt =====
-- `json_escape` of src/rxcapturemanagerthread.cpp, and what a JSON reader makes of its result.
use rxtracenetcap.Prelude.{
  ℕ, zero, suc, ◌+◌, ◌-◌, ◌*◌, ◌/◌, ◌%◌, ◌<◌, ◌≡◌, refl, ap, ◌∙◌, true, ◌&&◌, ◌||◌, Option, none,
  some, [], ◌∷◌, ◌++◌, ltb, leb, ◌==◌, if◌then◌else◌, Str, arith, tests,
}

abbrev pub hex_digit : ℕ → ℕ
hex_digit d = if ltb d 10 then 48 + d else 87 + d

-- The text for one byte; `%04x` of a byte below 32 starts with two zeros.
unfoldable pub escaped : ℕ → Str
escaped c =
    if c == b'\\'
    then b'\\' ∷ (b'\\' ∷ [])
    else if c == b'"'
    then b'\\' ∷ (b'"' ∷ [])
    else if c == b'\n'
    then b'\\' ∷ (b'n' ∷ [])
    else if c == b'\r'
    then b'\\' ∷ (b'r' ∷ [])
    else if c == b'\t'
    then b'\\' ∷ (b't' ∷ [])
    else if ltb c 32
    then b'\\' ∷ (b'u' ∷ (b'0' ∷ (b'0' ∷ (hex_digit (c / 16) ∷ (hex_digit (c % 16) ∷ [])))))
    else c ∷ []

unfoldable pub json_escape : Str → Str
json_escape [] = []
json_escape (c ∷ input) = escaped c ++ json_escape input

-- A reader of the text between the quotes of a JSON string, by the grammar of JSON. It stands after
-- a backslash, or has this many hexadecimal digits to read and this value so far.
pub data Mode : Type 0 where
  plain after_backslash : Mode
  hex : ℕ → ℕ → Mode

abbrev hex_value : ℕ → Option ℕ
hex_value c =
    if leb 48 c && leb c 57
    then some (c - 48)
    else if leb 97 c && leb c 102
    then some (c - 87)
    else if leb 65 c && leb c 70
    then some (c - 55)
    else none

abbrev simple_escape : ℕ → Option ℕ
simple_escape c =
    if c == b'\\' || c == b'"' || c == b'/'
    then some c
    else if c == b'n'
    then some 10
    else if c == b'r'
    then some 13
    else if c == b't'
    then some 9
    else if c == b'b'
    then some 8
    else if c == b'f'
    then some 12
    else none

abbrev cons : ℕ → Option Str → Option Str
cons c none = none
cons c (some s) = some (c ∷ s)

abbrev cons_if : Option ℕ → Option Str → Option Str
cons_if none s = none
cons_if (some c) s = cons c s

unfoldable pub unescape : Mode → Str → Option Str
unescape plain [] = some []
unescape after_backslash [] = none
unescape (hex k v) [] = none
unescape plain (c ∷ s) =
    let special = unescape after_backslash s in
    let rest = unescape plain s in
    if c == b'\\' then special else if c == b'"' || ltb c 32 then none else cons c rest
unescape after_backslash (c ∷ s) =
    let digits = unescape (hex 3 0) s in
    let rest = unescape plain s in if c == b'u' then digits else cons_if (simple_escape c) rest
unescape (hex zero v) (c ∷ s) =
    let rest = unescape plain s in
    elim (hex_value c) [ none ↦ none | some d ↦ cons (v * 16 + d) rest ]
unescape (hex (suc k) v) (c ∷ s) = elim (hex_value c) [
  | none ↦ none
  | some d ↦ unescape (hex k (v * 16 + d)) s
]

hex_value-hex_digit : (d : ℕ) → d < 16 → hex_value (hex_digit d) ≡ some d
hex_value-hex_digit d h = ground arith

escaped_control :
    (c : ℕ) (s : Str)
    → ltb c 32 ≡ true
    → unescape plain
        (b'\\' ∷ (b'u' ∷ (b'0' ∷ (b'0' ∷ (hex_digit (c / 16) ∷ (hex_digit (c % 16) ∷ s))))))
      ≡ cons c (unescape plain s)
unfolding unescape
escaped_control c s h =
    rw (hex_value-hex_digit (c / 16) (omega (tests, h)), hex_value-hex_digit (c % 16) (omega arith))
      (ap (λ n. cons n (unescape plain s)) (omega (tests, h)))

unescape-escaped : (c : ℕ) (s : Str) → unescape plain (escaped c ++ s) ≡ cons c (unescape plain s)
unfolding escaped unescape
unescape-escaped c s = ground (arith, escaped_control c s)

unescape-append :
    (c : ℕ) (s : Str)
    → unescape plain (json_escape (c ∷ s)) ≡ cons c (unescape plain (json_escape s))
unfolding json_escape
unescape-append c s = unescape-escaped c (json_escape s)

-- A JSON reader that reads the escaped text between quotes gets the text back: it meets no quote, no
-- control character and no unknown escape in it.
pub unescape-json_escape : (input : Str) → unescape plain (json_escape input) ≡ some input
unfolding json_escape unescape
unescape-json_escape [] = refl
unescape-json_escape (c ∷ input) =
    unescape-append c input ∙ ap (cons c) (unescape-json_escape input)
