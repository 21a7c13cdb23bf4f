-- ===== src/PdefUsage/Settled.antt =====
-- What src/rxcapturemanagerthread.cpp makes of a PDEF file in the end, told from the messages alone.
use rxtracenetcap.Prelude.{
  ℤ, ◌≡◌, ◌≢◌, refl, sym, ap, subst, ◌∙◌, Bool, true, false, Option, none, some, List, [], ◌∷◌, ◌⊎◌,
  inl, inr, is_empty, if◌then◌else◌, Str, find, str_eq, int_beq_iff, arith,
}
use rxtracenetcap.Pdef.Types.{EndianType}
use rxtracenetcap.PdefUsage.{PdefUsageInfo, Files, edit_endian, tmp_path, Event, handle_all}
use rxtracenetcap.PdefUsage.Entry.{Entry, entry_of, steps}
use rxtracenetcap.PdefUsage.View.{handle_all-steps}
use rxtracenetcap.PdefUsage.Waiting.{AllSmooth, Waits, steps-Waits}
use rxtracenetcap.PdefUsage.Tracking.{first_detected, users, count, bit, Tracks, steps-Tracks}

-- Before a detection the file has its first content. After one it is edited for that byte order, or it
-- has its first content and a capture uses it.
abbrev pub Settled : Str → Option EndianType → (ℤ → Bool) → Option Str → Type 0
Settled content none uses c = c ≡ some content
Settled content (some d) uses c =
    (c ≡ edit_endian content d) ⊎ ((c ≡ some content) × ((id : ℤ) × (uses id ≡ true)))

-- An entry that lists a capture is about a capture that uses the file.
listed :
    (uses : ℤ → Bool) (ids : List ℤ)
    → is_empty ids ≡ false
    → ((j : ℤ) → count j ids ≡ bit (uses j))
    → (id : ℤ) × (uses id ≡ true)
listed uses [] h c = ground (arith, h)
listed uses (x ∷ xs) h c = (x, go (uses x) (c x))
  where
    go : (b : Bool) → count x (x ∷ xs) ≡ bit b → b ≡ true
    go true e = refl
    go false e = ground (arith, e, int_beq_iff x x)

settled :
    (content : Str) (o : Option EndianType) (uses : ℤ → Bool) (i : Option PdefUsageInfo)
    (c : Option Str)
    → Waits content i c
    → Tracks o uses i
    → Settled content o uses c
settled content o uses none c w (e, f) = subst (λ o. Settled content o uses c) (sym e) w
settled content none uses (some info) c w (f, n) = go (info.writeback_done) n.2 w
  where
    go :
        (b : Bool)
        → b ≡ false
        → (if b
            then c ≡ edit_endian content info.detected_endian
            else (c ≡ some content)
              × (info.writeback_needed ≡ true → is_empty info.active_capture_ids ≡ false))
        → c ≡ some content
    go true e w = ground (arith, e)
    go false e w = w.0
settled content (some d) uses (some info) c w (f, n) = go (info.writeback_done) w
  where
    go :
        (b : Bool)
        → (if b
            then c ≡ edit_endian content info.detected_endian
            else (c ≡ some content)
              × (info.writeback_needed ≡ true → is_empty info.active_capture_ids ≡ false))
        → Settled content (some d) uses c
    go true w = inl (w ∙ ap (edit_endian content) n.0)
    go false w = inr (w.0, listed uses info.active_capture_ids (w.1 n.1) f)

-- A PDEF file that a write-back can edit, and whose name is no temporary file's, and any messages from
-- the start of the thread on, with a filter thread, detections of a known byte order and no failing
-- write-back. As long as none of the messages reports a byte order for the file, it has its first
-- content. After one did, the file is its first content edited for the byte order of the first report;
-- or it has its first content, and a capture uses it: one that was handed over with the file, and whose
-- filtered file has not come since.
pub handle_all-Settled :
    (path content : Str) (es : List Event) (files : Files)
    → ((p : Str) → tmp_path p ≢ path)
    → ((d : EndianType) → edit_endian content d ≢ none)
    → AllSmooth es
    → find path files ≡ some content
    → Settled content
        (first_detected path es none)
        (users path es (λ id. false))
        (find path (handle_all es (record { pdef_usage_map = []; files = files })).files)
unfolding find
handle_all-Settled path content es files nt editable smooth e =
    let start = entry_of path (record { pdef_usage_map = []; files = files }) in
    subst
      (λ (n : Entry).
        Settled content (first_detected path es none) (users path es (λ id. false)) n.content)
      (sym (handle_all-steps path es (record { pdef_usage_map = []; files = files }) nt))
      (settled content (first_detected path es none) (users path es (λ id. false))
        (steps path es start).info (steps path es start).content
        (steps-Waits content editable path es start smooth e)
        (steps-Tracks path es none (λ id. false) start smooth (refl, λ j. refl)))
