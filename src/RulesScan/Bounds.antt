-- ===== src/RulesScan/Bounds.antt =====
-- `coraza_rules_scan` of src/mod_coraza.c never collects more than its buffer holds.
use coraza_apache.RulesScan.{
  newline, see_blank, drop_backslash, without_backslash, collect_byte, Scan, scan_byte, see_byte,
  scan_eol, end_line, toggle_backticks, scan, open_line, Verdict, scan_done, finish, word_size,
  next_line, is_blank, scan_word,
}
use coraza_apache.Base.{
  Bytes, length, ℕ, ◌≤◌, ◌==◌, not, none, ltb, ◌||◌, ◌&&◌, arith, ◌<◌, ◌∷◌, some, ◌≡◌, true, ◌^◌,
  [], ◌++◌, length-append, if◌then◌else◌, refl, if-holds,
}

-- InBounds `word[32]`, with a line number that fits.
pub record InBounds (s : Scan) : Type 0 where
  pub word_fits : length s.word ≤ word_size
  pub line_fits : s.line < 2 ^ 32

without_backslash_shorter : (w : Bytes) → length (without_backslash w) ≤ length w
unfolding without_backslash
without_backslash_shorter [] = omega arith
without_backslash_shorter (c ∷ []) = ground arith
without_backslash_shorter (c ∷ d ∷ cs) = omega (arith, without_backslash_shorter (d ∷ cs))

-- States that differ in nothing that is bounded.
same-InBounds : {s t : Scan} → t.word ≡ s.word → t.line ≡ s.line → InBounds s → InBounds t
same-InBounds w l h = record { word_fits = rw w h.word_fits; line_fits = rw l h.line_fits }

empty-InBounds : {s t : Scan} → t.word ≡ [] → t.line ≡ s.line → InBounds s → InBounds t
empty-InBounds w l h = record { word_fits = rw w (omega arith); line_fits = rw l h.line_fits }

drop_backslash-InBounds : (s : Scan) → InBounds s → InBounds (drop_backslash s)
unfolding drop_backslash
drop_backslash-InBounds s h =
    if-holds InBounds s.word_done (λ _. h)
      (λ _. record {
        word_fits = omega (arith, h.word_fits, without_backslash_shorter s.word);
        line_fits = h.line_fits;
      })

toggle_backticks-InBounds : (s : Scan) → InBounds s → InBounds (toggle_backticks s)
unfolding toggle_backticks
toggle_backticks-InBounds s h =
    if-holds InBounds (not s.in_backticks && s.last == 96) (λ _. same-InBounds refl refl h)
      (λ _.
        if-holds InBounds (s.in_backticks && s.first == 96) (λ _. same-InBounds refl refl h)
          (λ _. h))

abbrev Ends : Verdict × Scan → Type 0
Ends x = InBounds x.1

end_line-InBounds : (s : Scan) → InBounds s → InBounds (end_line s).1
unfolding end_line
end_line-InBounds s h =
    if-holds Ends s.in_backticks (λ _. same-InBounds refl refl h)
      (λ _.
        if-holds Ends (s.last == 92) (λ _. same-InBounds refl refl (drop_backslash-InBounds s h))
          (λ _. empty-InBounds refl refl h))

scan_eol-InBounds : (s : Scan) → InBounds s → InBounds (scan_eol s).1
unfolding scan_eol
scan_eol-InBounds s h =
    if-holds Ends (s.first == 0 || s.first == 35) (λ _. same-InBounds refl refl h)
      (λ _. end_line-InBounds (toggle_backticks s) (toggle_backticks-InBounds s h))

newline-InBounds : (s : Scan) → InBounds s → InBounds (newline s).1
unfolding newline
newline-InBounds s h = by_verdict (scan_eol s) (scan_eol-InBounds s h)
  where
    by_verdict :
        (x : Verdict × Scan)
        → InBounds x.1
        → InBounds
            (elim x.0 as (λ v. Verdict × Scan) [
              | none ↦ (none, next_line x.1)
              | some d ↦ (some d, x.1)
            ]).1
    by_verdict (none, s') k = record { word_fits = k.word_fits; line_fits = omega arith }
    by_verdict (some d, s') k = k

see_blank-InBounds : (s : Scan) → InBounds s → InBounds (see_blank s)
unfolding see_blank
see_blank-InBounds s h =
    if-holds InBounds (not (s.first == 0) && not (s.first == 35) && ltb 0 (length s.word))
      (λ _. same-InBounds refl refl h) (λ _. h)

open_line-InBounds : (c : ℕ) (s : Scan) → InBounds s → InBounds (open_line c s)
unfolding open_line
open_line-InBounds c s h =
    if-holds InBounds (not (s.first == 0)) (λ _. h)
      (λ _.
        if-holds InBounds (not (c == 35) && not s.in_record) (λ _. same-InBounds refl refl h)
          (λ _. same-InBounds refl refl h))

one_longer :
    (w : Bytes) (c : ℕ) → ltb (length w) word_size ≡ true → length (w ++ c ∷ []) ≤ word_size
one_longer w c room = ground (arith, length-append w (c ∷ []))

collect_byte-InBounds : (c : ℕ) (s : Scan) → InBounds s → InBounds (collect_byte c s)
unfolding collect_byte
collect_byte-InBounds c s h =
    if-holds InBounds (s.first == 35 || s.word_done) (λ _. h)
      (λ _.
        if-holds InBounds (ltb (length s.word) word_size)
          (λ room. record { word_fits = one_longer s.word c room; line_fits = h.line_fits })
          (λ _. empty-InBounds refl refl h))

see_byte-InBounds : (c : ℕ) (s : Scan) → InBounds s → InBounds (see_byte c s)
unfolding see_byte
see_byte-InBounds c s h =
    let o = open_line-InBounds c s h in
    collect_byte-InBounds c (record (open_line c s) { last = c })
      (record { word_fits = o.word_fits; line_fits = o.line_fits })

scan_byte-InBounds : (c : ℕ) (s : Scan) → InBounds s → InBounds (scan_byte c s).1
unfolding scan_byte
scan_byte-InBounds c s h =
    if-holds Ends (c == 10) (λ _. newline-InBounds s h)
      (λ _. if-holds Ends (is_blank c) (λ _. see_blank-InBounds s h) (λ _. see_byte-InBounds c s h))

scan_bytes-InBounds : (text : Bytes) (s : Scan) → InBounds s → InBounds (scan text s).1
unfolding scan
scan_bytes-InBounds [] s h = h
scan_bytes-InBounds (c ∷ cs) s h =
    by_verdict (scan_byte c s) (scan_byte-InBounds c s h) (scan_bytes-InBounds cs)
  where
    by_verdict :
        (x : Verdict × Scan)
        → InBounds x.1
        → ((t : Scan) → InBounds t → InBounds (scan cs t).1)
        → InBounds
            (elim x.0 as (λ v. Verdict × Scan) [ none ↦ scan cs x.1 | some d ↦ (some d, x.1) ]).1
    by_verdict (none, s') k rest = rest s' k
    by_verdict (some d, s') k rest = k

scan_done-InBounds : (s : Scan) → InBounds s → InBounds (scan_done s).1
unfolding scan_done
scan_done-InBounds s h = by_verdict (scan_eol s) (scan_eol-InBounds s h)
  where
    by_verdict :
        (x : Verdict × Scan)
        → InBounds x.1
        → InBounds
            (elim x.0 as (λ v. Verdict × Scan) [
              | some d ↦ (some d, x.1)
              | none ↦ ((if x.1.in_backticks then scan_word x.1 else none), x.1)
            ]).1
    by_verdict (none, s') k = k
    by_verdict (some d, s') k = k

finish-InBounds : (x : Verdict × Scan) → InBounds x.1 → InBounds (finish x).1
finish-InBounds (none, s) h = scan_done-InBounds s h
finish-InBounds (some d, s) h = h

-- From a state whose collected word fits its buffer of 32 bytes, and whose line counter its 32 bits,
-- the scan of any bytes, and the end of the input behind it, lead to such a state again.
pub scan-InBounds :
    (text : Bytes) (s : Scan)
    → InBounds s
    → InBounds (scan text s).1 × InBounds (finish (scan text s)).1
scan-InBounds text s h =
    let k = scan_bytes-InBounds text s h in (k, finish-InBounds (scan text s) k)
