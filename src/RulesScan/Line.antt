-- ===== src/RulesScan/Line.antt =====
-- Which lines `coraza_check_rules_text` of src/mod_coraza.c refuses: those that begin with an
-- unsupported directive.
use coraza_apache.RulesScan.{
  scan, Scan, word_size, scan_init, scan_done, Refusal, scan_eol, toggle_backticks, end_line,
  scan_word, find_directive, refusal, lower, Verdict, close_record, clear_line, check_rules_text,
  finish, is_blank,
}
use coraza_apache.Base.{
  refl, ◌≡◌, Bytes, ℕ, true, Bool, ◌∷◌, ◌==◌, length, ◌≡◌, if◌then◌else◌, none, ◌≤◌, false,
  Bool-cases, [], inl, ◌++◌, inr, arith, ◌∙◌, Option, ◌&&◌, some, codes, bytes_eq, ap, ◌↔◌, sym,
  ◌⊎◌, append-nil,
}
use coraza_apache.RulesScan.Chunks.{scan-append, then_scan}
use coraza_apache.RulesScan.Words.{
  Opens, Wordy, reading, OneLine, last_byte, scan_step, first_byte, scan_word_bytes, blank_byte,
  scan_later_bytes,
}
use coraza_apache.RulesScan.Letters.{SameWord, lower-SameWord, SameWord-length}

abbrev pub is_refused : Option Refusal → Bool
is_refused none = false
is_refused (some r) = true

-- The word is, but for case, the unsupported directive.
abbrev pub is_unsupported : Bytes → Bool
is_unsupported w = length w == 14 && bytes_eq (lower w) (lower (codes "SecRemoteRules"))

abbrev is_some : Verdict → Bool
is_some none = false
is_some (some d) = true

scan_word_found : (s : Scan) → is_some (scan_word s) ≡ is_unsupported s.word
unfolding scan_word find_directive
scan_word_found s = elim (Bool-cases (is_unsupported s.word)) [
  | inl found ↦ simp found refl
  | inr missed ↦ simp missed refl
]

eol_plain :
    (f l : ℕ) (p : Bytes) (d : Bool)
    → Opens f
    → l == 92 ≡ false
    → l == 96 ≡ false
    → scan_eol (reading f l p d)
      ≡ (scan_word (reading f l p d), close_record (clear_line (reading f l p d)))
unfolding scan_eol toggle_backticks end_line
eol_plain f l p d o ended plain = simp (o.not_null, o.not_comment, plain, ended) refl

eol_opening :
    (f l : ℕ) (p : Bytes) (d : Bool)
    → Opens f
    → l == 96 ≡ true
    → scan_eol (reading f l p d)
      ≡ (none, record (clear_line (reading f l p d)) { in_backticks = true })
unfolding scan_eol toggle_backticks end_line
eol_opening f l p d o opening = simp (o.not_null, o.not_comment, opening) refl

scan_done_of :
    (s t : Scan) (v : Verdict)
    → scan_eol s ≡ (v, t)
    → scan_done s ≡ elim v as (λ _. Verdict × Scan) [
      | some d ↦ (some d, t)
      | none ↦ ((if t.in_backticks then scan_word t else none), t)
    ]
unfolding scan_done
scan_done_of s t v e =
    ap
      (λ (x : Verdict × Scan). elim x.0 as (λ _. Verdict × Scan) [
        | some d ↦ (some d, x.1)
        | none ↦ ((if x.1.in_backticks then scan_word x.1 else none), x.1)
      ])
      e

refused_word : (v : Verdict) (t : Scan) → is_refused (refusal (v, t)) ≡ is_some v
refused_word none t = refl
refused_word (some d) t = refl

closed_word :
    (v : Verdict) (t : Scan)
    → t.in_backticks ≡ false
    → is_refused (
        refusal (elim v as (λ _. Verdict × Scan) [
          | some d ↦ (some d, t)
          | none ↦ ((if t.in_backticks then scan_word t else none), t)
        ]))
      ≡ is_some v
closed_word (some d) t e = refl
closed_word none t e = rw e refl

-- The end of the input behind a line.
done_line :
    (f l : ℕ) (p : Bytes) (d : Bool)
    → Opens f
    → l == 92 ≡ false
    → is_refused (refusal (scan_done (reading f l p d))) ≡ is_unsupported p
done_line f l p d o ended = elim (Bool-cases (l == 96)) [
  | inl opening ↦
      let t = record (clear_line (reading f l p d)) { in_backticks = true } in
      rw (scan_done_of _ t none (eol_opening f l p d o opening))
        (refused_word (scan_word t) t ∙ scan_word_found t)
  | inr plain ↦
      let s = reading f l p d in
      rw (scan_done_of s (close_record (clear_line s)) _ (eol_plain f l p d o ended plain))
        (closed_word (scan_word s) (close_record (clear_line s)) refl ∙ scan_word_found s)
]

-- A blank: a space, a tab, a carriage return, a vertical tab or a form feed.
abbrev pub IsBlank : ℕ → Type 0
IsBlank b = (b ≡ 32) ⊎ (b ≡ 9) ⊎ (b ≡ 13) ⊎ (b ≡ 11) ⊎ (b ≡ 12)

-- What stands behind the word: nothing, or a blank and the rest of the line.
abbrev pub EndsWord : Bytes → Type 0
EndsWord [] = Unit
EndsWord (b ∷ args) = IsBlank b × OneLine args

blank_tests : (b : ℕ) → IsBlank b → (b == 10 ≡ false) × (is_blank b ≡ true)
blank_tests b h = (ground arith, ground arith)

abbrev is_ended : Bytes → Bool
is_ended [] = false
is_ended (b ∷ args) = true

scan_line :
    (f : ℕ) (w tail : Bytes)
    → Opens f
    → Wordy (f ∷ w)
    → length (f ∷ w) ≤ word_size
    → EndsWord tail
    → scan ((f ∷ w) ++ tail) scan_init
      ≡ (none, reading f (last_byte (last_byte f w) tail) (f ∷ w) (is_ended tail))
scan_line f w [] o (nl, nb, words) fits line =
    ap (λ x. scan x scan_init) (append-nil (f ∷ w))
    ∙ scan_step f w scan_init (reading f f (f ∷ []) false) (first_byte f o nl nb)
    ∙ scan_word_bytes f f (f ∷ []) w o words (omega (arith, fits))
scan_line f w (b ∷ args) o (nl, nb, words) fits (blank, line) =
    let l = last_byte f w in
    let (no_newline, tested) = blank_tests b blank in
    scan_step f (w ++ b ∷ args) scan_init (reading f f (f ∷ []) false) (first_byte f o nl nb)
    ∙ scan-append w (b ∷ args) (reading f f (f ∷ []) false)
    ∙ ap (then_scan (b ∷ args)) (scan_word_bytes f f (f ∷ []) w o words (omega (arith, fits)))
    ∙ scan_step b args (reading f l (f ∷ w) false) (reading f l (f ∷ w) true)
        (blank_byte f l b (f ∷ w) o no_newline tested (ground arith))
    ∙ scan_later_bytes f l (f ∷ w) args o line
    ∙ rw tested refl

is_unsupported_iff : (w : Bytes) → (is_unsupported w ≡ true) ↔ SameWord w (codes "SecRemoteRules")
is_unsupported_iff w =
    let (sound, complete) = lower-SameWord w (codes "SecRemoteRules") in
    (
      λ h. sound (ground arith),
      λ same.
          let long : length w ≡ 14 = SameWord-length w (codes "SecRemoteRules") same in
          let equal = complete same in ground arith,
    )

line_verdict :
    (f : ℕ) (w tail : Bytes)
    → Opens f
    → Wordy (f ∷ w)
    → length (f ∷ w) ≤ word_size
    → EndsWord tail
    → last_byte (last_byte f w) tail == 92 ≡ false
    → is_refused (check_rules_text ((f ∷ w) ++ tail)) ≡ is_unsupported (f ∷ w)
unfolding check_rules_text
line_verdict f w tail o words fits line ended =
    ap (λ (x : Verdict × Scan). is_refused (refusal (finish x)))
      (scan_line f w tail o words fits line)
    ∙ done_line f (last_byte (last_byte f w) tail) (f ∷ w) (is_ended tail) o ended

-- A text of one line that begins with a word of at most 32 bytes, which is no comment, whose word is
-- followed by nothing or by a blank (a space, tab, carriage return, vertical tab or form feed), and
-- whose last byte that is not a blank is no backslash, is refused exactly when that word is
-- SecRemoteRules, in upper or lower case.
pub check_rules_text_iff :
    (f : ℕ) (w tail : Bytes)
    → Opens f
    → Wordy (f ∷ w)
    → length (f ∷ w) ≤ word_size
    → EndsWord tail
    → last_byte (last_byte f w) tail == 92 ≡ false
    → (is_refused (check_rules_text ((f ∷ w) ++ tail)) ≡ true)
      ↔ SameWord (f ∷ w) (codes "SecRemoteRules")
check_rules_text_iff f w tail o words fits line ended =
    let v = line_verdict f w tail o words fits line ended in
    let (sound, complete) = is_unsupported_iff (f ∷ w) in
    (λ h. sound (sym v ∙ h), λ e. v ∙ complete e)
