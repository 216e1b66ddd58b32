-- ===== src/RulesScan/Words.antt =====
-- How `coraza_rules_scan` of src/mod_coraza.c reads the first line of a text, byte by byte.
use coraza_apache.RulesScan.{
  scan_byte, scan, see_byte, see_blank, open_line, Scan, collect_byte, is_blank, word_size,
  scan_init, Verdict,
}
use coraza_apache.Base.{
  refl, ◌≡◌, Bytes, ℕ, true, Bool, ◌∷◌, ◌==◌, length, ltb, ◌≡◌, ◌+◌, if◌then◌else◌, none, ◌≤◌,
  false, Bool-cases, [], inl, ◌++◌, inr, append-nil, arith, length-append, ◌∙◌, append_assoc,
  if-holds, not, ◌&&◌, some, ap,
}

-- Bytes of a word: neither newlines nor blanks.
abbrev pub Wordy : Bytes → Type 0
Wordy [] = Unit
Wordy (c ∷ cs) = (c == 10 ≡ false) × (is_blank c ≡ false) × Wordy cs

abbrev pub OneLine : Bytes → Type 0
OneLine [] = Unit
OneLine (c ∷ cs) = (c == 10 ≡ false) × OneLine cs

-- The last byte that is not a blank, or `l`.
abbrev pub last_byte : ℕ → Bytes → ℕ
last_byte l [] = l
last_byte l (c ∷ cs) = last_byte (if is_blank c then l else c) cs

-- In the first line of a text, behind its first byte `f`.
abbrev pub reading : ℕ → ℕ → Bytes → Bool → Scan
reading f l p done = record {
  line = 1;
  rec_line = 1;
  in_record = true;
  in_backticks = false;
  word_done = done;
  first = f;
  last = l;
  word = p;
}

-- A first byte that opens a record.
pub record Opens (f : ℕ) : Type 0 where
  pub not_null : f == 0 ≡ false
  pub not_comment : f == 35 ≡ false

pub first_byte :
    (f : ℕ)
    → Opens f
    → f == 10 ≡ false
    → is_blank f ≡ false
    → scan_byte f scan_init ≡ (none, reading f f (f ∷ []) false)
unfolding scan_byte see_byte open_line collect_byte
first_byte f o nl nb = simp (nl, nb, o.not_comment) refl

word_byte :
    (f l c : ℕ) (p : Bytes)
    → Opens f
    → c == 10 ≡ false
    → is_blank c ≡ false
    → ltb (length p) word_size ≡ true
    → scan_byte c (reading f l p false) ≡ (none, reading f c (p ++ c ∷ []) false)
unfolding scan_byte see_byte open_line collect_byte
word_byte f l c p o nl nb room = simp (nl, nb, o.not_null, o.not_comment, room) refl

pub blank_byte :
    (f l b : ℕ) (p : Bytes)
    → Opens f
    → b == 10 ≡ false
    → is_blank b ≡ true
    → ltb 0 (length p) ≡ true
    → scan_byte b (reading f l p false) ≡ (none, reading f l p true)
unfolding scan_byte see_blank
blank_byte f l b p o nl blank some_word =
    simp (nl, blank, o.not_null, o.not_comment, some_word) refl

later_byte :
    (f l c : ℕ) (p : Bytes)
    → Opens f
    → c == 10 ≡ false
    → scan_byte c (reading f l p true) ≡ (none, reading f (if is_blank c then l else c) p true)
unfolding scan_byte see_blank see_byte open_line collect_byte
later_byte f l c p o nl = elim (Bool-cases (is_blank c)) [
  | inl blank ↦
      simp (nl, blank)
        (if-holds (λ (t : Scan). ◌≡◌ {A = Verdict × Scan} (none, t) (none, reading f l p true))
          (not (f == 0) && not (f == 35) && ltb 0 (length p)) (λ _. refl) (λ _. refl))
  | inr byte ↦ simp (nl, byte, o.not_null, o.not_comment) refl
]

pub scan_step :
    (c : ℕ) (cs : Bytes) (s s' : Scan) → scan_byte c s ≡ (none, s') → scan (c ∷ cs) s ≡ scan cs s'
unfolding scan
scan_step c cs s s' e =
    ap
      (λ (x : Verdict × Scan). elim x.0 as (λ _. Verdict × Scan) [
        | none ↦ scan cs x.1
        | some d ↦ (some d, x.1)
      ])
      e

pub scan_word_bytes :
    (f l : ℕ) (p w : Bytes)
    → Opens f
    → Wordy w
    → length p + length w ≤ word_size
    → scan w (reading f l p false) ≡ (none, reading f (last_byte l w) (p ++ w) false)
unfolding scan
scan_word_bytes f l p [] o words fits = rw (append-nil p) refl
scan_word_bytes f l p (c ∷ cs) o (nl, nb, later) fits =
    let step = word_byte f l c p o nl nb (ground arith) in
    let rest =
      scan_word_bytes f c (p ++ c ∷ []) cs o later (omega (arith, length-append p (c ∷ []))) in
    scan_step c cs (reading f l p false) (reading f c (p ++ c ∷ []) false) step
    ∙ rest
    ∙ (rw (nb, append_assoc p (c ∷ []) cs) refl)

pub scan_later_bytes :
    (f l : ℕ) (p rest : Bytes)
    → Opens f
    → OneLine rest
    → scan rest (reading f l p true) ≡ (none, reading f (last_byte l rest) p true)
unfolding scan
scan_later_bytes f l p [] o line = refl
scan_later_bytes f l p (c ∷ cs) o (nl, line) =
    scan_step c cs (reading f l p true) (reading f (if is_blank c then l else c) p true)
      (later_byte f l c p o nl)
    ∙ (scan_later_bytes f (if is_blank c then l else c) p cs o line)
