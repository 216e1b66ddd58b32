-- ===== src/RulesScan/Letters.antt =====
-- Comparing words without regard to case, as strncasecmp does in src/mod_coraza.c, by an independent
-- description.
use coraza_apache.Base.{
  [], ◌∷◌, ◌≡◌, Bytes, length, bytes_eq, ℕ, true, if◌then◌else◌, ◌⊎◌, leb, ◌≤◌, ◌↔◌, ◌&&◌, ◌+◌,
  ◌==◌, arith, refl,
}
use coraza_apache.RulesScan.{lower}

-- Upper case and lower case.
abbrev pub SameLetter : ℕ → ℕ → Type 0
SameLetter c d =
    (c ≡ d) ⊎ ((65 ≤ c) × (c ≤ 90) × (d ≡ c + 32)) ⊎ ((65 ≤ d) × (d ≤ 90) × (c ≡ d + 32))

-- The same bytes, but for the case of letters of ASCII.
abbrev pub SameWord : Bytes → Bytes → Type 0
SameWord [] [] = Unit
SameWord (c ∷ cs) (d ∷ ds) = SameLetter c d × SameWord cs ds
SameWord _ _ = ⊥

lower_letter :
    (c d : ℕ)
    → ((if leb 65 c && leb c 90 then c + 32 else c) == (if leb 65 d && leb d 90 then d + 32 else d)
        ≡ true)
      ↔ SameLetter c d
lower_letter c d = (λ h. ground arith, λ h. ground arith)

pub lower-SameWord : (v w : Bytes) → (bytes_eq (lower v) (lower w) ≡ true) ↔ SameWord v w
unfolding lower bytes_eq
lower-SameWord [] [] = (λ h. tt, λ h. refl)
lower-SameWord [] (d ∷ ds) = (λ h. absurd (ground arith), λ h. absurd h)
lower-SameWord (c ∷ cs) [] = (λ h. absurd (ground arith), λ h. absurd h)
lower-SameWord (c ∷ cs) (d ∷ ds) =
    let (letter, back) = lower_letter c d in
    let (word, word_back) = lower-SameWord cs ds in
    (
      λ h. (letter (ground arith), word (ground arith)),
      λ h. let x = back h.0 in let y = word_back h.1 in ground arith,
    )

pub SameWord-length : (v w : Bytes) → SameWord v w → length v ≡ length w
SameWord-length [] [] h = refl
SameWord-length [] (d ∷ ds) h = elim h [ ]
SameWord-length (c ∷ cs) [] h = elim h [ ]
SameWord-length (c ∷ cs) (d ∷ ds) (here, later) = omega (arith, SameWord-length cs ds later)
