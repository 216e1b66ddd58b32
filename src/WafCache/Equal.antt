-- ===== src/WafCache/Equal.antt =====
-- `rules_equal` of src/mod_coraza.c decides equality of rule lists.
use coraza_apache.Base.{
  ◌≡◌, refl, ap, true, false, [], ◌∷◌, List, ◌==◌, bytes_eq_iff, ◌↔◌, length, not, arith, bytes_eq,
  Bytes, if◌then◌else◌, ◌∙◌,
}
use coraza_apache.Config.{RuleType, RuleEntry, inline_rule, file_rule}
use coraza_apache.WafCache.{type_code, entries_equal, rules_equal}

type_code_injective : (a b : RuleType) → type_code a ≡ type_code b → a ≡ b
type_code_injective inline_rule inline_rule h = refl
type_code_injective inline_rule file_rule h = absurd (omega arith)
type_code_injective file_rule inline_rule h = absurd (omega arith)
type_code_injective file_rule file_rule h = refl

entry_same : (a b : RuleEntry) → a.rule_type ≡ b.rule_type → a.text ≡ b.text → a ≡ b
entry_same a b t v = cc

bytes_eq_refl : (b : Bytes) → bytes_eq b b ≡ true
bytes_eq_refl b = (bytes_eq_iff b b).1 refl

entries_equal_refl : (xs : List RuleEntry) → entries_equal xs xs ≡ true
unfolding entries_equal
entries_equal_refl [] = refl
entries_equal_refl (a ∷ xs) = ground (arith, bytes_eq_refl a.text, entries_equal_refl xs)

entries_equal_step :
    (a b : RuleEntry) (xs ys : List RuleEntry)
    → entries_equal (a ∷ xs) (b ∷ ys) ≡ true
    → (a.rule_type ≡ b.rule_type) × (a.text ≡ b.text) × (entries_equal xs ys ≡ true)
unfolding entries_equal
entries_equal_step a b xs ys h = (
  type_code_injective a.rule_type b.rule_type (ground arith),
  (bytes_eq_iff a.text b.text).0 (ground arith),
  ground arith,
)

entries_equal_sound :
    (xs ys : List RuleEntry) → length xs ≡ length ys → entries_equal xs ys ≡ true → xs ≡ ys
unfolding entries_equal
entries_equal_sound [] [] l h = refl
entries_equal_sound [] (b ∷ ys) l h = absurd (omega arith)
entries_equal_sound (a ∷ xs) [] l h = absurd (omega arith)
entries_equal_sound (a ∷ xs) (b ∷ ys) l h =
    let (t, v, rest) = entries_equal_step a b xs ys h in
    let same : a ≡ b = entry_same a b t v in
    ap (λ x. x ∷ xs) same ∙ ap (λ x. b ∷ x) (entries_equal_sound xs ys (omega arith) rest)

-- Two rule lists are found equal exactly when they are the same rules in the same order.
pub rules_equal_iff : (xs ys : List RuleEntry) → (rules_equal xs ys ≡ true) ↔ (xs ≡ ys)
unfolding rules_equal
rules_equal_iff xs ys = (sound, λ same. rw (← same) (ground (arith, entries_equal_refl xs)))
  where
    sound : (if not (length xs == length ys) then false else entries_equal xs ys) ≡ true → xs ≡ ys
    sound h = entries_equal_sound xs ys (ground arith) (ground arith)
