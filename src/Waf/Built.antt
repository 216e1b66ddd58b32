-- ===== src/Waf/Built.antt =====
-- What `coraza_build_waf` of src/mod_coraza.c did when it returns a WAF, and that it leaks no
-- configuration.
use coraza_apache.Base.{
  ◌≡◌, refl, ◌∙◌, ℕ, true, false, List, [], ◌∷◌, ◌+◌, Bool-cases, inl, inr, arith, ltb_ℤ, pos, ◌==◌,
  if◌then◌else◌, Bytes, ◌⊎◌, ◌&&◌, not, Bool,
}
use coraza_apache.Config.{RuleEntry, RuleType, inline_rule, file_rule}
use coraza_apache.Library.{Lib, LibHistory, new_waf_config, free_waf_config, new_waf}
use coraza_apache.Waf.{add_call, add_rules, finish_waf, build_with, build_waf}

-- The rules went to a configuration in order, each without an error; `h` and `h'` are the history
-- before and after.
pub data Added (lib : Lib) (config : ℕ) : List RuleEntry → LibHistory → LibHistory → Type 0 where
  none_left : {h : LibHistory} → Added lib config [] h h
  one_more :
      {r : RuleEntry} {rs : List RuleEntry} {h h' : LibHistory}
      → ltb_ℤ (lib.status h (add_call config r.rule_type r.text)) (pos 0) ≡ false
      → Added lib config rs (add_call config r.rule_type r.text ∷ h) h'
      → Added lib config (r ∷ rs) h h'

-- A WAF was made from exactly these rules, in a configuration made for it.
pub record BuiltFrom (lib : Lib) (waf : ℕ) (rules : List RuleEntry) : Type 0 where
  pub before : LibHistory
  pub ready : LibHistory
  pub added : Added lib (lib.handle before new_waf_config) rules (new_waf_config ∷ before) ready
  pub made : waf ≡ lib.handle ready (new_waf (lib.handle before new_waf_config))

-- Is the handle `c`, which is not null, the one that is counted?
abbrev one_at : ℕ → ℕ → ℕ
one_at k c = if c == k && not (c == 0) then 1 else 0

-- How often a configuration with the handle `k` was made, and how often `k` was freed as one.
abbrev pub opened : Lib → ℕ → LibHistory → ℕ
opened lib k [] = 0
opened lib k (new_waf_config ∷ h) = opened lib k h + one_at k (lib.handle h new_waf_config)
opened lib k (_ ∷ h) = opened lib k h

abbrev pub closed : ℕ → LibHistory → ℕ
closed k [] = 0
closed k (free_waf_config c ∷ h) = closed k h + (if c == k then 1 else 0)
closed k (_ ∷ h) = closed k h

-- Each handle of a configuration was freed as often as it was given out, and null never.
abbrev pub Freed : Lib → LibHistory → Type 0
Freed lib h = (k : ℕ) → opened lib k h ≡ closed k h

add_rules-Added :
    (lib : Lib) (config : ℕ) (rules : List RuleEntry) (h : LibHistory)
    → (add_rules lib config rules h).0 ≡ true
    → Added lib config rules h (add_rules lib config rules h).1
unfolding add_rules
add_rules-Added lib config [] h e = none_left
add_rules-Added lib config (r ∷ rs) h e = elim (Bool-cases (lib.strdup h r.text)) [
  | inr failed ↦ absurd (ground arith)
  | inl copied ↦
      elim (Bool-cases (ltb_ℤ (lib.status h (add_call config r.rule_type r.text)) (pos 0))) [
        | inl bad ↦ absurd (ground arith)
        | inr good ↦
            rw (copied, good)
              (one_more good (
                add_rules-Added lib config rs (add_call config r.rule_type r.text ∷ h)
                  (rw (copied, good) at e)))
      ]
]

add_call_counts :
    (lib : Lib) (k config : ℕ) (t : RuleType) (text : Bytes) (h : LibHistory)
    → (opened lib k (add_call config t text ∷ h) ≡ opened lib k h)
      × (closed k (add_call config t text ∷ h) ≡ closed k h)
unfolding add_call
add_call_counts lib k config inline_rule text h = (refl, refl)
add_call_counts lib k config file_rule text h = (refl, refl)

abbrev freed_at : ℕ → ℕ → ℕ
freed_at k config = if config == k then 1 else 0

add_rules_counts :
    (lib : Lib) (k config : ℕ) (rules : List RuleEntry) (h : LibHistory)
    → let (added, h') = add_rules lib config rules h in
      (opened lib k h' ≡ opened lib k h)
      × (closed k h' ≡ closed k h + (if added then 0 else freed_at k config))
unfolding add_rules
add_rules_counts lib k config [] h = (refl, omega arith)
add_rules_counts lib k config (r ∷ rs) h =
    let c = add_call config r.rule_type r.text in
    let (o, n) = add_call_counts lib k config r.rule_type r.text h in
    elim (Bool-cases (lib.strdup h r.text)) [
      | inr failed ↦ rw failed (refl, refl)
      | inl copied ↦ elim (Bool-cases (ltb_ℤ (lib.status h c) (pos 0))) [
        | inl bad ↦ rw (copied, bad) (o, omega (arith, n))
        | inr good ↦
            rw (copied, good)
              (let later = add_rules_counts lib k config rs (c ∷ h) in
                (later.0 ∙ o, omega (arith, n, later.1)))
      ]
    ]

pub finish_waf_counts :
    (lib : Lib) (k config : ℕ) (h : LibHistory)
    → let (waf, h') = finish_waf lib config h in
      (opened lib k h' ≡ opened lib k h) × (closed k h' ≡ closed k h + freed_at k config)
unfolding finish_waf
finish_waf_counts lib k config h = elim (Bool-cases (lib.has_error h (new_waf config))) [
  | inl reported ↦ rw reported (refl, refl)
  | inr silent ↦ rw silent (refl, refl)
]

-- A handle that is not null.
pub one_at_made : (k c : ℕ) → c == 0 ≡ false → one_at k c ≡ freed_at k c
one_at_made k c made = ground arith

pub one_at_null : (k c : ℕ) → c == 0 ≡ true → one_at k c ≡ 0
one_at_null k c null = ground arith

drop_true : (b : Bool) → ◌≡◌ {A = ℕ} (if b && not false then 1 else 0) (if b then 1 else 0)
drop_true b = ground arith

build_with_counts :
    (lib : Lib) (k config : ℕ) (rules : List RuleEntry) (h : LibHistory)
    → let (waf, h') = build_with lib config rules h in
      (opened lib k h' ≡ opened lib k h) × (closed k h' ≡ closed k h + one_at k config)
unfolding build_with
build_with_counts lib k config rules h = elim (Bool-cases (config == 0)) [
  | inl none_made ↦ rw none_made (refl, ground arith)
  | inr made ↦
      let a = add_rules_counts lib k config rules h in
      let one : ◌≡◌ {A = ℕ} (if config == k && not false then 1 else 0) (freed_at k config) =
        drop_true (config == k) in
      elim (Bool-cases (add_rules lib config rules h).0) [
        | inl all ↦
            let f = finish_waf_counts lib k config (add_rules lib config rules h).1 in
            rw (made, all) (f.0 ∙ a.0, omega (arith, f.1, (rw all at a.1), one))
        | inr stopped ↦ rw (made, stopped) (a.0, omega (arith, (rw stopped at a.1), one))
      ]
]

build_with-BuiltFrom :
    (lib : Lib) (rules : List RuleEntry) (h : LibHistory)
    → let waf = (build_with lib (lib.handle h new_waf_config) rules (new_waf_config ∷ h)).0 in
      (waf ≡ 0) ⊎ BuiltFrom lib waf rules
unfolding build_with finish_waf
build_with-BuiltFrom lib rules h =
    let config = lib.handle h new_waf_config in
    elim (Bool-cases (config == 0)) [
      | inl none_made ↦ inl (rw none_made refl)
      | inr made ↦ elim (Bool-cases (add_rules lib config rules (new_waf_config ∷ h)).0) [
        | inl all ↦ inr (
            rw (made, all)
              (record {
                before = h;
                ready = (add_rules lib config rules (new_waf_config ∷ h)).1;
                added = add_rules-Added lib config rules (new_waf_config ∷ h) all;
                made = refl;
              }))
        | inr stopped ↦ inl (rw (made, stopped) refl)
      ]
    ]

-- If each configuration made so far was freed as often as its handle was given out,
-- `coraza_build_waf` fails, or returns a WAF from a configuration made for it, to which exactly the
-- given rules were added in order, each without an error; and on every path the configuration that
-- it made, by its own handle, is freed again, and nothing else is freed as one.
pub build_waf-BuiltFrom :
    (lib : Lib) (rules : List RuleEntry) (h : LibHistory)
    → Freed lib h
    → let (waf, h') = build_waf lib rules h in ((waf ≡ 0) ⊎ BuiltFrom lib waf rules) × Freed lib h'
unfolding build_waf
build_waf-BuiltFrom lib [] h e = (inl refl, e)
build_waf-BuiltFrom lib (r ∷ rs) h e = (
  build_with-BuiltFrom lib (r ∷ rs) h,
  λ k.
      let n = build_with_counts lib k (lib.handle h new_waf_config) (r ∷ rs) (new_waf_config ∷ h) in
      omega (arith, n.0, n.1, e k),
)
