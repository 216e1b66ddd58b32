-- ===== src/Check/Accepts.antt =====
-- A configuration with a rule directive passes `coraza_check_config` of src/mod_coraza.c, whatever
-- the scope of the directive.
use coraza_apache.Base.{
  ℕ, List, Bool, ◌%◌, ◌+◌, ◌≡◌, ◌^◌, ◌<◌, true, length, arith, ltb, ◌++◌, ◌∷◌, ◌||◌, Bool-cases,
  if-holds, [], some, refl, inl, inr, ◌∙◌, ap,
}
use coraza_apache.Check.{
  check_config, config_has_rules, Server, counts_rules, ok, is_found, config_enabled_where,
}
use coraza_apache.Directives.Effect.{inlines, files_in, is_inline}
use coraza_apache.Directives.{System, Directive, Confs, run_directives}
use coraza_apache.Config.{RuleEntry}
use coraza_apache.Merge.{has_entries}
use coraza_apache.Request.{ok}
use coraza_apache.Directives.Meaning.{collected}
use coraza_apache.Directives.Scope.{run_directives-collected}

kinds_add_up : (rs : List RuleEntry) → inlines rs + files_in rs ≡ length rs
unfolding inlines files_in
kinds_add_up [] = refl
kinds_add_up (r ∷ rs) =
    let rest = kinds_add_up rs in
    elim (Bool-cases (is_inline r)) [
      | inl inline ↦ rw inline (omega (arith, rest))
      | inr file ↦ rw file (omega (arith, rest))
    ]

entries_long : (rs : List RuleEntry) → has_entries rs ≡ true → 0 < length rs
entries_long [] h = absurd (ground arith)
entries_long (r ∷ rs) h = omega arith

counted :
    (i f a b n : ℕ)
    → i % 2 ^ 32 ≡ a % 2 ^ 32
    → f % 2 ^ 32 ≡ b % 2 ^ 32
    → a + b ≡ n
    → 0 < n
    → n < 2 ^ 32
    → (ltb 0 i || ltb 0 f) ≡ true
counted i f a b n p q sum some_rule few = ground arith

config_has_rules_among :
    (before : List Server) (s : Server) (after : List Server)
    → counts_rules s.conf ≡ true
    → config_has_rules (before ++ s ∷ after) ≡ true
unfolding config_has_rules
config_has_rules_among [] s after h = rw h refl
config_has_rules_among (b ∷ bs) s after h =
    if-holds (λ x. x ≡ true) (counts_rules b.conf) (λ _. refl)
      (λ _. config_has_rules_among bs s after h)

has_rules_accepted : (ss : List Server) → config_has_rules ss ≡ true → check_config ss ≡ ok
unfolding check_config
has_rules_accepted ss h = elim (Bool-cases (is_found (config_enabled_where ss))) [
  | inl found ↦ simp (found, h) refl
  | inr nowhere ↦ simp nowhere refl
]

-- If the directives of some scope of a server, run from counters at 0, stored at least one rule and
-- fewer than 2^32, then the configuration is accepted, wherever the server stands in it.
pub check_config-run_directives :
    (sys : System) (top : Bool) (ds : List Directive) (c : Confs) (before : List Server)
    (s : Server) (after : List Server)
    → c.scf.rules_inline ≡ 0
    → c.scf.rules_file ≡ 0
    → has_entries (collected sys ds).0 ≡ true
    → length (collected sys ds).0 < 2 ^ 32
    → s.conf ≡ some (run_directives sys top ds c).1.scf
    → check_config (before ++ s ∷ after) ≡ ok
check_config-run_directives sys top ds c before s after no_inline no_file some_rule few conf =
    let es = (collected sys ds).0 in
    let scf = (run_directives sys top ds c).1.scf in
    let effect = (run_directives-collected sys top ds c).1 in
    let some_counted : counts_rules (some scf) ≡ true =
      counted scf.rules_inline scf.rules_file (0 + inlines es) (0 + files_in es) (length es)
        (effect.inline_count ∙ ap (λ x. (x + inlines es) % 2 ^ 32) no_inline)
        (effect.file_count ∙ ap (λ x. (x + files_in es) % 2 ^ 32) no_file)
        (omega (arith, kinds_add_up es)) (entries_long es some_rule) few in
    has_rules_accepted (before ++ s ∷ after)
      (config_has_rules_among before s after (ap counts_rules conf ∙ some_counted))
