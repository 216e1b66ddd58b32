-- ===== src/Waf/Examples.antt =====
-- A library that takes every rule, and one that refuses files.
use coraza_apache.Base.{◌≡◌, refl, true, false, [], ◌∷◌, codes, pos, negsuc, ℤ, List, ℕ, ◌⊎◌}
use coraza_apache.Config.{RuleEntry, inline_rule, file_rule}
use coraza_apache.Library.{
  Lib, LibCall, LibHistory, rules_add_file, free_waf_config, new_waf_config, rules_add,
}
use coraza_apache.Waf.{build_waf, add_rules, add_call}
use coraza_apache.Waf.Built.{BuiltFrom, build_waf-BuiltFrom, Freed}

abbrev no_files : LibHistory → LibCall → ℤ
no_files h (rules_add_file config path) = negsuc 0
no_files h _ = pos 0

abbrev counting : LibHistory → LibCall → ℕ
counting h c = 7

abbrev without_files : Lib
without_files = record {
  handle = counting;
  status = no_files;
  has_error = λ h c. false;
  strdup = λ h b. true;
}

abbrev rule_then_file : List RuleEntry
rule_then_file =
    record { rule_type = inline_rule; text = codes "SecRuleEngine On" }
    ∷ record { rule_type = file_rule; text = codes "/crs" }
    ∷ []

file_refused : build_waf without_files rule_then_file [] ≡ (
  0,
  free_waf_config 7
      ∷ rules_add_file 7 (codes "/crs")
      ∷ rules_add 7 (codes "SecRuleEngine On")
      ∷ new_waf_config
      ∷ [],
)
unfolding build_waf add_rules add_call
file_refused = refl

abbrev one_rule : List RuleEntry
one_rule = record { rule_type = inline_rule; text = codes "SecRuleEngine On" } ∷ []

build_waf-BuiltFrom_example :
    let (waf, h') = build_waf without_files one_rule [] in
    ((waf ≡ 0) ⊎ BuiltFrom without_files waf one_rule) × Freed without_files h'
build_waf-BuiltFrom_example = build_waf-BuiltFrom without_files one_rule [] (λ k. refl)
