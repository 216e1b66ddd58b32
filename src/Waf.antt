-- ===== src/Waf.antt =====
-- `coraza_build_waf` of src/mod_coraza.c: replaying the collected rules through libcoraza.
pub mod Built
mod Examples
use coraza_apache.Base.{
  ℕ, Bool, true, false, not, List, [], ◌∷◌, Bytes, ℤ, pos, ltb_ℤ, ◌==◌, if◌then◌else◌,
}
use coraza_apache.Config.{RuleType, inline_rule, file_rule, RuleEntry}
use coraza_apache.Library.{
  Lib, LibCall, LibHistory, new_waf_config, rules_add, rules_add_file, free_waf_config, new_waf,
  free_string,
}

-- The call that adds an entry to a configuration.
pub add_call : ℕ → RuleType → Bytes → LibCall
add_call config inline_rule text = rules_add config text
add_call config file_rule text = rules_add_file config text

-- The loop over the entries; `false` is the early return, behind which the configuration is freed.
pub add_rules : Lib → ℕ → List RuleEntry → LibHistory → Bool × LibHistory
add_rules lib config [] h = (true, h)
add_rules lib config (r ∷ rs) h =
    let c = add_call config r.rule_type r.text in
    let rest = add_rules lib config rs (c ∷ h) in
    if not (lib.strdup h r.text)
    then (false, free_waf_config config ∷ h)
    else if ltb_ℤ (lib.status h c) (pos 0)
    then (false, free_waf_config config ∷ c ∷ h)
    else rest

-- Behind the loop: the WAF, with an error string handed back if there is one.
unfoldable pub finish_waf : Lib → ℕ → LibHistory → ℕ × LibHistory
finish_waf lib config h =
    let h' = free_waf_config config ∷ new_waf config ∷ h in
    (
      lib.handle h (new_waf config),
      (if lib.has_error h (new_waf config) then free_string ∷ h' else h'),
    )

pub build_with : Lib → ℕ → List RuleEntry → LibHistory → ℕ × LibHistory
unfolding finish_waf
build_with lib config rules h =
    if config == 0
    then (0, h)
    else let (added, h') = add_rules lib config rules h in
      if added then finish_waf lib config h' else (0, h')

-- The handle, 0 for a failure.
unfoldable pub build_waf : Lib → List RuleEntry → LibHistory → ℕ × LibHistory
unfolding build_with
build_waf lib [] h = (0, h)
build_waf lib (r ∷ rs) h =
    build_with lib (lib.handle h new_waf_config) (r ∷ rs) (new_waf_config ∷ h)
