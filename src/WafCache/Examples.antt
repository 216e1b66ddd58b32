-- ===== src/WafCache/Examples.antt =====
-- Two policies with one entry each, of which one is cached.
use coraza_apache.Base.{◌≡◌, refl, true, false, [], ◌∷◌, List, codes, ◌⊎◌, ◌↔◌, arith, ℕ}
use coraza_apache.Config.{RuleEntry, inline_rule, file_rule}
use coraza_apache.WafCache.{Cache, rules_hash, waf_cache_find, waf_cache_add, rules_equal}
use coraza_apache.WafCache.Equal.{rules_equal_iff}
use coraza_apache.WafCache.Sound.{Sound, waf_cache-Sound, waf_cache_find-add}

abbrev engine_on : List RuleEntry
engine_on = record { rule_type = inline_rule; text = codes "SecRuleEngine On" } ∷ []

abbrev crs_file : List RuleEntry
crs_file = record { rule_type = file_rule; text = codes "/etc/crs.conf" } ∷ []

-- What the engine built: handle 1 from the first policy and handle 2 from the second.
data Built : ℕ → List RuleEntry → Type 0 where
  first : Built 1 engine_on
  second : Built 2 crs_file

abbrev one_cached : Cache
one_cached = record {
  entries = record { hash = rules_hash engine_on; rules = engine_on; waf = 1 } ∷ [];
  pool = true;
  full_logged = false;
}

waf_cache-Sound_example :
    ((waf_cache_find (rules_hash crs_file) crs_file one_cached ≡ 0)
      ⊎ Built (waf_cache_find (rules_hash crs_file) crs_file one_cached) crs_file)
    × Sound Built (waf_cache_add (rules_hash crs_file) crs_file 2 one_cached)
waf_cache-Sound_example =
    waf_cache-Sound Built (rules_hash crs_file) crs_file 2 one_cached
      (record { all_built = (first, tt); within = omega arith }) second

crs_missed : waf_cache_find (rules_hash crs_file) crs_file one_cached ≡ 0
unfolding rules_hash waf_cache_find
crs_missed = refl

waf_cache_find-add_example :
    waf_cache_find
      (rules_hash crs_file)
      crs_file
      (waf_cache_add (rules_hash crs_file) crs_file 2 one_cached)
    ≡ 2
waf_cache_find-add_example =
    waf_cache_find-add (rules_hash crs_file) crs_file 2 one_cached (λ e. absurd (omega arith), tt)
      (omega arith) refl crs_missed

rules_equal_iff_example : (rules_equal engine_on crs_file ≡ true) ↔ (engine_on ≡ crs_file)
rules_equal_iff_example = rules_equal_iff engine_on crs_file
