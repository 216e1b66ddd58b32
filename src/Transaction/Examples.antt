-- ===== src/Transaction/Examples.antt =====
-- A worker with two sites that share a location block: configuration 0 is the block with its rules,
-- 1 the first site merged over it.
use coraza_apache.Transaction.{Worker, create_ctx, update, resolve_waf}
use coraza_apache.Library.{Lib}
use coraza_apache.Base.{
  List, ℕ, [], ◌≡◌, false, length, true, none, ◌+◌, some, pos, codes, refl, ◌∷◌, ◌++◌,
}
use coraza_apache.Merge.{merge_dir_conf, create_dir_conf}
use coraza_apache.Config.{DirConf, RuleEntry, inline_rule}
use coraza_apache.Transaction.Stale.{merge_dir_conf-create_ctx}

abbrev block_rules : List RuleEntry
block_rules = record { rule_type = inline_rule; text = codes "SecAction block" } ∷ []

abbrev site_rules : List RuleEntry
site_rules = record { rule_type = inline_rule; text = codes "SecRuleEngine On" } ∷ []

abbrev block : DirConf
block = record create_dir_conf { has_rules = true; rules = block_rules }

abbrev site : DirConf
site = record create_dir_conf { has_rules = true; rules = site_rules }

abbrev merged : DirConf
merged = merge_dir_conf 0 site block

abbrev store : ℕ → DirConf
store =
    update (λ _. record site { rules = site_rules ++ block_rules; merge_child = some 0 }) 0 block

-- Handles are given out in the order of the calls, and nothing fails.
abbrev counting_lib : Lib
counting_lib = record {
  handle = λ h c. length h + 1;
  status = λ h c. pos 0;
  has_error = λ h c. false;
  strdup = λ h b. true;
}

abbrev worker : Worker
worker = record {
  calls = [];
  dir_confs = store;
  cache = record { entries = []; pool = true; full_logged = false };
  mutex = true;
}

second_configuration : store 1 ≡ merged
unfolding merge_dir_conf
second_configuration = refl

-- The other site gets the WAF of the first.
merge_dir_conf-create_ctx_example :
    (r : ℕ × Worker) × (create_ctx counting_lib 1 0 worker ≡ some r)
    × ((merge_dir_conf 0 (record site { rules = block_rules }) (r.1.dir_confs 0)).waf
        ≡ (r.1.dir_confs 1).waf)
merge_dir_conf-create_ctx_example =
    merge_dir_conf-create_ctx counting_lib 1 0 0 worker (record site { rules = block_rules }) refl
      refl (record { apart = refl; linked = refl; entries = refl }) refl

-- Without the mutex the request faults.
unlocked_faults : create_ctx counting_lib 1 0 (record worker { mutex = false }) ≡ none
unfolding create_ctx resolve_waf
unlocked_faults = refl
