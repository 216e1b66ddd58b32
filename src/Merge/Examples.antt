-- ===== src/Merge/Examples.antt =====
-- A server with rules, a directory that turns the engine on, and a location with rules of its own.
use coraza_apache.Base.{refl, ◌≡◌, pos, [], ◌∷◌, codes, true}
use coraza_apache.Config.{DirConf, inline_rule}
use coraza_apache.Merge.{merge_dir_conf, create_dir_conf}
use coraza_apache.Merge.Monoid.{effective}
use coraza_apache.Samples.{enabled_conf}

abbrev with_rule : DirConf
with_rule = record enabled_conf {
  rules = record { rule_type = inline_rule; text = codes "SecRuleEngine On" } ∷ [];
  has_rules = true;
}

abbrev with_limit : DirConf
with_limit = record enabled_conf { enable = pos 0; body_mem_limit = pos 4 }

fresh_child : effective (merge_dir_conf 1 with_rule create_dir_conf) ≡ effective with_rule
unfolding merge_dir_conf
fresh_child = refl
