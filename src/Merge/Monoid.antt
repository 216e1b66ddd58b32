-- ===== src/Merge/Monoid.antt =====
-- The settings and rules that a request sees do not depend on how httpd groups the merges of nested
-- sections: `coraza_merge_dir_conf` of src/mod_coraza.c.
use coraza_apache.Base.{◌≡◌, refl, [], ◌∷◌, ◌++◌, List, Option, ℤ, ℕ, append-nil, Bytes}
use coraza_apache.Config.{DirConf, RuleEntry}
use coraza_apache.Merge.{merge_dir_conf, override, override_id}

-- What counts of a configuration when a request is inspected.
pub record Effective : Type 0 where
  pub enable : ℤ
  pub transaction_id : Option Bytes
  pub body_mem_limit : ℤ
  pub rules : List RuleEntry

abbrev pub effective : DirConf → Effective
effective d = record {
  enable = d.enable;
  transaction_id = d.transaction_id;
  body_mem_limit = d.body_mem_limit;
  rules = d.rules;
}

-- Later settings win, and rules follow each other.
abbrev pub combine : Effective → Effective → Effective
combine p c = record {
  enable = override p.enable c.enable;
  transaction_id = override_id p.transaction_id c.transaction_id;
  body_mem_limit = override p.body_mem_limit c.body_mem_limit;
  rules = p.rules ++ c.rules;
}

-- By the two rule lists.
merge_by_rules :
    (k : ℕ) (p c : DirConf) (ps cs : List RuleEntry)
    → p.rules ≡ ps
    → c.rules ≡ cs
    → effective (merge_dir_conf k p c) ≡ combine (effective p) (effective c)
unfolding merge_dir_conf
merge_by_rules k p c [] [] hp hc = simp (hp, hc) refl
merge_by_rules k p c [] (x ∷ cs) hp hc = simp (hp, hc) refl
merge_by_rules k p c (x ∷ ps) [] hp hc = simp (hp, hc, append-nil) refl
merge_by_rules k p c (x ∷ ps) (y ∷ cs) hp hc = simp (hp, hc) refl

pub merge_dir_conf-combine :
    (k : ℕ) (p c : DirConf) → effective (merge_dir_conf k p c) ≡ combine (effective p) (effective c)
merge_dir_conf-combine k p c = merge_by_rules k p c p.rules c.rules refl refl
