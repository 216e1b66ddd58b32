-- ===== src/Merge.antt =====
-- Directory configurations of src/mod_coraza.c: `coraza_create_dir_conf` and
-- `coraza_merge_dir_conf`, and the array of the configurations that are merged before a worker starts.
pub mod Monoid
mod Examples
use coraza_apache.Base.{
  ℕ, Bool, true, false, not, Option, none, some, List, [], ◌∷◌, ◌++◌, Bytes, ℤ, pos, negsuc, eqb_ℤ,
  if◌then◌else◌, ◌==◌,
}
use coraza_apache.Config.{DirConf, RuleEntry}

abbrev pub create_dir_conf : DirConf
create_dir_conf = record {
  enable = negsuc 0;
  has_rules = false;
  rules = [];
  transaction_id = none;
  body_mem_limit = negsuc 0;
  waf = 0;
  merge_child = none;
}

-- `nelts > 0`
abbrev pub has_entries : List RuleEntry → Bool
has_entries [] = false
has_entries (r ∷ rs) = true

-- The child's value where it is set.
abbrev pub override : ℤ → ℤ → ℤ
override parent child = if not (eqb_ℤ child (negsuc 0)) then child else parent

abbrev pub override_id : Option Bytes → Option Bytes → Option Bytes
override_id parent none = parent
override_id parent (some t) = some t

-- The scalar settings, all else zeroed.
abbrev pub merge_settings : DirConf → DirConf → DirConf
merge_settings pconf cconf = record {
  enable = override pconf.enable cconf.enable;
  has_rules = false;
  rules = [];
  transaction_id = override_id pconf.transaction_id cconf.transaction_id;
  body_mem_limit = override pconf.body_mem_limit cconf.body_mem_limit;
  waf = 0;
  merge_child = none;
}

-- `child` is the index of `cconf` in the store of configurations.
unfoldable pub merge_dir_conf : ℕ → DirConf → DirConf → DirConf
merge_dir_conf child pconf cconf =
    let merged = merge_settings pconf cconf in
    if has_entries pconf.rules
    then (if has_entries cconf.rules
        then record merged {
          rules = pconf.rules ++ cconf.rules;
          has_rules = true;
          waf = cconf.waf;
          merge_child = some child;
        }
        else record merged { rules = pconf.rules; has_rules = pconf.has_rules; waf = pconf.waf })
    else if has_entries cconf.rules
    then record merged { rules = cconf.rules; has_rules = cconf.has_rules; waf = cconf.waf }
    else merged

-- The directory configurations by their indices, and `g_tracked_dir_confs`, which is NULL (`none`) in
-- a worker.
pub record DirConfs : Type 0 where
  pub dir_confs : ℕ → DirConf
  pub tracked : Option (List ℕ)

abbrev pub track : ℕ → Option (List ℕ) → Option (List ℕ)
track merged none = none
track merged (some is) = some (is ++ merged ∷ [])

-- httpd merges the configurations `parent` and `child` into a new one at `merged`.
unfoldable pub merge_into : ℕ → ℕ → ℕ → DirConfs → DirConfs
unfolding merge_dir_conf
merge_into merged parent child s = record {
  dir_confs = λ j.
      if j == merged
      then merge_dir_conf child (s.dir_confs parent) (s.dir_confs child)
      else s.dir_confs j;
  tracked = track merged s.tracked;
}
