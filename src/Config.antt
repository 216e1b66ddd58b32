-- ===== src/Config.antt =====
-- Configuration records of src/mod_coraza.h.
use coraza_apache.Base.{ℕ, Bool, Option, List, Bytes, ℤ}

pub data RuleType : Type 0 where
  inline_rule file_rule : RuleType

pub record RuleEntry : Type 0 where
  pub rule_type : RuleType
  pub text : Bytes

-- `coraza_dir_conf_t`. A WAF handle of 0 is no WAF. `merge_child` is the index of the child record
-- in the store of directory configurations.
pub record DirConf : Type 0 where
  pub enable : ℤ
  pub has_rules : Bool
  pub rules : List RuleEntry
  pub transaction_id : Option Bytes
  pub body_mem_limit : ℤ
  pub waf : ℕ
  pub merge_child : Option ℕ
