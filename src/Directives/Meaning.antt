-- ===== src/Directives/Meaning.antt =====
-- What the directives of src/mod_coraza.c stand for, read off their texts.
use coraza_apache.RulesScan.{FileCheck, Refusal, check_rules_text, check_rules_file}
use coraza_apache.Directives.{
  System, Refusal, accepted, Directive, file_entry, coraza, inline_entry, coraza_rules,
  check_rules_text, coraza_rules_file, check_rules_file, coraza_transaction_id,
  coraza_body_mem_limit, sec,
}
use coraza_apache.Base.{
  Bytes, Option, List, ℤ, Bool, pos, some, true, ◌∷◌, none, [], false, ◌++◌, ℕ,
}
use coraza_apache.Config.{RuleEntry}

-- What a scope sets besides its rules.
pub record Settings : Type 0 where
  pub enable : ℤ
  pub transaction_id : Option Bytes
  pub body_mem_limit : ℤ

pub data Change : Type 0 where
  switch : Bool → Change
  name_transactions : Bytes → Change
  limit_body : ℕ → Change

unfoldable pub apply : Change → Settings → Settings
apply (switch true) s = record s { enable = pos 1 }
apply (switch false) s = record s { enable = pos 0 }
apply (name_transactions id) s = record s { transaction_id = some id }
apply (limit_body n) s = record s { body_mem_limit = pos n }

-- A directive is refused, changes a setting, or stands for a rule.
pub data Meaning : Type 0 where
  refused_directive : Meaning
  setting : Change → Meaning
  rule : RuleEntry → Meaning

unfoldable pub text_meaning : Bytes → Option Refusal → Meaning
text_meaning text none = rule (inline_entry text)
text_meaning text (some r) = refused_directive

unfoldable pub file_meaning : FileCheck → Meaning
file_meaning (accepted full) = rule (file_entry full)
file_meaning _ = refused_directive

unfoldable pub limit_meaning : Option (ℤ × Bytes) → Meaning
limit_meaning (some (pos n, [])) = setting (limit_body n)
limit_meaning _ = refused_directive

unfoldable pub meaning : System → Directive → Meaning
unfolding text_meaning file_meaning limit_meaning
meaning sys (coraza flag) = setting (switch flag)
meaning sys (coraza_rules text) = text_meaning text (check_rules_text text)
meaning sys (coraza_rules_file path) = file_meaning (check_rules_file sys.files path)
meaning sys (coraza_transaction_id id) = setting (name_transactions id)
meaning sys (coraza_body_mem_limit arg) = limit_meaning (sys.strtoff arg)
meaning sys (sec name args) =
    text_meaning (name ++ 32 ∷ args) (check_rules_text (name ++ 32 ∷ args))

-- The rules up to the first refused directive, and whether there is none.
unfoldable pub collected : System → List Directive → List RuleEntry × Bool
unfolding meaning
collected sys [] = ([], true)
collected sys (d ∷ ds) =
    let (rules, all) = collected sys ds in
    elim (meaning sys d) [
      | refused_directive ↦ ([], false)
      | setting ch ↦ (rules, all)
      | rule r ↦ (r ∷ rules, all)
    ]

-- The settings behind the directives in front of the first refused one.
unfoldable pub settled : System → List Directive → Settings → Settings
unfolding meaning apply
settled sys [] s = s
settled sys (d ∷ ds) s = elim (meaning sys d) [
  | refused_directive ↦ s
  | setting ch ↦ settled sys ds (apply ch s)
  | rule r ↦ settled sys ds s
]
