-- ===== src/Directives.antt =====
-- The configuration directives and the server configuration: the `cmd_*` functions of
-- src/mod_coraza.c. A directive answers with an error or with nothing.
pub mod Meaning
pub mod Effect
pub mod Scope
pub mod Marked
mod Examples
use coraza_apache.Base.{
  Bool, Option, ◌+◌, List, Bytes, [], none, ℤ, ℕ, ◌++◌, if◌then◌else◌, ◌%◌, some, ◌^◌, ◌∷◌, pos,
  true,
}
use coraza_apache.Config.{DirConf, RuleEntry, inline_rule, file_rule}
use coraza_apache.RulesScan.{
  check_rules_text, Refusal, Files, check_rules_file, invalid_path, refused_file, accepted,
}

-- `coraza_server_conf_t` of src/mod_coraza.h; `dir_confs` is never filled.
pub record ServerConf : Type 0 where
  pub rules : List RuleEntry
  pub dir_confs : List ℕ
  pub waf : ℕ
  pub rules_inline : ℕ
  pub rules_file : ℕ

-- `coraza_create_server_conf`, without the global array that it renews.
abbrev pub create_server_conf : ServerConf
create_server_conf = record {
  rules = [];
  dir_confs = [];
  waf = 0;
  rules_inline = 0;
  rules_file = 0;
}

-- The errors of the directives, by what they say.
pub data CmdError : Type 0 where
  unsupported : Refusal → CmdError
  unresolved : Bytes → CmdError
  bad_limit : CmdError

-- The configurations that a directive is handed.
pub record Confs : Type 0 where
  pub dcf : DirConf
  pub scf : ServerConf

abbrev pub Answer : Type 0
Answer = Option CmdError × Confs

-- httpd and APR: the files, and `apr_strtoff` in base 10, which gives a number and the text that is
-- left of it.
pub record System : Type 0 where
  pub files : Files
  pub strtoff : Bytes → Option (ℤ × Bytes)

-- `entry = apr_array_push(dcf->rules)` with `has_rules`.
abbrev pub push_rule : RuleEntry → DirConf → DirConf
push_rule r d = record d { rules = d.rules ++ r ∷ []; has_rules = true }

-- A rule of the server level also goes into `scf->rules`.
abbrev pub push_server_rule : Bool → RuleEntry → ServerConf → ServerConf
push_server_rule server_level r s =
    if server_level then record s { rules = s.rules ++ r ∷ [] } else s

abbrev pub count_inline : ServerConf → ServerConf
count_inline s = record s { rules_inline = (s.rules_inline + 1) % 2 ^ 32 }

abbrev pub count_file : ServerConf → ServerConf
count_file s = record s { rules_file = (s.rules_file + 1) % 2 ^ 32 }

abbrev pub inline_entry : Bytes → RuleEntry
inline_entry text = record { rule_type = inline_rule; text = text }

abbrev pub file_entry : Bytes → RuleEntry
file_entry path = record { rule_type = file_rule; text = path }

abbrev pub store_inline : Bool → Bytes → Confs → Confs
store_inline server_level text c = record {
  dcf = push_rule (inline_entry text) c.dcf;
  scf = push_server_rule server_level (inline_entry text) (count_inline c.scf);
}

abbrev pub store_file : Bool → Bytes → Confs → Confs
store_file server_level path c = record {
  dcf = push_rule (file_entry path) c.dcf;
  scf = push_server_rule server_level (file_entry path) (count_file c.scf);
}

-- `cmd_coraza_rules`; `server_level` is `cmd->path == NULL`.
pub cmd_coraza_rules : Bool → Bytes → Confs → Answer
unfolding check_rules_text
cmd_coraza_rules server_level text c = elim (check_rules_text text) [
  | some r ↦ (some (unsupported r), c)
  | none ↦ (none, store_inline server_level text c)
]

-- `cmd_coraza_rules_file`
pub cmd_coraza_rules_file : System → Bool → Bytes → Confs → Answer
unfolding check_rules_file
cmd_coraza_rules_file sys server_level path c = elim (check_rules_file sys.files path) [
  | invalid_path ↦ (some (unresolved path), c)
  | refused_file r ↦ (some (unsupported r), c)
  | accepted full ↦ (none, store_file server_level full c)
]

-- `cmd_sec_directive`: the line as it was written.
pub cmd_sec_directive : Bool → Bytes → Bytes → Confs → Answer
unfolding cmd_coraza_rules
cmd_sec_directive server_level name args = cmd_coraza_rules server_level (name ++ 32 ∷ args)

abbrev pub cmd_coraza_enable : Bool → Confs → Answer
cmd_coraza_enable flag c =
    (none, record c { dcf = record (c.dcf) { enable = if flag then pos 1 else pos 0 } })

abbrev pub cmd_coraza_transaction_id : Bytes → Confs → Answer
cmd_coraza_transaction_id id c =
    (none, record c { dcf = record (c.dcf) { transaction_id = some id } })

abbrev pub set_limit : Option (ℤ × Bytes) → Confs → Answer
set_limit (some (pos n, [])) c =
    (none, record c { dcf = record (c.dcf) { body_mem_limit = pos n } })
set_limit _ c = (some bad_limit, c)

-- `cmd_coraza_body_mem_limit`
pub cmd_coraza_body_mem_limit : System → Bytes → Confs → Answer
cmd_coraza_body_mem_limit sys arg c = set_limit (sys.strtoff arg) c

-- A directive as it stands in the configuration.
pub data Directive : Type 0 where
  coraza : Bool → Directive
  coraza_rules : Bytes → Directive
  coraza_rules_file : Bytes → Directive
  coraza_transaction_id : Bytes → Directive
  coraza_body_mem_limit : Bytes → Directive
  sec : Bytes → Bytes → Directive

-- The handler that `coraza_directives` registers for it.
unfoldable pub run_directive : System → Bool → Directive → Confs → Answer
unfolding cmd_coraza_rules_file cmd_sec_directive cmd_coraza_body_mem_limit
run_directive sys top (coraza flag) = cmd_coraza_enable flag
run_directive sys top (coraza_rules text) = cmd_coraza_rules top text
run_directive sys top (coraza_rules_file path) = cmd_coraza_rules_file sys top path
run_directive sys top (coraza_transaction_id id) = cmd_coraza_transaction_id id
run_directive sys top (coraza_body_mem_limit arg) = cmd_coraza_body_mem_limit sys arg
run_directive sys top (sec name args) = cmd_sec_directive top name args

-- A scope's directives in order; httpd stops at the first error.
unfoldable pub run_directives : System → Bool → List Directive → Confs → Answer
unfolding run_directive
run_directives sys top [] c = (none, c)
run_directives sys top (d ∷ ds) c =
    let (err, c') = run_directive sys top d c in
    let rest = run_directives sys top ds c' in elim err [ none ↦ rest | some e ↦ (some e, c') ]
