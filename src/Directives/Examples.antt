-- ===== src/Directives/Examples.antt =====
-- A server's directives, the third of which is refused.
use coraza_apache.Directives.{
  System, Confs, run_directives, Directive, run_directive, create_server_conf, coraza,
  cmd_coraza_body_mem_limit, cmd_sec_directive, cmd_coraza_rules, sec, check_rules_text,
  coraza_body_mem_limit, coraza_rules, inline_entry,
}
use coraza_apache.Base.{
  List, true, some, none, ◌∷◌, ◌≡◌, codes, bytes_eq, [], refl, ℕ, if◌then◌else◌, ◌==◌, false,
  Bool-cases, inl, inr,
}
use coraza_apache.Merge.{create_dir_conf, DirConfs, merge_into}
use coraza_apache.Directives.Meaning.{collected, settled}
use coraza_apache.Directives.Scope.{is_ok, run_directives-collected, settings_of}
use coraza_apache.Directives.Effect.{Effect}
use coraza_apache.RulesScan.{check_rules_text, scan, scan_done}
use coraza_apache.Directives.Marked.{Marked, merge_into-Marked}

abbrev sys : System
sys = record {
  files = record { server_root_relative = λ p. some p; file_open = λ p. none };
  strtoff = λ b. none;
}

abbrev server_scope : List Directive
server_scope =
    coraza true
    ∷ sec (codes "SecRuleEngine") (codes "On")
    ∷ coraza_body_mem_limit (codes "many")
    ∷ coraza_rules (codes "SecAction")
    ∷ []

abbrev fresh : Confs
fresh = record { dcf = create_dir_conf; scf = create_server_conf }

run_directives-collected_example :
    let (err, c') = run_directives sys true server_scope fresh in
    let (es, all) = collected sys server_scope in
    (is_ok err ≡ all)
    × Effect true es fresh c'
    × (settings_of c' ≡ settled sys server_scope (settings_of fresh))
run_directives-collected_example = run_directives-collected sys true server_scope fresh

one_stored : (run_directives sys true server_scope fresh).1.scf.rules_inline ≡ 1
unfolding run_directives run_directive cmd_coraza_body_mem_limit cmd_sec_directive cmd_coraza_rules
    check_rules_text scan scan_done bytes_eq
one_stored = refl

-- A site, a location with a rule, and their merge.
abbrev read_so_far : DirConfs
read_so_far = record {
  dir_confs = λ j.
      if j == 1
      then record create_dir_conf {
        has_rules = true;
        rules = inline_entry (codes "SecAction") ∷ [];
      }
      else create_dir_conf;
  tracked = some [];
}

read_so_far-Marked : (j : ℕ) → Marked (read_so_far.dir_confs j)
read_so_far-Marked j = elim (Bool-cases (j == 1)) [
  | inl here ↦ rw here refl
  | inr elsewhere ↦ rw elsewhere refl
]

merge_into-Marked_example :
    let s' = merge_into 2 0 1 read_so_far in
    let c : Confs = record { dcf = s'.dir_confs 2; scf = create_server_conf } in
    ((j : ℕ) → Marked (s'.dir_confs j))
    × Marked (run_directives sys false server_scope c).1.dcf
    × (s'.tracked ≡ some (2 ∷ []))
merge_into-Marked_example =
    merge_into-Marked 2 0 1 read_so_far [] sys false server_scope 2 create_server_conf refl
      read_so_far-Marked
