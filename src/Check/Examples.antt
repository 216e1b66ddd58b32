-- ===== src/Check/Examples.antt =====
-- A configuration with `Coraza On` in a <Location> and no rules.
use coraza_apache.Check.{
  Server, check_config, some, ◌∷◌, config_enabled_where, config_has_rules, server_place,
  any_enabled, http_internal_server_error, ok,
}
use coraza_apache.Base.{
  some, ◌∷◌, [], ◌≡◌, none, refl, ◌↔◌, ◌⊎◌, List, false, ap, true, arith, codes, bytes_eq,
}
use coraza_apache.Merge.{create_dir_conf, has_entries}
use coraza_apache.Request.{http_internal_server_error, ok}
use coraza_apache.Samples.{enabled_conf}
use coraza_apache.Directives.{
  create_server_conf, Confs, System, run_directives, Directive, coraza, coraza_rules, inline_entry,
}
use coraza_apache.Check.Verdict.{SomeOn, Ruleless, check_config_iff}
use coraza_apache.Directives.Meaning.{collected, meaning, text_meaning}
use coraza_apache.Check.Accepts.{check_config-run_directives}
use coraza_apache.RulesScan.{check_rules_text, scan, scan_done}

abbrev armed : Server
armed = record {
  lookup_defaults = some create_dir_conf;
  sections = some (none ∷ [], some enabled_conf ∷ []);
  conf = some create_server_conf;
}

check_config_iff_example :
    ((check_config (armed ∷ []) ≡ http_internal_server_error)
      ↔ (SomeOn (armed ∷ []) × Ruleless (armed ∷ [])))
    × ((check_config (armed ∷ []) ≡ http_internal_server_error) ⊎ (check_config (armed ∷ []) ≡ ok))
check_config_iff_example = check_config_iff (armed ∷ [])

armed_refused : check_config (armed ∷ []) ≡ http_internal_server_error
unfolding check_config config_enabled_where config_has_rules server_place any_enabled
armed_refused = refl

abbrev no_files : System
no_files = record {
  files = record { server_root_relative = λ p. some p; file_open = λ p. none };
  strtoff = λ b. none;
}

abbrev one_directive : List Directive
one_directive = coraza true ∷ coraza_rules (codes "SecAction") ∷ []

abbrev fresh : Confs
fresh = record { dcf = create_dir_conf; scf = create_server_conf }

abbrev ruled : Server
ruled = record armed { conf = some (run_directives no_files false one_directive fresh).1.scf }

one_collected : (collected no_files one_directive).0 ≡ inline_entry (codes "SecAction") ∷ []
unfolding collected meaning text_meaning check_rules_text scan scan_done bytes_eq
one_collected = refl

check_config-run_directives_example : check_config (armed ∷ ruled ∷ []) ≡ ok
check_config-run_directives_example =
    check_config-run_directives no_files false one_directive fresh (armed ∷ []) ruled [] refl refl
      (ap has_entries one_collected) (rw one_collected (omega arith)) refl
