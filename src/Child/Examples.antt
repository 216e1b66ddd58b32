-- ===== src/Child/Examples.antt =====
-- Two servers that share a configuration, and two directories, one with a rule.
use coraza_apache.Child.{
  Child, child_init, child_exit, DirConf, ServerRec, ok, has_entries, set_server_waf, free_waf,
  update, exit_dirs, free_servers, free_dirs, is_server_waf, is_dir_waf, init_servers, init_server,
  build_server_waf, empty_waf, finish_waf,
}
use coraza_apache.DlOpen.{dl_open, Loader, unloaded}
use coraza_apache.Transaction.{Worker, update}
use coraza_apache.Base.{
  List, ℕ, length, [], ◌≡◌, false, pos, none, some, ◌+◌, codes, true, ◌∷◌, refl, arith, sym, ◌==◌,
  ◌∙◌, Bool-cases, inl, inr,
}
use coraza_apache.Library.{Lib, free_waf}
use coraza_apache.Child.Frees.{frees, one_if}
use coraza_apache.Config.{RuleEntry, DirConf, inline_rule}
use coraza_apache.Directives.{create_server_conf}
use coraza_apache.Child.Ready.{Ready, AllFit}
use coraza_apache.Request.{ok}
use coraza_apache.Merge.{has_entries, create_dir_conf}
use coraza_apache.Child.Started.{child_init-AllFit}
use coraza_apache.Child.Exit.{holds, child_exit-frees}
use coraza_apache.Child.Cleared.{child_exit_clears}
use coraza_apache.Waf.{finish_waf}

abbrev one_rule : List RuleEntry
one_rule = record { rule_type = inline_rule; text = codes "SecRuleEngine On" } ∷ []

abbrev dirs : ℕ → DirConf
dirs =
    update (λ _. create_dir_conf) 1 (record create_dir_conf { has_rules = true; rules = one_rule })

abbrev recent : Loader
recent = record { dynlib_open = 7; dynlib_sym = λ n. 1; version_num = pos 10800 }

abbrev numbering : Lib
numbering = record {
  handle = λ h c. length h + 1;
  status = λ h c. pos 0;
  has_error = λ h c. false;
  strdup = λ h b. true;
}

abbrev idle : Worker
idle = record {
  calls = [];
  dir_confs = dirs;
  cache = record { entries = []; pool = false; full_logged = false };
  mutex = false;
}

abbrev forked : Child
forked = record {
  dl = unloaded;
  worker = idle;
  server_confs = λ k. create_server_conf;
  tracked_dir_confs = some (0 ∷ 1 ∷ []);
  config_dir_confs = none;
  exit_registered = false;
}

abbrev two_servers : List ServerRec
two_servers =
    record { module_config = some 0; lookup_defaults = some 0 }
    ∷ record { module_config = some 0; lookup_defaults = none }
    ∷ []

recent_loads : (dl_open recent unloaded).0 ≡ ok
unfolding dl_open
recent_loads = refl

marked : (j : ℕ) → (dirs j).has_rules ≡ has_entries (dirs j).rules
marked j = elim (Bool-cases (j == 1)) [
  | inl here ↦ rw here refl
  | inr elsewhere ↦ rw elsewhere refl
]

apart : false ≡ true → ⊥
apart e = absurd (ground arith)

child_init-AllFit_example :
    let w = (child_init numbering recent true (λ i j. false) two_servers forked).worker in
    Ready numbering dirs w × AllFit numbering dirs w (0 ∷ 1 ∷ [])
child_init-AllFit_example =
    child_init-AllFit numbering recent true (λ i j. false) two_servers forked (0 ∷ 1 ∷ [])
      recent_loads refl refl marked (λ j k e. absurd (apart e))
      (record { all_built = tt; within = omega arith }) (λ k. refl)

-- A worker whose two directories hold one WAF, and whose two servers another.
abbrev serving : Child
serving = record forked {
  worker = record idle { dir_confs = λ j. record (dirs j) { waf = 5 } };
  server_confs = set_server_waf 0 6 (λ k. create_server_conf);
  config_dir_confs = some (0 ∷ 1 ∷ []);
}

five_elsewhere : (j : ℕ) → (5 == (set_server_waf 0 6 (λ k. create_server_conf) j).waf) ≡ false
five_elsewhere j = elim (Bool-cases (j == 0)) [
  | inl here ↦ rw here refl
  | inr elsewhere ↦ rw elsewhere refl
]

child_exit-frees_example :
    frees 5 (child_exit two_servers serving).worker.calls
    ≡ frees 5 serving.worker.calls + one_if (holds 5 two_servers serving)
child_exit-frees_example =
    child_exit-frees 5 two_servers serving refl
      (λ j k a b. absurd (apart (sym (five_elsewhere j) ∙ a)))

both_freed : (child_exit two_servers serving).worker.calls ≡ free_waf 6 ∷ free_waf 5 ∷ []
unfolding child_exit exit_dirs free_servers free_dirs is_server_waf is_dir_waf
both_freed = refl

child_exit_clears_example : holds 5 two_servers (child_exit two_servers serving) ≡ false
child_exit_clears_example = child_exit_clears 5 two_servers serving refl

-- A base configuration outside of the frozen array, and two servers that share theirs, which has no
-- rules: the second WAF replaces the first in the shared configuration, and the first is left in the
-- base configuration.
abbrev rebuilt : Child
rebuilt = init_servers numbering two_servers (record forked { config_dir_confs = some (1 ∷ []) })

first_waf_left : ((rebuilt.worker.dir_confs 0).waf ≡ 2) × ((rebuilt.server_confs 0).waf ≡ 6)
unfolding init_servers init_server build_server_waf empty_waf finish_waf
first_waf_left = (refl, refl)

-- The exit then frees the second only, and the base configuration keeps the first.
first_waf_leaked :
    (frees 2 (child_exit two_servers rebuilt).worker.calls ≡ 0)
    × (frees 6 (child_exit two_servers rebuilt).worker.calls ≡ 1)
    × (((child_exit two_servers rebuilt).worker.dir_confs 0).waf ≡ 2)
unfolding child_exit exit_dirs free_servers free_dirs is_server_waf is_dir_waf init_servers
    init_server build_server_waf empty_waf finish_waf
first_waf_leaked = (refl, refl, refl)
