-- ===== src/Directives/Scope.antt =====
-- What the directives of a scope amount to: the `cmd_*` functions of src/mod_coraza.c.
use coraza_apache.Base.{
  Bool, Option, ℤ, List, true, Bytes, some, pos, false, ◌≡◌, none, ◌∷◌, [], negsuc, ap, arith, refl,
  ◌++◌, ◌∙◌,
}
use coraza_apache.Directives.{
  cmd_coraza_rules, run_directives, cmd_coraza_rules_file, run_directive, CmdError, Confs, System,
  RuleEntry, cmd_sec_directive, check_rules_file, check_rules_text, Answer,
  cmd_coraza_body_mem_limit, set_limit, Directive, Refusal, coraza, unsupported, coraza_rules,
  store_inline, unresolved, coraza_rules_file, refused_file, accepted, coraza_transaction_id,
  store_file, coraza_body_mem_limit, sec,
}
use coraza_apache.Directives.Meaning.{
  limit_meaning, meaning, collected, file_meaning, Meaning, text_meaning, rule, refused_directive,
  setting, settled, Settings, apply,
}
use coraza_apache.Config.{RuleEntry}
use coraza_apache.RulesScan.{check_rules_text, check_rules_file, Refusal, FileCheck, invalid_path}
use coraza_apache.Directives.Effect.{
  no-Effect, Effect, store_inline-Effect, store_file-Effect, skip-Effect, first-Effect,
}

abbrev pub is_ok : Option CmdError → Bool
is_ok none = true
is_ok (some e) = false

abbrev pub settings_of : Confs → Settings
settings_of c = record {
  enable = c.dcf.enable;
  transaction_id = c.dcf.transaction_id;
  body_mem_limit = c.dcf.body_mem_limit;
}

-- What a directive did, by what it means: nothing if it was refused.
Does : Bool → Meaning → Confs → Answer → Type 0
Does top refused_directive c (err, c') = (is_ok err ≡ false) × (c' ≡ c)
Does top (setting ch) c (err, c') =
    (is_ok err ≡ true) × Effect top [] c c' × (settings_of c' ≡ apply ch (settings_of c))
Does top (rule e) c (err, c') =
    (is_ok err ≡ true) × Effect top (e ∷ []) c c' × (settings_of c' ≡ settings_of c)

cmd_coraza_rules-Does :
    (top : Bool) (text : Bytes) (c : Confs)
    → Does top (text_meaning text (check_rules_text text)) c (cmd_coraza_rules top text c)
unfolding Does cmd_coraza_rules text_meaning
cmd_coraza_rules-Does top text c = by_check (check_rules_text text)
  where
    by_check :
        (x : Option Refusal)
        → Does top (text_meaning text x) c (elim x as (λ _. Answer) [
          | some r ↦ (some (unsupported r), c)
          | none ↦ (none, store_inline top text c)
        ])
    by_check none = (refl, store_inline-Effect top text c, refl)
    by_check (some r) = (refl, refl)

cmd_coraza_rules_file-Does :
    (sys : System) (top : Bool) (path : Bytes) (c : Confs)
    → Does top
        (file_meaning (check_rules_file sys.files path))
        c
        (cmd_coraza_rules_file sys top path c)
unfolding Does cmd_coraza_rules_file file_meaning
cmd_coraza_rules_file-Does sys top path c = by_check (check_rules_file sys.files path)
  where
    by_check :
        (x : FileCheck)
        → Does top (file_meaning x) c (elim x as (λ _. Answer) [
          | invalid_path ↦ (some (unresolved path), c)
          | refused_file r ↦ (some (unsupported r), c)
          | accepted full ↦ (none, store_file top full c)
        ])
    by_check invalid_path = (refl, refl)
    by_check (refused_file r) = (refl, refl)
    by_check (accepted full) = (refl, store_file-Effect top full c, refl)

set_limit-Does :
    (top : Bool) (x : Option (ℤ × Bytes)) (c : Confs) → Does top (limit_meaning x) c (set_limit x c)
unfolding Does limit_meaning apply
set_limit-Does top none c = (refl, refl)
set_limit-Does top (some (pos n, [])) c = (refl, no-Effect top refl refl refl refl, refl)
set_limit-Does top (some (pos n, b ∷ bs)) c = (refl, refl)
set_limit-Does top (some (negsuc n, rest)) c = (refl, refl)

run_directive-Does :
    (sys : System) (top : Bool) (d : Directive) (c : Confs)
    → Does top (meaning sys d) c (run_directive sys top d c)
unfolding Does meaning apply run_directive cmd_sec_directive cmd_coraza_body_mem_limit
run_directive-Does sys top (coraza true) c = (refl, no-Effect top refl refl refl refl, refl)
run_directive-Does sys top (coraza false) c = (refl, no-Effect top refl refl refl refl, refl)
run_directive-Does sys top (coraza_rules text) c = cmd_coraza_rules-Does top text c
run_directive-Does sys top (coraza_rules_file path) c = cmd_coraza_rules_file-Does sys top path c
run_directive-Does sys top (coraza_transaction_id id) c =
    (refl, no-Effect top refl refl refl refl, refl)
run_directive-Does sys top (coraza_body_mem_limit arg) c = set_limit-Does top (sys.strtoff arg) c
run_directive-Does sys top (sec name args) c = cmd_coraza_rules-Does top (name ++ 32 ∷ args) c

-- The effect of a run, whether it ended without an error, and its settings.
Ran : Bool → List RuleEntry × Bool → (Settings → Settings) → Confs → Answer → Type 0
Ran top (es, all) final c (err, c') =
    (is_ok err ≡ all) × Effect top es c c' × (settings_of c' ≡ final (settings_of c))

-- A scope's directives implement their description: run in order until the first one that is
-- refused, they add to the directory's rules exactly the rules that the directives before it stand
-- for, in order, and to the server's rules the same at the server level and none elsewhere; the
-- counters grow by the numbers of inline rules and of files, in 32 bits; `has_rules` is set once
-- there is a rule; the switch, the transaction id and the limit of the body in memory are what these
-- directives set last, or what they were; and there is an error exactly when a directive is refused,
-- which itself adds no rule and changes none of these.
pub run_directives-collected :
    (sys : System) (top : Bool) (ds : List Directive) (c : Confs)
    → let (err, c') = run_directives sys top ds c in
      let (es, all) = collected sys ds in
      (is_ok err ≡ all) × Effect top es c c' × (settings_of c' ≡ settled sys ds (settings_of c))
unfolding run_directives collected settled Does Ran
run_directives-collected sys top [] c = (refl, no-Effect top refl refl refl refl, refl)
run_directives-collected sys top (d ∷ ds) c =
    by_meaning (meaning sys d) (run_directive sys top d c) (run_directive-Does sys top d c)
      (run_directives-collected sys top ds)
  where
    by_meaning :
        (m : Meaning) (x : Answer)
        → Does top m c x
        → ((c' : Confs)
            → Ran top (collected sys ds) (settled sys ds) c' (run_directives sys top ds c'))
        → Ran top
            (elim m as (λ _. List RuleEntry × Bool) [
              | refused_directive ↦ ([], false)
              | setting ch ↦ collected sys ds
              | rule r ↦ (r ∷ (collected sys ds).0, (collected sys ds).1)
            ])
            (λ s. elim m as (λ _. Settings) [
              | refused_directive ↦ s
              | setting ch ↦ settled sys ds (apply ch s)
              | rule r ↦ settled sys ds s
            ])
            c
            (elim x.0 as (λ _. Answer) [
              | none ↦ run_directives sys top ds x.1
              | some e ↦ (some e, x.1)
            ])
    by_meaning refused_directive (some e, c') (err, same) rest = (
      refl,
      no-Effect top (ap (λ x. x.scf) same) (ap (λ x. x.dcf.rules) same)
          (ap (λ x. x.dcf.has_rules) same) (ap (λ x. x.dcf.waf) same),
      ap settings_of same,
    )
    by_meaning refused_directive (none, c') (err, same) rest = absurd (ground arith)
    by_meaning (setting ch) (none, c') (err, eff, set) rest =
        let (ok, effs, sets) = rest c' in (ok, skip-Effect eff effs, sets ∙ ap (settled sys ds) set)
    by_meaning (setting ch) (some e, c') (err, eff, set) rest = absurd (ground arith)
    by_meaning (rule r) (none, c') (err, eff, set) rest =
        let (ok, effs, sets) = rest c' in
        (ok, first-Effect eff effs, sets ∙ ap (settled sys ds) set)
    by_meaning (rule r) (some e, c') (err, eff, set) rest = absurd (ground arith)
