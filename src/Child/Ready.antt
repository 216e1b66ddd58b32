-- ===== src/Child/Ready.antt =====
-- What step 2 of `coraza_child_init` in src/mod_coraza.c keeps: the WAFs of the servers.
use coraza_apache.Library.{Lib, LibHistory, new_waf_config, rules_count}
use coraza_apache.Base.{
  ℕ, List, Option, ◌≡◌, ◌∷◌, Bool-cases, some, false, none, if-holds, [], ◌∙◌, inl, ◌==◌, ◌⊎◌, true,
  arith, ap, sym, inr, refl,
}
use coraza_apache.Config.{DirConf}
use coraza_apache.Child.{
  empty_waf, build_server_waf, init_servers, init_server, ServerConf, Child, ServerRec, set_waf,
  has_entries, share_waf, new_waf_config, with_calls, rules_count, DirConf,
}
use coraza_apache.Transaction.{Worker, set_waf}
use coraza_apache.Directives.{ServerConf}
use coraza_apache.Waf.Built.{
  BuiltFrom, build_waf-BuiltFrom, finish_waf_counts, Freed, one_at_null, one_at_made,
}
use coraza_apache.Merge.{has_entries}
use coraza_apache.WafCache.Sound.{Sound}
use coraza_apache.Transaction.Scopes.{Fit, eq_at}

module _ (lib : Lib) (R : ℕ → DirConf) where
  -- The directory configurations have these rules, the cache is sound, no configuration is leaked.
  pub record Ready (w : Worker) : Type 0 where
    pub rules : (j : ℕ) → (w.dir_confs j).rules ≡ (R j).rules
    pub has_rules : (j : ℕ) → (w.dir_confs j).has_rules ≡ has_entries (R j).rules
    pub children : (j : ℕ) → (w.dir_confs j).merge_child ≡ (R j).merge_child
    pub cached : Sound (BuiltFrom lib) w.cache
    pub freed : Freed lib w.calls
    pub mutex : w.mutex ≡ true

  -- A configuration without rules, or with a WAF of its own if it has one.
  abbrev pub DirFits : Worker → ℕ → Type 0
  DirFits w j = (has_entries (R j).rules ≡ false) ⊎ Fit lib (w.dir_confs j).waf (R j).rules

  abbrev pub AllFit : Worker → List ℕ → Type 0
  AllFit w [] = Unit
  AllFit w (j ∷ js) = DirFits w j × AllFit w js

  set_waf_keeps :
      (j k waf : ℕ) (w : Worker)
      → (((set_waf k waf w).dir_confs j).rules ≡ (w.dir_confs j).rules)
        × (((set_waf k waf w).dir_confs j).has_rules ≡ (w.dir_confs j).has_rules)
        × (((set_waf k waf w).dir_confs j).merge_child ≡ (w.dir_confs j).merge_child)
  set_waf_keeps j k waf w = elim (Bool-cases (j == k)) [
    | inl here ↦ rw here (
      ap (λ x. (w.dir_confs x).rules) (sym (eq_at j k here)),
      ap (λ x. (w.dir_confs x).has_rules) (sym (eq_at j k here)),
      ap (λ x. (w.dir_confs x).merge_child) (sym (eq_at j k here)),
    )
    | inr elsewhere ↦ rw elsewhere (refl, refl, refl)
  ]

  pub set_waf-Ready : (k waf : ℕ) (w : Worker) → Ready w → Ready (set_waf k waf w)
  set_waf-Ready k waf w r = record {
    rules = λ j. (set_waf_keeps j k waf w).0 ∙ r.rules j;
    has_rules = λ j. (set_waf_keeps j k waf w).1 ∙ r.has_rules j;
    children = λ j. (set_waf_keeps j k waf w).2 ∙ r.children j;
    cached = r.cached;
    freed = r.freed;
    mutex = r.mutex;
  }

  pub with_calls-Ready :
      (h : LibHistory) (w : Worker) → Freed lib h → Ready w → Ready (with_calls h w)
  with_calls-Ready h w e r = record {
    rules = r.rules;
    has_rules = r.has_rules;
    children = r.children;
    cached = r.cached;
    freed = e;
    mutex = r.mutex;
  }

  share_waf-Ready :
      (base : Option ℕ) (waf : ℕ) (w : Worker) → Ready w → Ready (share_waf base waf w)
  share_waf-Ready none waf w r = r
  share_waf-Ready (some d) waf w r =
      if-holds Ready ((w.dir_confs d).waf == 0) (λ _. set_waf-Ready d waf w r) (λ _. r)

  empty_waf-Freed :
      (before : ℕ) (h : LibHistory)
      → Freed lib h
      → let (waf, h') = empty_waf lib before h in Freed lib h'
  unfolding empty_waf
  empty_waf-Freed before h e = elim (Bool-cases (lib.handle h new_waf_config == 0)) [
    | inl null ↦ rw null (λ k. omega (arith, e k, one_at_null k (lib.handle h new_waf_config) null))
    | inr made ↦ rw made (λ k.
        let n = finish_waf_counts lib k (lib.handle h new_waf_config) (new_waf_config ∷ h) in
        omega (arith, n.0, n.1, e k, one_at_made k (lib.handle h new_waf_config) made))
  ]

  build_server_waf-Freed :
      (scf : ServerConf) (h : LibHistory)
      → Freed lib h
      → let (waf, h') = build_server_waf lib scf h in Freed lib h'
  unfolding build_server_waf
  build_server_waf-Freed scf h e = elim (Bool-cases (has_entries scf.rules)) [
    | inl some_rules ↦ rw some_rules (build_waf-BuiltFrom lib scf.rules h e).1
    | inr empty ↦ rw empty (empty_waf-Freed scf.waf h e)
  ]

  init_server-Ready :
      (base : Option ℕ) (k : ℕ) (c : Child)
      → Ready c.worker
      → Ready (init_server lib base k c).worker
  unfolding init_server
  init_server-Ready base k c r =
      let (waf, h) = build_server_waf lib (c.server_confs k) c.worker.calls in
      let freed = build_server_waf-Freed (c.server_confs k) c.worker.calls r.freed in
      if-holds (λ (x : Child). Ready x.worker) (waf == 0) (λ _. with_calls-Ready h c.worker freed r)
        (λ _.
          with_calls-Ready (rules_count waf ∷ h) _ freed
            (share_waf-Ready base waf _ (with_calls-Ready h c.worker freed r)))

  pub init_servers-Ready :
      (ss : List ServerRec) (c : Child) → Ready c.worker → Ready (init_servers lib ss c).worker
  unfolding init_servers
  init_servers-Ready [] c r = r
  init_servers-Ready (s ∷ ss) c r = init_servers-Ready ss _ (by_conf s.module_config)
    where
      by_conf :
          (m : Option ℕ)
          → Ready
              (elim m as (λ _. Child) [
                | none ↦ c
                | some k ↦ init_server lib s.lookup_defaults k c
              ]).worker
      by_conf none = r
      by_conf (some k) = init_server-Ready s.lookup_defaults k c r
