-- ===== src/Transaction/Children.antt =====
-- The three ways to a WAF in `coraza_create_ctx` of src/mod_coraza.c give no other directory
-- configuration, so not the stable child, a WAF from other rules.
use coraza_apache.Base.{
  ℕ, List, ◌≡◌, Option, some, none, Bool-cases, if-holds, ◌==◌, inl, inr, ◌∙◌, if◌then◌else◌, refl,
}
use coraza_apache.Transaction.Scopes.{
  Fit, Scope, ChildFits, build_waf-Fit, take_from_child-Scope, waf_cache_find-Fit, if-Scope,
  take_from_cache-Scope,
}
use coraza_apache.Library.{Lib, LibHistory}
use coraza_apache.Transaction.{
  set_child_waf, take_from_cache, take_from_child, find_or_build, build_new, Worker, waf_cache_find,
  set_waf, build_waf, rules_hash, lacks_waf,
}
use coraza_apache.Config.{RuleEntry}
use coraza_apache.Waf.Built.{Freed}
use coraza_apache.WafCache.{waf_cache_find, rules_hash}
use coraza_apache.Waf.{build_waf}

-- The configuration `j` has no WAF, or one from these rules.
abbrev FitAt : Lib → List RuleEntry → ℕ → Worker → Type 0
FitAt lib rules j w = Fit lib (w.dir_confs j).waf rules

set_waf-FitAt :
    (lib : Lib) (rules : List RuleEntry) (j k waf : ℕ) (w : Worker)
    → Fit lib waf rules
    → FitAt lib rules j w
    → FitAt lib rules j (set_waf k waf w)
set_waf-FitAt lib rules j k waf w fit h = elim (Bool-cases (j == k)) [
  | inl here ↦ rw here fit
  | inr elsewhere ↦ rw elsewhere h
]

set_child_waf-FitAt :
    (lib : Lib) (rules : List RuleEntry) (j : ℕ) (c : Option ℕ) (waf : ℕ) (w : Worker)
    → Fit lib waf rules
    → FitAt lib rules j w
    → FitAt lib rules j (set_child_waf c waf w)
unfolding set_child_waf
set_child_waf-FitAt lib rules j none waf w fit h = h
set_child_waf-FitAt lib rules j (some c) waf w fit h = set_waf-FitAt lib rules j c waf w fit h

take_from_child-FitAt :
    (lib : Lib) (rules : List RuleEntry) (i j : ℕ) (c : Option ℕ) (w : Worker)
    → ChildFits lib c rules w
    → FitAt lib rules j w
    → FitAt lib rules j (take_from_child i c w)
unfolding take_from_child
take_from_child-FitAt lib rules i j none w fit h = h
take_from_child-FitAt lib rules i j (some c) w fit h = set_waf-FitAt lib rules j i _ w fit h

take_from_cache-FitAt :
    (lib : Lib) (rules : List RuleEntry) (i j : ℕ) (w : Worker)
    → Scope lib i rules w
    → FitAt lib rules j w
    → FitAt lib rules j (take_from_cache i w)
unfolding take_from_cache
take_from_cache-FitAt lib rules i j w s h =
    let found = waf_cache_find (rules_hash (w.dir_confs i).rules) (w.dir_confs i).rules w.cache in
    let fit = waf_cache_find-Fit lib i rules w s in
    if-holds (FitAt lib rules j) (found == 0) (λ _. h)
      (λ _.
        set_child_waf-FitAt lib rules j (w.dir_confs i).merge_child found (set_waf i found w) fit
          (set_waf-FitAt lib rules j i found w fit h))

own_rules-Fit :
    (lib : Lib) (rs rules : List RuleEntry) (h : LibHistory)
    → rs ≡ rules
    → Freed lib h
    → Fit lib (build_waf lib rs h).0 rules
own_rules-Fit lib rs rules h e freed = rw e (build_waf-Fit lib rules h freed)

build_new-FitAt :
    (lib : Lib) (rules : List RuleEntry) (i j : ℕ) (w : Worker)
    → Scope lib i rules w
    → FitAt lib rules j w
    → FitAt lib rules j (build_new lib i w)
unfolding build_new
build_new-FitAt lib rules i j w s h =
    let dcf = w.dir_confs i in
    let waf = (build_waf lib dcf.rules w.calls).0 in
    let fit = own_rules-Fit lib dcf.rules rules w.calls s.same s.freed in
    let stored = set_waf-FitAt lib rules j i waf w fit h in
    set_child_waf-FitAt lib rules j dcf.merge_child waf _ fit
      (if-holds (FitAt lib rules j) (waf == 0) (λ _. stored) (λ _. stored))

find_or_build-FitAt :
    (lib : Lib) (rules : List RuleEntry) (i j : ℕ) (w : Worker)
    → Scope lib i rules w
    → ChildFits lib (w.dir_confs i).merge_child rules w
    → FitAt lib rules j w
    → FitAt lib rules j (find_or_build lib i w)
unfolding find_or_build
find_or_build-FitAt lib rules i j w s fit h =
    let c = (w.dir_confs i).merge_child in
    let w1 = take_from_child i c w in
    let s1 = take_from_child-Scope lib i c rules w s fit in
    let h1 = take_from_child-FitAt lib rules i j c w fit h in
    let w2 = if lacks_waf i w1 then take_from_cache i w1 else w1 in
    let s2 =
      if-Scope lib i rules (lacks_waf i w1) _ w1 (take_from_cache-Scope lib i rules w1 s1) s1 in
    let h2 =
      if-holds (FitAt lib rules j) (lacks_waf i w1)
        (λ _. take_from_cache-FitAt lib rules i j w1 s1 h1) (λ _. h1) in
    if-holds (FitAt lib rules j) (lacks_waf i w2) (λ _. build_new-FitAt lib rules i j w2 s2 h2)
      (λ _. h2)

pub find_or_build-ChildFits :
    (lib : Lib) (rules : List RuleEntry) (i : ℕ) (c : Option ℕ) (w : Worker)
    → Scope lib i rules w
    → ChildFits lib (w.dir_confs i).merge_child rules w
    → ChildFits lib c rules w
    → ChildFits lib c rules (find_or_build lib i w)
find_or_build-ChildFits lib rules i none w s fit h = tt
find_or_build-ChildFits lib rules i (some c) w s fit h = find_or_build-FitAt lib rules i c w s fit h

set_child_waf_mutex :
    (c : Option ℕ) (waf : ℕ) (w : Worker) → (set_child_waf c waf w).mutex ≡ w.mutex
unfolding set_child_waf
set_child_waf_mutex none waf w = refl
set_child_waf_mutex (some c) waf w = refl

take_from_child_mutex :
    (i : ℕ) (c : Option ℕ) (w : Worker) → (take_from_child i c w).mutex ≡ w.mutex
unfolding take_from_child
take_from_child_mutex i none w = refl
take_from_child_mutex i (some c) w = refl

take_from_cache_mutex : (i : ℕ) (w : Worker) → (take_from_cache i w).mutex ≡ w.mutex
unfolding take_from_cache
take_from_cache_mutex i w =
    let found = waf_cache_find (rules_hash (w.dir_confs i).rules) (w.dir_confs i).rules w.cache in
    if-holds (λ (x : Worker). x.mutex ≡ w.mutex) (found == 0) (λ _. refl)
      (λ _. set_child_waf_mutex (w.dir_confs i).merge_child found (set_waf i found w))

build_new_mutex : (lib : Lib) (i : ℕ) (w : Worker) → (build_new lib i w).mutex ≡ w.mutex
unfolding build_new
build_new_mutex lib i w =
    set_child_waf_mutex (w.dir_confs i).merge_child _ _
    ∙ if-holds (λ (x : Worker). x.mutex ≡ w.mutex)
        ((build_waf lib (w.dir_confs i).rules w.calls).0 == 0) (λ _. refl) (λ _. refl)

pub find_or_build_mutex : (lib : Lib) (i : ℕ) (w : Worker) → (find_or_build lib i w).mutex ≡ w.mutex
unfolding find_or_build
find_or_build_mutex lib i w =
    let child = (w.dir_confs i).merge_child in
    let w1 = take_from_child i child w in
    let w2 = if lacks_waf i w1 then take_from_cache i w1 else w1 in
    let e1 = take_from_child_mutex i child w in
    let e2 =
      if-holds (λ (x : Worker). x.mutex ≡ w.mutex) (lacks_waf i w1)
        (λ _. take_from_cache_mutex i w1 ∙ e1) (λ _. e1) in
    if-holds (λ (x : Worker). x.mutex ≡ w.mutex) (lacks_waf i w2)
      (λ _. build_new_mutex lib i w2 ∙ e2) (λ _. e2)

pub stored-ChildFits :
    (lib : Lib) (rules : List RuleEntry) (c : Option ℕ) (w w' : Worker)
    → w'.dir_confs ≡ w.dir_confs
    → ChildFits lib c rules w
    → ChildFits lib c rules w'
stored-ChildFits lib rules none w w' e h = tt
stored-ChildFits lib rules (some c) w w' e h = rw e h
