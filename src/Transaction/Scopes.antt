-- ===== src/Transaction/Scopes.antt =====
-- The three ways to a WAF in `coraza_create_ctx` of src/mod_coraza.c keep it one of its scope's rules.
use coraza_apache.Base.{
  ℕ, List, Option, ◌≡◌, ◌∙◌, some, none, arith, Bool-cases, ◌⊎◌, ◌==◌, inl, inr, refl,
  if◌then◌else◌, true, ap, Bool, sym, false,
}
use coraza_apache.WafCache.{waf_cache_find, rules_hash, Cache}
use coraza_apache.Transaction.{
  set_child_waf, take_from_child, find_or_build, build_new, take_from_cache, Worker, set_waf,
  rules_hash, build_waf, Cache, lacks_waf,
}
use coraza_apache.Library.{Lib, LibHistory}
use coraza_apache.Config.{RuleEntry}
use coraza_apache.WafCache.Sound.{Sound, find_entry-AllBuilt, waf_cache_add-Sound}
use coraza_apache.Waf.Built.{BuiltFrom, build_waf-BuiltFrom, Freed}
use coraza_apache.Waf.{build_waf}

-- No WAF yet, or one built from these rules.
abbrev pub Fit : Lib → ℕ → List RuleEntry → Type 0
Fit lib waf rules = (waf ≡ 0) ⊎ BuiltFrom lib waf rules

-- A scope whose WAF is its own, in a worker whose cache is sound and which leaks no configuration.
pub record Scope (lib : Lib) (i : ℕ) (rules : List RuleEntry) (w : Worker) : Type 0 where
  pub own : Fit lib (w.dir_confs i).waf rules
  pub same : (w.dir_confs i).rules ≡ rules
  pub cached : Sound (BuiltFrom lib) w.cache
  pub freed : Freed lib w.calls

-- The WAF of the stable child, where there is one, is from the rules of the scope too.
abbrev pub ChildFits : Lib → Option ℕ → List RuleEntry → Worker → Type 0
ChildFits lib none rules w = Unit
ChildFits lib (some c) rules w = Fit lib (w.dir_confs c).waf rules

pub set_waf-waf : (i waf : ℕ) (w : Worker) → ((set_waf i waf w).dir_confs i).waf ≡ waf
set_waf-waf i waf w = ground arith

pub eq_at : (i k : ℕ) → i == k ≡ true → i ≡ k
eq_at i k e = ground arith

pub set_waf-rules :
    (i k waf : ℕ) (w : Worker) → ((set_waf k waf w).dir_confs i).rules ≡ (w.dir_confs i).rules
set_waf-rules i k waf w = elim (Bool-cases (i == k)) [
  | inl here ↦ rw here (ap (λ j. (w.dir_confs j).rules) (sym (eq_at i k here)))
  | inr elsewhere ↦ rw elsewhere refl
]

set_waf-Scope :
    (lib : Lib) (i waf : ℕ) (rules : List RuleEntry) (w : Worker)
    → Scope lib i rules w
    → Fit lib waf rules
    → Scope lib i rules (set_waf i waf w)
set_waf-Scope lib i waf rules w s fit = record {
  own = rw (set_waf-waf i waf w) fit;
  same = set_waf-rules i i waf w ∙ s.same;
  cached = s.cached;
  freed = s.freed;
}

other_waf-Scope :
    (lib : Lib) (i c waf : ℕ) (rules : List RuleEntry) (w : Worker)
    → Scope lib i rules w
    → Fit lib waf rules
    → Scope lib i rules (set_waf c waf w)
other_waf-Scope lib i c waf rules w s fit = record {
  own = elim (Bool-cases (i == c)) [ inl here ↦ rw here fit | inr elsewhere ↦ rw elsewhere s.own ];
  same = set_waf-rules i c waf w ∙ s.same;
  cached = s.cached;
  freed = s.freed;
}

set_child_waf-Scope :
    (lib : Lib) (i : ℕ) (c : Option ℕ) (waf : ℕ) (rules : List RuleEntry) (w : Worker)
    → Scope lib i rules w
    → Fit lib waf rules
    → Scope lib i rules (set_child_waf c waf w)
unfolding set_child_waf
set_child_waf-Scope lib i none waf rules w s fit = s
set_child_waf-Scope lib i (some c) waf rules w s fit = other_waf-Scope lib i c waf rules w s fit

pub take_from_child-Scope :
    (lib : Lib) (i : ℕ) (c : Option ℕ) (rules : List RuleEntry) (w : Worker)
    → Scope lib i rules w
    → ChildFits lib c rules w
    → Scope lib i rules (take_from_child i c w)
unfolding take_from_child
take_from_child-Scope lib i none rules w s fit = s
take_from_child-Scope lib i (some c) rules w s fit = set_waf-Scope lib i _ rules w s fit

pub waf_cache_find-Fit :
    (lib : Lib) (i : ℕ) (rules : List RuleEntry) (w : Worker)
    → Scope lib i rules w
    → Fit lib
        (waf_cache_find (rules_hash (w.dir_confs i).rules) (w.dir_confs i).rules w.cache)
        rules
unfolding waf_cache_find
waf_cache_find-Fit lib i rules w s = rw s.same (
    find_entry-AllBuilt (BuiltFrom lib) (rules_hash rules) rules w.cache.entries s.cached.all_built)

pub take_from_cache-Scope :
    (lib : Lib) (i : ℕ) (rules : List RuleEntry) (w : Worker)
    → Scope lib i rules w
    → Scope lib i rules (take_from_cache i w)
unfolding take_from_cache
take_from_cache-Scope lib i rules w s =
    let found = waf_cache_find (rules_hash (w.dir_confs i).rules) (w.dir_confs i).rules w.cache in
    elim (Bool-cases (found == 0)) [
      | inl miss ↦ rw miss s
      | inr hit ↦
          let fit = waf_cache_find-Fit lib i rules w s in
          rw hit (
            set_child_waf-Scope lib i (w.dir_confs i).merge_child found rules (set_waf i found w)
              (set_waf-Scope lib i found rules w s fit) fit)
    ]

pub build_waf-Fit :
    (lib : Lib) (rules : List RuleEntry) (h : LibHistory)
    → Freed lib h
    → Fit lib (build_waf lib rules h).0 rules
build_waf-Fit lib rules h e = (build_waf-BuiltFrom lib rules h e).0

pub if-Scope :
    (lib : Lib) (i : ℕ) (rules : List RuleEntry) (b : Bool) (x y : Worker)
    → Scope lib i rules x
    → Scope lib i rules y
    → Scope lib i rules (if b then x else y)
if-Scope lib i rules true x y s t = s
if-Scope lib i rules false x y s t = t

-- A worker that went on to `calls` and `cache`, with `waf` in the directory configuration.
stored-Scope :
    (lib : Lib) (i waf : ℕ) (rules : List RuleEntry) (calls : LibHistory) (cache : Cache)
    (w : Worker)
    → Scope lib i rules w
    → Fit lib waf rules
    → Freed lib calls
    → Sound (BuiltFrom lib) cache
    → Scope lib i rules (record (set_waf i waf (record w { calls = calls })) { cache = cache })
stored-Scope lib i waf rules calls cache w s fit freed cached = record {
  own = rw (set_waf-waf i waf w) fit;
  same = set_waf-rules i i waf w ∙ s.same;
  cached = cached;
  freed = freed;
}

same_rules :
    (lib : Lib) (waf : ℕ) (rs rules : List RuleEntry)
    → rs ≡ rules
    → BuiltFrom lib waf rs
    → BuiltFrom lib waf rules
same_rules lib waf rs rules e b = rw (← e) b

build_new-Scope :
    (lib : Lib) (i : ℕ) (rules : List RuleEntry) (w : Worker)
    → Scope lib i rules w
    → Scope lib i rules (build_new lib i w)
unfolding build_new
build_new-Scope lib i rules w s =
    let dcf = w.dir_confs i in
    let waf = (build_waf lib dcf.rules w.calls).0 in
    let (outcome, freed) = build_waf-BuiltFrom lib dcf.rules w.calls s.freed in
    elim outcome [
      | inl failed ↦ rw failed (
          set_child_waf-Scope lib i dcf.merge_child 0 rules _
            (stored-Scope lib i 0 rules _ w.cache w s (inl refl) freed s.cached) (inl refl))
      | inr built ↦
          let fit : Fit lib waf rules = inr (same_rules lib waf dcf.rules rules s.same built) in
          set_child_waf-Scope lib i dcf.merge_child waf rules _
            (if-Scope lib i rules (waf == 0) _ _
              (stored-Scope lib i waf rules _ w.cache w s fit freed s.cached)
              (stored-Scope lib i waf rules _ _ w s fit freed (
                waf_cache_add-Sound (BuiltFrom lib) (rules_hash dcf.rules) dcf.rules waf w.cache
                  s.cached built)))
            fit
    ]

pub find_or_build-Scope :
    (lib : Lib) (i : ℕ) (rules : List RuleEntry) (w : Worker)
    → Scope lib i rules w
    → ChildFits lib (w.dir_confs i).merge_child rules w
    → Scope lib i rules (find_or_build lib i w)
unfolding find_or_build
find_or_build-Scope lib i rules w s fit =
    let w1 = take_from_child i (w.dir_confs i).merge_child w in
    let s1 = take_from_child-Scope lib i (w.dir_confs i).merge_child rules w s fit in
    let w2 = if lacks_waf i w1 then take_from_cache i w1 else w1 in
    let s2 =
      if-Scope lib i rules (lacks_waf i w1) _ w1 (take_from_cache-Scope lib i rules w1 s1) s1 in
    if-Scope lib i rules (lacks_waf i w2) _ w2 (build_new-Scope lib i rules w2 s2) s2
