-- ===== src/Transaction/Stale.antt =====
-- What `coraza_create_ctx` of src/mod_coraza.c leaves in the stable child of a merge, and what the
-- next merge over that child takes from it.
use coraza_apache.Base.{
  ℕ, ◌==◌, Bool, ◌≡◌, some, if◌then◌else◌, false, ◌∙◌, Bool-cases, arith, inl, ap, refl, sym, true,
  inr, Option,
}
use coraza_apache.Transaction.{
  take_from_cache, find_or_build, take_from_child, build_new, Worker, Lib, set_child_waf, set_waf,
  waf_cache_find, lacks_waf, rules_hash, has_entries, new_handle, DirConf, build_waf, wants_waf,
  create_ctx, Cache,
}
use coraza_apache.Library.{Lib, LibHistory}
use coraza_apache.WafCache.{waf_cache_find, rules_hash, Cache}
use coraza_apache.Transaction.Resolved.{
  create_ctx_resolved, resolve_waf-find_or_build, new_handle_stores,
}
use coraza_apache.Transaction.Scopes.{set_waf-waf, eq_at, set_waf-rules}
use coraza_apache.Merge.{has_entries, merge_dir_conf}
use coraza_apache.Config.{DirConf}
use coraza_apache.Waf.{build_waf}

set_waf_elsewhere :
    (i k waf : ℕ) (w : Worker)
    → i == k ≡ false
    → ((set_waf k waf w).dir_confs i).waf ≡ (w.dir_confs i).waf
set_waf_elsewhere i k waf w e = rw e refl

set_waf_child :
    (i k waf : ℕ) (w : Worker)
    → ((set_waf k waf w).dir_confs i).merge_child ≡ (w.dir_confs i).merge_child
set_waf_child i k waf w = elim (Bool-cases (i == k)) [
  | inl here ↦ rw here (ap (λ j. (w.dir_confs j).merge_child) (sym (eq_at i k here)))
  | inr elsewhere ↦ rw elsewhere refl
]

-- A configuration with its stable child, which has entries.
pub record Linked (i c : ℕ) (w : Worker) : Type 0 where
  pub apart : i == c ≡ false
  pub linked : (w.dir_confs i).merge_child ≡ some c
  pub entries : has_entries (w.dir_confs c).rules ≡ true

abbrev Shared : ℕ → ℕ → Worker → Type 0
Shared i c w = Linked i c w × ((w.dir_confs c).waf ≡ (w.dir_confs i).waf)

set_waf-Linked : (i c k waf : ℕ) (w : Worker) → Linked i c w → Linked i c (set_waf k waf w)
set_waf-Linked i c k waf w s = record {
  apart = s.apart;
  linked = set_waf_child i k waf w ∙ s.linked;
  entries = ap has_entries (set_waf-rules c k waf w) ∙ s.entries;
}

flipped : (i c : ℕ) → i == c ≡ false → c == i ≡ false
flipped i c e = ground arith

take_from_child-Shared :
    (i c : ℕ) (w : Worker) → Linked i c w → Shared i c (take_from_child i (some c) w)
unfolding take_from_child
take_from_child-Shared i c w s = (
  set_waf-Linked i c i _ w s,
  set_waf_elsewhere c i _ w (flipped i c s.apart) ∙ sym (set_waf-waf i (w.dir_confs c).waf w),
)

stable_take :
    (i c : ℕ) (m : Option ℕ) (w : Worker)
    → m ≡ some c
    → Linked i c w
    → Shared i c (take_from_child i m w)
stable_take i c m w e s = rw e (take_from_child-Shared i c w s)

both-Shared :
    (i c waf : ℕ) (w : Worker)
    → Linked i c w
    → (w.dir_confs i).waf ≡ waf
    → Shared i c (set_waf c waf w)
both-Shared i c waf w s e = (
  set_waf-Linked i c c waf w s,
  set_waf-waf c waf w ∙ sym e ∙ sym (set_waf_elsewhere i c waf w s.apart),
)

set_child_waf-Shared :
    (i c waf : ℕ) (m : Option ℕ) (w : Worker)
    → m ≡ some c
    → Linked i c w
    → (w.dir_confs i).waf ≡ waf
    → Shared i c (set_child_waf m waf w)
unfolding set_child_waf
set_child_waf-Shared i c waf m w e s here = rw e (both-Shared i c waf w s here)

take_from_cache-Shared : (i c : ℕ) (w : Worker) → Shared i c w → Shared i c (take_from_cache i w)
unfolding take_from_cache
take_from_cache-Shared i c w s =
    let found = waf_cache_find (rules_hash (w.dir_confs i).rules) (w.dir_confs i).rules w.cache in
    elim (Bool-cases (found == 0)) [
      | inl miss ↦ rw miss s
      | inr hit ↦ rw hit (
          set_child_waf-Shared i c found (w.dir_confs i).merge_child (set_waf i found w) s.0.linked
            (set_waf-Linked i c i found w s.0) (set_waf-waf i found w))
    ]

-- A worker that went on to `calls` and `cache`.
stored-Shared :
    (i c waf : ℕ) (m : Option ℕ) (calls : LibHistory) (cache : Cache) (w : Worker)
    → m ≡ some c
    → Linked i c w
    → Shared i c (
        set_child_waf m waf (record (set_waf i waf (record w { calls = calls })) { cache = cache }))
stored-Shared i c waf m calls cache w e s =
    set_child_waf-Shared i c waf m _ e
      (record {
        apart = s.apart;
        linked = set_waf_child i i waf w ∙ s.linked;
        entries = ap has_entries (set_waf-rules c i waf w) ∙ s.entries;
      })
      (set_waf-waf i waf w)

build_new-Shared :
    (lib : Lib) (i c : ℕ) (w : Worker) → Shared i c w → Shared i c (build_new lib i w)
unfolding build_new
build_new-Shared lib i c w s =
    let (waf, calls) = build_waf lib (w.dir_confs i).rules w.calls in
    elim (Bool-cases (waf == 0)) [
      | inl failed ↦
          rw failed
            (stored-Shared i c waf (w.dir_confs i).merge_child calls w.cache w s.0.linked s.0)
      | inr built ↦
          rw built (stored-Shared i c waf (w.dir_confs i).merge_child calls _ w s.0.linked s.0)
    ]

if-Shared :
    (i c : ℕ) (b : Bool) (x y : Worker)
    → Shared i c x
    → Shared i c y
    → Shared i c (if b then x else y)
if-Shared i c true x y s t = s
if-Shared i c false x y s t = t

find_or_build-Shared :
    (lib : Lib) (i c : ℕ) (w : Worker) → Linked i c w → Shared i c (find_or_build lib i w)
unfolding find_or_build
find_or_build-Shared lib i c w s =
    let w1 = take_from_child i (w.dir_confs i).merge_child w in
    let s1 : Shared i c w1 = stable_take i c (w.dir_confs i).merge_child w s.linked s in
    let w2 = if lacks_waf i w1 then take_from_cache i w1 else w1 in
    let s2 = if-Shared i c (lacks_waf i w1) _ w1 (take_from_cache-Shared i c w1 s1) s1 in
    if-Shared i c (lacks_waf i w2) _ w2 (build_new-Shared lib i c w2 s2) s2

merge_takes_child :
    (c : ℕ) (p d : DirConf)
    → has_entries p.rules ≡ true
    → has_entries d.rules ≡ true
    → (merge_dir_conf c p d).waf ≡ d.waf
unfolding merge_dir_conf
merge_takes_child c p d hp hd = simp (hp, hd) refl

-- If a request resolves the WAF of a configuration that was merged over a stable child `c` with
-- rules, then a later merge of any parent with rules over `c` gets that same WAF, whatever the
-- parent's rules are.
pub merge_dir_conf-create_ctx :
    (lib : Lib) (i c server_waf : ℕ) (w : Worker) (parent : DirConf)
    → w.mutex ≡ true
    → wants_waf (w.dir_confs i) ≡ true
    → Linked i c w
    → has_entries parent.rules ≡ true
    → (r : ℕ × Worker) × (create_ctx lib i server_waf w ≡ some r)
      × ((merge_dir_conf c parent (r.1.dir_confs c)).waf ≡ (r.1.dir_confs i).waf)
merge_dir_conf-create_ctx lib i c server_waf w parent mutex wanted s entries =
    let w' = find_or_build lib i w in
    let (linked, shared) = find_or_build-Shared lib i c w s in
    (
      new_handle lib i server_waf w',
      create_ctx_resolved lib i server_waf w _ (resolve_waf-find_or_build lib i w wanted mutex),
      rw (new_handle_stores lib i server_waf w')
          (merge_takes_child c parent (w'.dir_confs c) entries linked.entries ∙ shared),
    )
