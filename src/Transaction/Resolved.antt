-- ===== src/Transaction/Resolved.antt =====
-- Which WAF a request of src/mod_coraza.c runs in: one that was built from the rules of its scope, or
-- the server's.
use coraza_apache.Base.{
  ℕ, List, Option, ◌≡◌, ◌∙◌, some, none, arith, Bool-cases, ◌==◌, inl, inr, refl, true, sym, false,
  Bytes, ◌∷◌, if-holds,
}
use coraza_apache.Transaction.{
  find_or_build, Worker, new_handle, transaction_call, chosen_waf, create_ctx, resolve_waf,
  wants_waf,
}
use coraza_apache.Library.{Lib, LibHistory}
use coraza_apache.Config.{RuleEntry}
use coraza_apache.Waf.Built.{BuiltFrom, opened, closed}
use coraza_apache.Transaction.Scopes.{Scope, ChildFits, find_or_build-Scope, eq_at}
use coraza_apache.Transaction.Children.{
  stored-ChildFits, find_or_build-ChildFits, find_or_build_mutex,
}

-- What the transaction's handle is, by the directory's WAF (`own`) and the server's: none where both
-- are null; what `own`, built from these rules and not null, was asked for; or what the server's was,
-- if `own` is null and the server's is not. The handle that libcoraza gives may be null too.
pub data Served (lib : Lib) (own server_waf : ℕ) (rules : List RuleEntry) : ℕ → Type 0 where
  refused : own ≡ 0 → server_waf ≡ 0 → Served lib own server_waf rules 0
  scoped :
      (h : LibHistory) (id : Option Bytes)
      → own == 0 ≡ false
      → BuiltFrom lib own rules
      → Served lib own server_waf rules (lib.handle h (transaction_call id own))
  fallen_back :
      (h : LibHistory) (id : Option Bytes)
      → own ≡ 0
      → server_waf == 0 ≡ false
      → Served lib own server_waf rules (lib.handle h (transaction_call id server_waf))

new_handle-Served :
    (lib : Lib) (i server_waf : ℕ) (rules : List RuleEntry) (w : Worker)
    → Scope lib i rules w
    → Served lib (w.dir_confs i).waf server_waf rules (new_handle lib i server_waf w).0
unfolding new_handle
new_handle-Served lib i server_waf rules w s = elim (Bool-cases ((w.dir_confs i).waf == 0)) [
  | inl no_waf ↦ elim (Bool-cases (server_waf == 0)) [
    | inl nowhere ↦ simp (no_waf, nowhere) (refused (eq_at _ 0 no_waf) (eq_at _ 0 nowhere))
    | inr served ↦
        simp (no_waf, served)
          (fallen_back w.calls (w.dir_confs i).transaction_id (eq_at _ 0 no_waf) served)
  ]
  | inr has_waf ↦ elim s.own [
    | inl null ↦ absurd (ground arith)
    | inr built ↦ simp has_waf (scoped w.calls (w.dir_confs i).transaction_id has_waf built)
  ]
]

pub new_handle_stores :
    (lib : Lib) (i server_waf : ℕ) (w : Worker)
    → (new_handle lib i server_waf w).1.dir_confs ≡ w.dir_confs
unfolding new_handle
new_handle_stores lib i server_waf w = elim (Bool-cases (chosen_waf i server_waf w == 0)) [
  | inl nowhere ↦ rw nowhere refl
  | inr found ↦ rw found refl
]

-- The same by the worker behind the call.
stored-Served :
    (lib : Lib) (i server_waf : ℕ) (rules : List RuleEntry) (w : Worker)
    → Scope lib i rules w
    → let (t, w') = new_handle lib i server_waf w in
      Served lib (w'.dir_confs i).waf server_waf rules t
stored-Served lib i server_waf rules w s =
    rw (new_handle_stores lib i server_waf w) (new_handle-Served lib i server_waf rules w s)

transaction_call_counts :
    (lib : Lib) (k : ℕ) (id : Option Bytes) (waf : ℕ) (h : LibHistory)
    → (opened lib k (transaction_call id waf ∷ h) ≡ opened lib k h)
      × (closed k (transaction_call id waf ∷ h) ≡ closed k h)
unfolding transaction_call
transaction_call_counts lib k none waf h = (refl, refl)
transaction_call_counts lib k (some id) waf h = (refl, refl)

new_handle-Scope :
    (lib : Lib) (i server_waf : ℕ) (rules : List RuleEntry) (w : Worker)
    → Scope lib i rules w
    → Scope lib i rules (new_handle lib i server_waf w).1
unfolding new_handle
new_handle-Scope lib i server_waf rules w s = elim (Bool-cases (chosen_waf i server_waf w == 0)) [
  | inl nowhere ↦ rw nowhere s
  | inr found ↦ rw found (record {
    own = s.own;
    same = s.same;
    cached = s.cached;
    freed = λ k.
        let counts =
          transaction_call_counts lib k (w.dir_confs i).transaction_id (chosen_waf i server_waf w)
            w.calls in
        counts.0 ∙ s.freed k ∙ sym counts.1;
  })
]

pub resolve_waf-find_or_build :
    (lib : Lib) (i : ℕ) (w : Worker)
    → wants_waf (w.dir_confs i) ≡ true
    → w.mutex ≡ true
    → resolve_waf lib i w ≡ some (find_or_build lib i w)
unfolding resolve_waf
resolve_waf-find_or_build lib i w wanted mutex = rw (wanted, mutex) refl

resolve_waf_settled :
    (lib : Lib) (i : ℕ) (w : Worker)
    → wants_waf (w.dir_confs i) ≡ false
    → resolve_waf lib i w ≡ some w
unfolding resolve_waf
resolve_waf_settled lib i w settled = rw settled refl

new_handle_mutex :
    (lib : Lib) (i server_waf : ℕ) (w : Worker) → (new_handle lib i server_waf w).1.mutex ≡ w.mutex
unfolding new_handle
new_handle_mutex lib i server_waf w =
    if-holds (λ (x : ℕ × Worker). x.1.mutex ≡ w.mutex) (chosen_waf i server_waf w == 0) (λ _. refl)
      (λ _. refl)

-- What a worker is for a scope with the stable child `stable`: its mutex exists, the scope has no WAF
-- from other rules, the cache is sound, no configuration is leaked, and the child has no WAF from
-- other rules either.
pub record Sane (lib : Lib) (i : ℕ) (stable : Option ℕ) (rules : List RuleEntry) (w : Worker)
    : Type 0 where
  pub mutex : w.mutex ≡ true
  pub scope : Scope lib i rules w
  pub child : ChildFits lib stable rules w

new_handle-Sane :
    (lib : Lib) (i server_waf : ℕ) (stable : Option ℕ) (rules : List RuleEntry) (w : Worker)
    → w.mutex ≡ true
    → Scope lib i rules w
    → ChildFits lib stable rules w
    → Sane lib i stable rules (new_handle lib i server_waf w).1
new_handle-Sane lib i server_waf stable rules w mutex s fit = record {
  mutex = new_handle_mutex lib i server_waf w ∙ mutex;
  scope = new_handle-Scope lib i server_waf rules w s;
  child = stored-ChildFits lib rules stable w _ (new_handle_stores lib i server_waf w) fit;
}

pub create_ctx_resolved :
    (lib : Lib) (i server_waf : ℕ) (w w' : Worker)
    → resolve_waf lib i w ≡ some w'
    → create_ctx lib i server_waf w ≡ some (new_handle lib i server_waf w')
unfolding create_ctx
create_ctx_resolved lib i server_waf w w' e = rw (e, create_ctx) refl

pub create_ctx-Served :
    (lib : Lib) (i server_waf : ℕ) (w : Worker)
    → w.mutex ≡ true
    → Scope lib i (w.dir_confs i).rules w
    → ChildFits lib (w.dir_confs i).merge_child (w.dir_confs i).rules w
    → (r : ℕ × Worker) × (create_ctx lib i server_waf w ≡ some r)
      × Served lib (r.1.dir_confs i).waf server_waf (w.dir_confs i).rules r.0
      × Sane lib i (w.dir_confs i).merge_child (w.dir_confs i).rules r.1
create_ctx-Served lib i server_waf w mutex s fit =
    let rules = (w.dir_confs i).rules in
    let child = (w.dir_confs i).merge_child in
    let s' = find_or_build-Scope lib i rules w s fit in
    let fit' = find_or_build-ChildFits lib rules i child w s fit fit in
    elim (Bool-cases (wants_waf (w.dir_confs i))) [
      | inl wanted ↦ (
        new_handle lib i server_waf (find_or_build lib i w),
        create_ctx_resolved lib i server_waf w _ (resolve_waf-find_or_build lib i w wanted mutex),
        stored-Served lib i server_waf rules _ s',
        new_handle-Sane lib i server_waf child rules _ (find_or_build_mutex lib i w ∙ mutex) s'
            fit',
      )
      | inr settled ↦ (
        new_handle lib i server_waf w,
        create_ctx_resolved lib i server_waf w _ (resolve_waf_settled lib i w settled),
        stored-Served lib i server_waf rules w s,
        new_handle-Sane lib i server_waf child rules w mutex s fit,
      )
    ]
