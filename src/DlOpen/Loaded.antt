-- ===== src/DlOpen/Loaded.antt =====
-- When `coraza_dl_open` of src/mod_coraza_dl.c succeeds, and what is loaded then.
use coraza_apache.DlOpen.{
  resolve_late, resolve_all, dl_syms, Loader, check_version, List, Bytes, dl_sym, Dl, ◌==◌, assign,
  ok, late_symbol, required_symbols, version, dl_open,
}
use coraza_apache.DlOpen.Wrappers.{
  HasAll, Bound, Exported-HasAll, HasAll-Exported, Resolved-Bound, Exported, Resolved,
  coraza_is_response_body_accessible,
}
use coraza_apache.Request.{http_internal_server_error, ok}
use coraza_apache.Base.{
  ◌==◌, Bytes, List, ◌≡◌, ◌∷◌, true, false, [], refl, ◌∙◌, ltb_ℤ, bytes_eq_iff, Bool-cases,
  if-holds, bytes_eq, inl, inr, arith, pos, ap, sym, Bool, ℤ, ◌⊎◌,
}

assign_self :
    (l : Loader) (n : Bytes) (dl : Dl) → (assign n (l.dynlib_sym n) dl).pointers n ≡ l.dynlib_sym n
assign_self l n dl = rw ((bytes_eq_iff n n).1 refl) refl

assign_other :
    (l : Loader) (n m : Bytes) (dl : Dl)
    → dl.pointers n ≡ l.dynlib_sym n
    → (assign m (l.dynlib_sym m) dl).pointers n ≡ l.dynlib_sym n
assign_other l n m dl e =
    if-holds (λ p. p ≡ l.dynlib_sym n) (bytes_eq n m)
      (λ same. ap l.dynlib_sym (sym ((bytes_eq_iff n m).0 same))) (λ _. e)

assign-Resolved :
    (l : Loader) (ns : List Bytes) (m : Bytes) (dl : Dl)
    → Resolved l ns dl
    → Resolved l ns (assign m (l.dynlib_sym m) dl)
assign-Resolved l [] m dl r = tt
assign-Resolved l (n ∷ ns) m dl (here, later) =
    (assign_other l n m dl here, assign-Resolved l ns m dl later)

-- A symbol that is already resolved stays so.
dl_syms-kept :
    (l : Loader) (ns : List Bytes) (m : Bytes) (dl : Dl)
    → dl.pointers m ≡ l.dynlib_sym m
    → (dl_syms l ns dl).1.pointers m ≡ l.dynlib_sym m
unfolding dl_syms dl_sym
dl_syms-kept l [] m dl e = e
dl_syms-kept l (n ∷ ns) m dl e = elim (Bool-cases (l.dynlib_sym n == 0)) [
  | inl missing ↦ rw missing (assign_other l m n dl e)
  | inr found ↦
      rw found (dl_syms-kept l ns m (assign n (l.dynlib_sym n) dl) (assign_other l m n dl e))
]

-- All are found exactly when all are exported; then the pointers are set and the handle is kept.
pub dl_syms-Exported :
    (l : Loader) (ns : List Bytes) (dl : Dl)
    → Exported l ns
    → let (all, dl') = dl_syms l ns dl in
      (all ≡ true) × Resolved l ns dl' × (dl'.dl_handle ≡ dl.dl_handle)
unfolding dl_syms dl_sym
dl_syms-Exported l [] dl e = (refl, tt, refl)
dl_syms-Exported l (n ∷ ns) dl (here, later) =
    let (all, resolved, kept) = dl_syms-Exported l ns (assign n (l.dynlib_sym n) dl) later in
    rw here (
      all,
      (dl_syms-kept l ns n (assign n (l.dynlib_sym n) dl) (assign_self l n dl), resolved),
      kept,
    )

Exported-dl_syms :
    (l : Loader) (ns : List Bytes) (dl : Dl) → (dl_syms l ns dl).0 ≡ true → Exported l ns
unfolding dl_syms dl_sym
Exported-dl_syms l [] dl e = tt
Exported-dl_syms l (n ∷ ns) dl e = elim (Bool-cases (l.dynlib_sym n == 0)) [
  | inl missing ↦ absurd (ground arith)
  | inr found ↦ (found, Exported-dl_syms l ns (assign n (l.dynlib_sym n) dl) (rw found at e))
]

-- A library that the module can use: it opens, exports the symbol of each wrapper, and is at least
-- 1.8.0.
pub record Usable (l : Loader) : Type 0 where
  pub opens : l.dynlib_open == 0 ≡ false
  pub exported : HasAll l
  pub new_enough : ltb_ℤ (version l) (pos 10800) ≡ false

-- A loaded library: its handle, and a pointer for each wrapper.
pub record AllSet (l : Loader) (dl : Dl) : Type 0 where
  pub handle : dl.dl_handle ≡ l.dynlib_open
  pub bound : Bound l dl

resolve_late-AllSet :
    (l : Loader) (dl : Dl)
    → l.dynlib_sym late_symbol == 0 ≡ false
    → dl.dl_handle ≡ l.dynlib_open
    → Resolved l required_symbols dl
    → ((resolve_late l dl).0 ≡ ok) × AllSet l (resolve_late l dl).1
unfolding resolve_late dl_sym
resolve_late-AllSet l dl found kept resolved = rw found (
  refl,
  record {
    handle = kept;
    bound =
        Resolved-Bound l (assign late_symbol (l.dynlib_sym late_symbol) dl)
          (assign-Resolved l required_symbols late_symbol dl resolved)
          (assign_self l late_symbol dl);
  },
)

check_version-AllSet :
    (l : Loader) (dl : Dl)
    → Usable l
    → dl.dl_handle ≡ l.dynlib_open
    → Resolved l required_symbols dl
    → ((check_version l dl).0 ≡ ok) × AllSet l (check_version l dl).1
unfolding check_version
check_version-AllSet l dl u kept resolved =
    rw u.new_enough
      (resolve_late-AllSet l dl (u.exported coraza_is_response_body_accessible) kept resolved)

resolve_all-AllSet :
    (l : Loader) (dl : Dl)
    → Usable l
    → dl.dl_handle ≡ l.dynlib_open
    → ((resolve_all l dl).0 ≡ ok) × AllSet l (resolve_all l dl).1
unfolding resolve_all
resolve_all-AllSet l dl u opened =
    let (all, resolved, kept) =
      dl_syms-Exported l required_symbols dl (HasAll-Exported l u.exported) in
    rw all (check_version-AllSet l _ u (kept ∙ opened) resolved)

-- What a part of the loading answers: `OK` with everything set, or 500 for a library that will not do.
abbrev pub Answers : Loader → ℤ × Dl → Type 0
Answers l (status, dl) =
    ((status ≡ ok) × Usable l × AllSet l dl)
    ⊎ ((status ≡ http_internal_server_error) × (Usable l → ⊥))

clash : {b : Bool} → b ≡ true → b ≡ false → ⊥
clash {b} h k = absurd (ground arith)

dl_open-AllSet :
    (l : Loader) (dl : Dl)
    → dl.dl_handle ≡ 0
    → Usable l
    → ((dl_open l dl).0 ≡ ok) × AllSet l (dl_open l dl).1
unfolding dl_open
dl_open-AllSet l dl closed u = simp (closed, u.opens) (resolve_all-AllSet l _ u refl)

-- From an unloaded library, `coraza_dl_open` returns `OK` exactly when the library opens, exports the
-- symbols of all 32 wrapper functions and reports at least 1.8.0, and then the handle and the pointer
-- of every wrapper is set to what the loader gave; in every other case it returns 500.
pub dl_open-Answers : (l : Loader) (dl : Dl) → dl.dl_handle ≡ 0 → Answers l (dl_open l dl)
unfolding dl_open resolve_all check_version resolve_late dl_sym
dl_open-Answers l dl closed = elim (Bool-cases (l.dynlib_open == 0)) [
  | inl missing ↦ simp (closed, missing) (inr (refl, λ u. clash missing u.opens))
  | inr opened ↦
      let dl1 = record dl { dl_handle = l.dynlib_open } in
      elim (Bool-cases (dl_syms l required_symbols dl1).0) [
        | inr stopped ↦
            simp (closed, opened, stopped)
              (inr (
                refl,
                λ u.
                    clash (dl_syms-Exported l required_symbols dl1 (HasAll-Exported l u.exported)).0
                      stopped,
              ))
        | inl all ↦ elim (Bool-cases (ltb_ℤ (version l) (pos 10800))) [
          | inl old ↦ simp (closed, opened, all, old) (inr (refl, λ u. clash old u.new_enough))
          | inr recent ↦ elim (Bool-cases (l.dynlib_sym late_symbol == 0)) [
            | inl absent ↦
                simp (closed, opened, all, recent, absent)
                  (inr (refl, λ u. clash absent (u.exported coraza_is_response_body_accessible)))
            | inr present ↦
                let u : Usable l = record {
                  opens = opened;
                  exported =
                      Exported-HasAll l (Exported-dl_syms l required_symbols dl1 all) present;
                  new_enough = recent;
                } in
                let (done, loaded) = dl_open-AllSet l dl closed u in inl (done, u, loaded)
          ]
        ]
      ]
]
