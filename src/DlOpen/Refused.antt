-- ===== src/DlOpen/Refused.antt =====
-- After a library that is too old was refused: `coraza_dl_open` of src/mod_coraza_dl.c.
use coraza_apache.DlOpen.{
  dl_open, resolve_all, check_version, Loader, ◌==◌, required_symbols, version, unloaded,
  http_internal_server_error, ok, late_symbol, dl_syms, Dl, dl_sym, assign,
}
use coraza_apache.Base.{
  ◌==◌, ◌≡◌, false, ltb_ℤ, pos, true, Bytes, bytes_eq, List, ap, ◌∷◌, Bool, ◌∙◌, arith, refl, not,
  ◌&&◌, [], Bool-cases, inl, inr,
}
use coraza_apache.DlOpen.Wrappers.{Exported}
use coraza_apache.DlOpen.Loaded.{dl_syms-Exported}
use coraza_apache.Request.{http_internal_server_error, ok}

not_among : Bytes → List Bytes → Bool
not_among m [] = true
not_among m (n ∷ ns) = not (bytes_eq m n) && not_among m ns

dl_syms_untouched :
    (l : Loader) (ns : List Bytes) (m : Bytes) (dl : Dl)
    → not_among m ns ≡ true
    → (dl_syms l ns dl).1.pointers m ≡ dl.pointers m
unfolding dl_syms dl_sym not_among
dl_syms_untouched l [] m dl h = refl
dl_syms_untouched l (n ∷ ns) m dl h =
    let other : bytes_eq m n ≡ false = ground arith in
    let rest = dl_syms_untouched l ns m (assign n (l.dynlib_sym n) dl) (ground arith) in
    elim (Bool-cases (l.dynlib_sym n == 0)) [
      | inl missing ↦ rw missing (rw other refl)
      | inr found ↦ rw found (rest ∙ rw other refl)
    ]

late_not_required : not_among late_symbol required_symbols ≡ true
unfolding not_among bytes_eq
late_not_required = refl

-- The statics behind the required symbols.
abbrev refused : Loader → Dl
refused l = (dl_syms l required_symbols (record unloaded { dl_handle = l.dynlib_open })).1

refused_once :
    (l : Loader)
    → l.dynlib_open == 0 ≡ false
    → Exported l required_symbols
    → ltb_ℤ (version l) (pos 10800) ≡ true
    → dl_open l unloaded ≡ (http_internal_server_error, refused l)
unfolding dl_open resolve_all check_version
refused_once l opened exported old =
    let (all, resolved, kept) =
      dl_syms-Exported l required_symbols (record unloaded { dl_handle = l.dynlib_open })
        exported in
    simp (opened, all, old) refl

loaded_again : (l : Loader) (dl : Dl) → dl.dl_handle == 0 ≡ false → dl_open l dl ≡ (ok, dl)
unfolding dl_open
loaded_again l dl h = simp h refl

-- A library that opens and exports the symbols in front of the version test, but is older than 1.8.0,
-- is refused with 500, and the handle stays set: asked again, `coraza_dl_open` answers `OK`, although
-- the pointer of the symbol behind the version test was never set.
pub dl_open_again :
    (l : Loader)
    → l.dynlib_open == 0 ≡ false
    → Exported l required_symbols
    → ltb_ℤ (version l) (pos 10800) ≡ true
    → let (status, dl) = dl_open l unloaded in
      let (again, dl') = dl_open l dl in
      (status ≡ http_internal_server_error) × (again ≡ ok) × (dl'.pointers late_symbol ≡ 0)
dl_open_again l opened exported old =
    let (all, resolved, kept) =
      dl_syms-Exported l required_symbols (record unloaded { dl_handle = l.dynlib_open })
        exported in
    let once = refused_once l opened exported old in
    let again = loaded_again l (refused l) (ap (λ h. h == 0) kept ∙ opened) in
    rw (once, again)
      (
        refl,
        refl,
        dl_syms_untouched l required_symbols late_symbol
            (record unloaded { dl_handle = l.dynlib_open }) late_not_required,
      )
