-- ===== src/DlOpen/Examples.antt =====
-- A library of version 1.8.0, and one of 1.7.0.
use coraza_apache.DlOpen.{
  dl_open, Loader, pos, resolve_all, unloaded, dl_syms, http_internal_server_error, dl_sym,
  check_version, ok, resolve_late, late_symbol, required_symbols,
}
use coraza_apache.DlOpen.Wrappers.{Exported}
use coraza_apache.DlOpen.Loaded.{Answers, dl_open-Answers}
use coraza_apache.Base.{pos, ◌≡◌, refl, List, Bytes, ◌∷◌, []}
use coraza_apache.Request.{http_internal_server_error, ok}
use coraza_apache.DlOpen.Refused.{dl_open_again}

abbrev recent : Loader
recent = record { dynlib_open = 7; dynlib_sym = λ n. 1; version_num = pos 10800 }

abbrev old : Loader
old = record recent { version_num = pos 10700 }

dl_open-Answers_example : Answers recent (dl_open recent unloaded)
dl_open-Answers_example = dl_open-Answers recent unloaded refl

recent_loads : (dl_open recent unloaded).0 ≡ ok
unfolding dl_open resolve_all dl_syms dl_sym check_version resolve_late
recent_loads = refl

old_exports : (ns : List Bytes) → Exported old ns
old_exports [] = tt
old_exports (n ∷ ns) = (refl, old_exports ns)

dl_open_again_example :
    let (status, dl) = dl_open old unloaded in
    let (again, dl') = dl_open old dl in
    (status ≡ http_internal_server_error) × (again ≡ ok) × (dl'.pointers late_symbol ≡ 0)
dl_open_again_example = dl_open_again old refl (old_exports required_symbols) refl
