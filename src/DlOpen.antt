-- ===== src/DlOpen.antt =====
-- The loading of libcoraza, src/mod_coraza_dl.c: `coraza_dl_open` and `coraza_dl_close`.
pub mod Wrappers
pub mod Loaded
pub mod Refused
mod Examples
use coraza_apache.Base.{
  ℕ, List, Bytes, ℤ, Bool, codes, if◌then◌else◌, ◌∷◌, ◌==◌, bytes_eq, true, ltb_ℤ, not, [], pos,
  false,
}
use coraza_apache.Request.{ok, http_internal_server_error}

-- The system's loader, which src/dynlib.h wraps: the handle that opening the library gives, the
-- address of a symbol, and what the library's `coraza_version_num` returns. 0 is NULL.
pub record Loader : Type 0 where
  pub dynlib_open : ℕ
  pub dynlib_sym : Bytes → ℕ
  pub version_num : ℤ

-- `dl_handle` and the function pointers by the names of their symbols.
pub record Dl : Type 0 where
  pub dl_handle : ℕ
  pub pointers : Bytes → ℕ

-- The statics at the start of the process.
abbrev pub unloaded : Dl
unloaded = record { dl_handle = 0; pointers = λ n. 0 }

abbrev pub assign : Bytes → ℕ → Dl → Dl
assign name p dl = record dl { pointers = λ n. if bytes_eq n name then p else dl.pointers n }

-- `DL_SYM`: the pointer is set, also to NULL, and then the library is closed.
pub dl_sym : Loader → Bytes → Dl → Bool × Dl
dl_sym l name dl =
    let p = l.dynlib_sym name in
    let dl' = assign name p dl in
    if p == 0 then (false, record dl' { dl_handle = 0 }) else (true, dl')

-- The symbols in front of the version test, in their order.
abbrev pub required_symbols : List Bytes
required_symbols =
    codes "coraza_new_waf_config"
    ∷ codes "coraza_rules_add"
    ∷ codes "coraza_rules_add_file"
    ∷ codes "coraza_free_waf_config"
    ∷ codes "coraza_new_waf"
    ∷ codes "coraza_free_waf"
    ∷ codes "coraza_free_string"
    ∷ codes "coraza_rules_count"
    ∷ codes "coraza_rules_merge"
    ∷ codes "coraza_new_transaction"
    ∷ codes "coraza_new_transaction_with_id"
    ∷ codes "coraza_free_transaction"
    ∷ codes "coraza_intervention"
    ∷ codes "coraza_free_intervention"
    ∷ codes "coraza_process_connection"
    ∷ codes "coraza_process_uri"
    ∷ codes "coraza_add_request_header"
    ∷ codes "coraza_add_request_headers"
    ∷ codes "coraza_process_request_headers"
    ∷ codes "coraza_append_request_body"
    ∷ codes "coraza_process_request_body"
    ∷ codes "coraza_add_response_header"
    ∷ codes "coraza_add_response_headers"
    ∷ codes "coraza_append_response_body"
    ∷ codes "coraza_process_response_body"
    ∷ codes "coraza_process_response_headers"
    ∷ codes "coraza_process_logging"
    ∷ codes "coraza_update_status_code"
    ∷ codes "coraza_add_get_args"
    ∷ codes "coraza_is_response_body_processable"
    ∷ codes "coraza_is_request_body_accessible"
    ∷ []

abbrev pub late_symbol : Bytes
late_symbol = codes "coraza_is_response_body_accessible"

-- `DL_SYM` for each name; `false` is the return in one of them.
pub dl_syms : Loader → List Bytes → Dl → Bool × Dl
unfolding dl_sym
dl_syms l [] dl = (true, dl)
dl_syms l (n ∷ ns) dl =
    let (found, dl') = dl_sym l n dl in
    let rest = dl_syms l ns dl' in if found then rest else (false, dl')

-- `version_num != NULL ? version_num() : 0`
abbrev pub version : Loader → ℤ
version l = if l.dynlib_sym (codes "coraza_version_num") == 0 then pos 0 else l.version_num

-- Behind the version test.
pub resolve_late : Loader → Dl → ℤ × Dl
unfolding dl_sym
resolve_late l dl =
    let (found, dl') = dl_sym l late_symbol dl in
    if found then (ok, dl') else (http_internal_server_error, dl')

pub check_version : Loader → Dl → ℤ × Dl
unfolding resolve_late
check_version l dl =
    if ltb_ℤ (version l) (pos 10800) then (http_internal_server_error, dl) else resolve_late l dl

-- The library is open.
pub resolve_all : Loader → Dl → ℤ × Dl
unfolding dl_syms check_version
resolve_all l dl =
    let (all, dl') = dl_syms l required_symbols dl in
    if all then check_version l dl' else (http_internal_server_error, dl')

unfoldable pub dl_open : Loader → Dl → ℤ × Dl
unfolding resolve_all
dl_open l dl =
    if not (dl.dl_handle == 0)
    then (ok, dl)
    else if l.dynlib_open == 0
    then (http_internal_server_error, record dl { dl_handle = 0 })
    else resolve_all l (record dl { dl_handle = l.dynlib_open })

-- It stays loaded until the process ends.
abbrev pub dl_close : Dl → Dl
dl_close dl = dl
