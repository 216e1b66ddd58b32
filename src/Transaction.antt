-- ===== src/Transaction.antt =====
-- Transactions of src/mod_coraza.c: `coraza_create_ctx`, which finds or builds the WAF of a scope, and
-- `coraza_cleanup_transaction`. Directory configurations live in a store, so that two merges can
-- share a child; a pointer is an index. Pool allocation does not fail.
pub mod Scopes
pub mod Children
pub mod Resolved
pub mod Stale
mod Examples
use coraza_apache.Base.{
  ℕ, Bool, true, false, not, ◌&&◌, Option, none, some, List, [], ◌∷◌, Bytes, ◌==◌, if◌then◌else◌,
}
use coraza_apache.Config.{DirConf}
use coraza_apache.Library.{
  Lib, LibCall, LibHistory, new_transaction, new_transaction_with_id, free_transaction,
}
use coraza_apache.Merge.{has_entries}
use coraza_apache.Waf.{build_waf}
use coraza_apache.WafCache.{Cache, rules_hash, waf_cache_find, waf_cache_add}

-- A worker: what libcoraza was told, the directory configurations, the WAF cache, and whether
-- `g_waf_build_mutex` was created.
pub record Worker : Type 0 where
  pub calls : LibHistory
  pub dir_confs : ℕ → DirConf
  pub cache : Cache
  pub mutex : Bool

abbrev pub update : (ℕ → DirConf) → ℕ → DirConf → ℕ → DirConf
update f i v j = if j == i then v else f j

-- `dcf->waf = waf`
abbrev pub set_waf : ℕ → ℕ → Worker → Worker
set_waf i waf w = record w {
  dir_confs = update w.dir_confs i (record (w.dir_confs i) { waf = waf });
}

-- `if (dcf->merge_child != NULL) child->waf = waf;`
pub set_child_waf : Option ℕ → ℕ → Worker → Worker
set_child_waf none waf w = w
set_child_waf (some c) waf w = set_waf c waf w

-- Strategy 1: what the stable child has.
pub take_from_child : ℕ → Option ℕ → Worker → Worker
take_from_child i none w = w
take_from_child i (some c) w = set_waf i (w.dir_confs c).waf w

-- Strategy 2: the cache.
pub take_from_cache : ℕ → Worker → Worker
unfolding set_child_waf
take_from_cache i w =
    let dcf = w.dir_confs i in
    let cached = waf_cache_find (rules_hash dcf.rules) dcf.rules w.cache in
    if cached == 0 then w else set_child_waf dcf.merge_child cached (set_waf i cached w)

-- Strategy 3: build, and cache what was built.
pub build_new : Lib → ℕ → Worker → Worker
unfolding set_child_waf
build_new lib i w =
    let dcf = w.dir_confs i in
    let (waf, calls) = build_waf lib dcf.rules w.calls in
    let built = set_waf i waf (record w { calls = calls }) in
    let cached =
      if waf == 0
      then built
      else record built { cache = waf_cache_add (rules_hash dcf.rules) dcf.rules waf w.cache } in
    set_child_waf dcf.merge_child waf cached

abbrev pub lacks_waf : ℕ → Worker → Bool
lacks_waf i w = (w.dir_confs i).waf == 0

-- The three strategies under the mutex, each while there is no WAF yet.
pub find_or_build : Lib → ℕ → Worker → Worker
unfolding take_from_child take_from_cache build_new
find_or_build lib i w =
    let w1 = take_from_child i (w.dir_confs i).merge_child w in
    let w2 = if lacks_waf i w1 then take_from_cache i w1 else w1 in
    if lacks_waf i w2 then build_new lib i w2 else w2

abbrev pub wants_waf : DirConf → Bool
wants_waf dcf = dcf.waf == 0 && dcf.has_rules && has_entries dcf.rules

-- Lazy building; `none` is the fault of locking a mutex that was never created.
pub resolve_waf : Lib → ℕ → Worker → Option Worker
unfolding find_or_build
resolve_waf lib i w =
    if wants_waf (w.dir_confs i)
    then (if w.mutex then some (find_or_build lib i w) else none)
    else some w

-- The directory's WAF if there is one, else the server's.
abbrev pub chosen_waf : ℕ → ℕ → Worker → ℕ
chosen_waf i server_waf w =
    let waf = (w.dir_confs i).waf in if not (waf == 0) then waf else server_waf

pub transaction_call : Option Bytes → ℕ → LibCall
transaction_call none waf = new_transaction waf
transaction_call (some id) waf = new_transaction_with_id waf id

-- The transaction's handle, 0 where `coraza_create_ctx` returns NULL.
pub new_handle : Lib → ℕ → ℕ → Worker → ℕ × Worker
unfolding transaction_call
new_handle lib i server_waf w =
    let waf = chosen_waf i server_waf w in
    let call = transaction_call (w.dir_confs i).transaction_id waf in
    if waf == 0 then (0, w) else (lib.handle w.calls call, record w { calls = call ∷ w.calls })

unfoldable pub create_ctx : Lib → ℕ → ℕ → Worker → Option (ℕ × Worker)
unfolding resolve_waf new_handle
create_ctx lib i server_waf w = elim (resolve_waf lib i w) [
  | none ↦ none
  | some w' ↦ some (new_handle lib i server_waf w')
]

-- `coraza_cleanup_transaction`, when the request's pool is destroyed.
pub cleanup_transaction : ℕ → LibHistory → ℕ × LibHistory
cleanup_transaction transaction h =
    if not (transaction == 0) then (0, free_transaction transaction ∷ h) else (transaction, h)
