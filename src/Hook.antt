-- ===== src/Hook.antt =====
-- The whole of `coraza_post_read_request` in src/mod_coraza_phase1.c: its guards, the reuse of a
-- transaction after an internal redirect, and the inspection of a fresh request.
pub mod Guards
pub mod Fresh
pub mod Redirect
mod Examples
use coraza_apache.Base.{
  Option, Bool, List, ℕ, none, ℤ, ◌∷◌, true, some, if◌then◌else◌, [], not, ◌==◌,
}
use coraza_apache.Engine.{Engine}
use coraza_apache.Request.{Ctx, Request, declined, new_ctx, http_internal_server_error}
use coraza_apache.Flow.{Flow, next, Post, return}
use coraza_apache.Phase1.{inspect_request, Incoming, add_out_filter}
use coraza_apache.Library.{Lib}
use coraza_apache.Transaction.{Worker, create_ctx}
use coraza_apache.Body.{Host}
use coraza_apache.Config.{DirConf}
use coraza_apache.Logging.{is_enabled}

-- What the hook sees of the request besides its own state: `r->main`, the per-directory
-- configuration as an index, the server's WAF, and the contexts of the requests behind `r->prev`.
pub record Arrival : Type 0 where
  pub is_subrequest : Bool
  pub per_dir : Option ℕ
  pub server_waf : ℕ
  pub previous : List (Option Ctx)
  pub host : Host
  pub incoming : Incoming

pub ctx_from_prev : List (Option Ctx) → Option Ctx
ctx_from_prev [] = none
ctx_from_prev (none ∷ ps) = ctx_from_prev ps
ctx_from_prev (some ctx ∷ ps) = some ctx

-- `ap_set_module_config(r->request_config, &coraza_module, ctx)`
abbrev pub attach : Ctx → Request → Request
attach ctx r = record r { ctx = ctx; attached = true }

-- The status of the hook: `DECLINED` behind the last step.
abbrev pub status_of : Flow (Unit {0}) → ℤ
status_of (next u) = declined
status_of (return s) = s

-- A transaction of its own, and phases 1 and 2 in it.
pub inspect_fresh : Engine → Lib → Arrival → ℕ → Worker → Request → Option (ℤ × Request × Worker)
unfolding inspect_request
inspect_fresh e lib a i w r = elim (create_ctx lib i a.server_waf w) [
  | none ↦ none
  | some (transaction, w') ↦
      let (x, r') =
        inspect_request e a.host (w'.dir_confs i) a.incoming (attach (new_ctx transaction) r) in
      if transaction == 0
      then some (http_internal_server_error, r, w')
      else some (status_of x, r', w')
]

-- A request with a directory configuration that is switched on and no context yet.
pub inspect_or_reuse : Engine → Lib → Arrival → ℕ → Worker → Request → Option (ℤ × Request × Worker)
unfolding inspect_fresh ctx_from_prev
inspect_or_reuse e lib a i w r = elim (ctx_from_prev a.previous) [
  | none ↦ inspect_fresh e lib a i w r
  | some ctx ↦ some (declined, add_out_filter (attach ctx r), w)
]

-- `none` is the fault of a mutex that was never created.
unfoldable pub post_read_request :
    Engine → Lib → Arrival → Worker → Request → Option (ℤ × Request × Worker)
unfolding inspect_or_reuse
post_read_request e lib a w r = if a.is_subrequest then some (declined, r, w) else elim a.per_dir [
  | none ↦ some (declined, r, w)
  | some i ↦
      if not (is_enabled (some (w.dir_confs i)))
      then some (declined, r, w)
      else if r.attached
      then some (declined, r, w)
      else inspect_or_reuse e lib a i w r
]
