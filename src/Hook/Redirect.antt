-- ===== src/Hook/Redirect.antt =====
-- The response to a request that was denied and redirected internally, such as the error page of the
-- denial: src/mod_coraza_phase1.c and src/mod_coraza_filter_out.c.
use coraza_apache.Hook.{
  post_read_request, inspect_or_reuse, Engine, Lib, Arrival, ℕ, Worker, Request, Ctx, is_enabled,
  ctx_from_prev, declined, add_out_filter, attach,
}
use coraza_apache.Output.{output_filter}
use coraza_apache.Engine.{Engine}
use coraza_apache.Library.{Lib}
use coraza_apache.Base.{
  ℕ, ◌≡◌, false, some, true, ◌++◌, refl, List, Option, [], ◌∷◌, ap, suc, zero, ◌∙◌, none,
}
use coraza_apache.Transaction.{Worker}
use coraza_apache.Request.{Request, Ctx, Brigade, declined}
use coraza_apache.Response.{Response}
use coraza_apache.Logging.{is_enabled}
use coraza_apache.Phase1.{add_out_filter}
use coraza_apache.Hook.Guards.{post_read_request_guarded}

-- So many requests without a context.
abbrev pub uninspected : ℕ → List (Option Ctx)
uninspected zero = []
uninspected (suc n) = none ∷ uninspected n

-- The walk passes over the requests that were not inspected.
ctx_from_prev_nearest :
    (skipped : ℕ) (ctx : Ctx) (rest : List (Option Ctx))
    → ctx_from_prev (uninspected skipped ++ some ctx ∷ rest) ≡ some ctx
unfolding ctx_from_prev
ctx_from_prev_nearest zero ctx rest = refl
ctx_from_prev_nearest (suc n) ctx rest = ctx_from_prev_nearest n ctx rest

-- Behind an internal redirect, or several, of which any number were not inspected: if the nearest
-- inspected request was denied, the hook lets the redirected request through without a word to
-- libcoraza, and the output filter then passes its response on as it is, with nothing told to the
-- engine and no error page made; whatever lies behind the inspected request.
pub post_read_request-output_filter :
    (e : Engine) (lib : Lib) (a : Arrival) (i : ℕ) (w : Worker) (r : Request) (skipped : ℕ)
    (ctx : Ctx) (rest : List (Option Ctx)) (resp : Response) (bb : Brigade)
    → a.is_subrequest ≡ false
    → a.per_dir ≡ some i
    → is_enabled (some (w.dir_confs i)) ≡ true
    → r.attached ≡ false
    → a.previous ≡ uninspected skipped ++ some ctx ∷ rest
    → ctx.intervention_triggered ≡ true
    → (r' : Request) × (post_read_request e lib a w r ≡ some (declined, r', w))
      × (r'.out_filter ≡ true)
      × (let (turn, r'') = output_filter e resp bb r' in
          (r''.sent ≡ r.sent ++ bb) × (r''.ctx ≡ ctx) × (r''.died ≡ r.died))
unfolding inspect_or_reuse output_filter
post_read_request-output_filter e lib a i w r skipped ctx rest resp bb main dir on fresh before
      denied =
    let found = ap ctx_from_prev before ∙ ctx_from_prev_nearest skipped ctx rest in
    (
      add_out_filter (attach ctx r),
      rw (post_read_request_guarded e lib a i w r main dir on fresh)
          (rw (found, inspect_or_reuse) refl),
      refl,
      rw denied (refl, refl, refl),
    )
