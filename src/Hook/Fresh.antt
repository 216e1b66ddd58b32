-- ===== src/Hook/Fresh.antt =====
-- What `coraza_post_read_request` of src/mod_coraza_phase1.c does from a fresh request to its end,
-- with the WAF that `coraza_create_ctx` of src/mod_coraza.c finds for it.
use coraza_apache.Engine.{Engine}
use coraza_apache.Hook.{
  post_read_request, inspect_fresh, Host, Lib, inspect_or_reuse, Arrival, DirConf, List, Request, ℕ,
  Worker, Flow, create_ctx, http_internal_server_error, is_enabled, attach, new_ctx, ctx_from_prev,
  inspect_request, status_of, declined,
}
use coraza_apache.Body.{Host}
use coraza_apache.Library.{Lib}
use coraza_apache.Config.{DirConf, RuleEntry}
use coraza_apache.Base.{
  List, ℕ, ℤ, Option, ◌≡◌, some, false, true, none, Bool-cases, ◌∷◌, ◌==◌, inl, arith, [], inr,
  refl,
}
use coraza_apache.Request.{Request, http_internal_server_error, new_ctx, declined}
use coraza_apache.Flow.{Flow, Post, next, return}
use coraza_apache.Transaction.{Worker, create_ctx}
use coraza_apache.Phase1.Inspected.{Done, Stopped, inspect_request-Post}
use coraza_apache.Transaction.Resolved.{Served, create_ctx-Served, Sane}
use coraza_apache.Transaction.Scopes.{Scope, ChildFits}
use coraza_apache.Logging.{is_enabled}
use coraza_apache.Steps.Clean.{connection, uri, request_headers, request_body}
use coraza_apache.Phase1.{inspect_request}
use coraza_apache.Obeys.{Settled}
use coraza_apache.Phase1.Settled.{inspect_request-Settled}
use coraza_apache.Hook.Guards.{post_read_request_guarded}

-- How a fresh request ends: with 500 for want of a transaction; or, with one, let through with all
-- inspected, or stopped.
pub data Ended (e : Engine) (host : Host) (conf : DirConf) (r : Request) (transaction : ℕ)
    : ℤ → Request → Type 0 where
  without_waf : transaction ≡ 0 → Ended e host conf r transaction http_internal_server_error r
  let_through :
      {r' : Request}
      → transaction == 0 ≡ false
      → Done e host conf
          (attach (new_ctx transaction) r)
          (connection ∷ uri ∷ request_headers ∷ request_body ∷ [])
          r'
      → Settled e r'
      → Ended e host conf r transaction declined r'
  stopped :
      {s : ℤ} {r' : Request}
      → transaction == 0 ≡ false
      → Stopped host s r'
      → Ended e host conf r transaction s r'

both-Ended :
    (e : Engine) (host : Host) (conf : DirConf) (r : Request) (t : ℕ)
    (x : Flow (Unit {0}) × Request)
    → t == 0 ≡ false
    → Post
        (λ _ r'.
          Done e host conf
            (attach (new_ctx t) r)
            (connection ∷ uri ∷ request_headers ∷ request_body ∷ [])
            r')
        (Stopped host)
        x
    → Post (λ _ r'. Settled e r') (λ _ _. Unit) x
    → Ended e host conf r t (status_of x.0) x.1
both-Ended e host conf r t (next u, r') some_t d s = let_through some_t d s
both-Ended e host conf r t (return k, r') some_t d s = stopped some_t d

-- What the hook returned, with the transaction that it was given.
pub record Handled (e : Engine) (lib : Lib) (a : Arrival) (child : Option ℕ)
    (rules : List RuleEntry) (i : ℕ) (r : Request) (result : Option (ℤ × Request × Worker))
    : Type 0 where
  pub transaction : ℕ
  pub status : ℤ
  pub request : Request
  pub worker : Worker
  pub returned : result ≡ some (status, request, worker)
  pub served : Served lib (worker.dir_confs i).waf a.server_waf rules transaction
  pub sane : Sane lib i child rules worker
  pub ended : Ended e a.host (worker.dir_confs i) r transaction status request

inspect_fresh-Handled :
    (e : Engine) (lib : Lib) (a : Arrival) (child : Option ℕ) (rules : List RuleEntry) (i t : ℕ)
    (w w' : Worker) (r : Request)
    → create_ctx lib i a.server_waf w ≡ some (t, w')
    → Served lib (w'.dir_confs i).waf a.server_waf rules t
    → Sane lib i child rules w'
    → Handled e lib a child rules i r (inspect_fresh e lib a i w r)
unfolding inspect_fresh
inspect_fresh-Handled e lib a child rules i t w w' r made served sane =
    let conf = w'.dir_confs i in
    let start = attach (new_ctx t) r in
    let x = inspect_request e a.host conf a.incoming start in
    elim (Bool-cases (t == 0)) [
      | inl nowhere ↦ record {
        transaction = t;
        status = http_internal_server_error;
        request = r;
        worker = w';
        returned = rw (made, inspect_fresh, nowhere) refl;
        served = served;
        sane = sane;
        ended = without_waf (ground arith);
      }
      | inr somewhere ↦ record {
        transaction = t;
        status = status_of x.0;
        request = x.1;
        worker = w';
        returned = rw (made, inspect_fresh, somewhere) refl;
        served = served;
        sane = sane;
        ended =
            both-Ended e a.host conf r t x somewhere
              (inspect_request-Post e a.host conf a.incoming start refl)
              (inspect_request-Settled e a.host conf a.incoming start
                (record { attached = refl; heard = tt; none_pending = refl }));
      }
    ]

-- A request that is not a subrequest, in a directory that is switched on, without a context and
-- without an inspected request before it, in a worker with its mutex, a sound cache, no leaked
-- configuration and no WAF from other rules in the directory and its stable child: the hook
-- returns, and behind it the worker has its mutex, a sound cache, no leaked configuration and no
-- WAF from other rules in the two. The transaction was asked of a WAF built from exactly the
-- directory's rules, or of the server's where the directory has none; nothing was asked only where
-- both have none. Without a transaction the status is 500 and the request is as it came; with one
-- the request is stopped, or let through (`DECLINED`) with its four phases run in order, every
-- answer good, the whole body shown to the engine unless that does not read bodies, and every
-- verdict asked for and obeyed.
pub post_read_request-Handled :
    (e : Engine) (lib : Lib) (a : Arrival) (i : ℕ) (w : Worker) (r : Request)
    → a.is_subrequest ≡ false
    → a.per_dir ≡ some i
    → is_enabled (some (w.dir_confs i)) ≡ true
    → r.attached ≡ false
    → ctx_from_prev a.previous ≡ none
    → w.mutex ≡ true
    → Scope lib i (w.dir_confs i).rules w
    → ChildFits lib (w.dir_confs i).merge_child (w.dir_confs i).rules w
    → Handled e lib a
        (w.dir_confs i).merge_child
        (w.dir_confs i).rules
        i
        r
        (post_read_request e lib a w r)
unfolding inspect_or_reuse
post_read_request-Handled e lib a i w r main dir on fresh alone mutex scope fit =
    let (made, returned, served, sane) = create_ctx-Served lib i a.server_waf w mutex scope fit in
    let h =
      inspect_fresh-Handled e lib a (w.dir_confs i).merge_child (w.dir_confs i).rules i made.0 w
        made.1 r returned served sane in
    rw (post_read_request_guarded e lib a i w r main dir on fresh) (rw (alone, inspect_or_reuse) h)
