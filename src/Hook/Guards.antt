-- ===== src/Hook/Guards.antt =====
-- The guards of `coraza_post_read_request` in src/mod_coraza_phase1.c.
use coraza_apache.Hook.{
  post_read_request, Engine, Lib, Arrival, ℕ, Worker, Request, is_enabled, inspect_or_reuse,
}
use coraza_apache.Engine.{Engine}
use coraza_apache.Library.{Lib}
use coraza_apache.Base.{ℕ, ◌≡◌, false, some, true, refl}
use coraza_apache.Transaction.{Worker}
use coraza_apache.Request.{Request}
use coraza_apache.Logging.{is_enabled}

pub post_read_request_guarded :
    (e : Engine) (lib : Lib) (a : Arrival) (i : ℕ) (w : Worker) (r : Request)
    → a.is_subrequest ≡ false
    → a.per_dir ≡ some i
    → is_enabled (some (w.dir_confs i)) ≡ true
    → r.attached ≡ false
    → post_read_request e lib a w r ≡ inspect_or_reuse e lib a i w r
unfolding post_read_request
post_read_request_guarded e lib a i w r main dir on fresh = rw (main, dir) (rw (on, fresh) refl)
