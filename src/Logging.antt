-- ===== src/Logging.antt =====
-- Phase 5: `coraza_log_transaction` of src/mod_coraza_log.c.
use coraza_apache.Base.{Bool, true, false, not, Option, none, some, ℤ, pos, eqb_ℤ, if◌then◌else◌}
use coraza_apache.Config.{DirConf}
use coraza_apache.Engine.{Engine, process_logging}
use coraza_apache.Request.{Request, ok, tell}

-- `dcf != NULL && dcf->enable == 1`
abbrev pub is_enabled : Option DirConf → Bool
is_enabled none = false
is_enabled (some d) = eqb_ℤ d.enable (pos 1)

abbrev pub set_logged : Request → Request
set_logged r = record r { ctx = record (r.ctx) { logged = true } }

unfoldable pub log_transaction : Engine → Request → ℤ × Request
log_transaction e r =
    if not (is_enabled r.dir_conf)
    then (ok, r)
    else if not r.attached
    then (ok, r)
    else if r.ctx.logged
    then (ok, r)
    else (ok, (tell e process_logging (set_logged r)).1)
