-- ===== src/Samples.antt =====
-- Concrete requests and engines that the examples of several components run on.
use coraza_apache.Base.{true, false, none, some, [], ℤ, pos, negsuc}
use coraza_apache.Config.{DirConf}
use coraza_apache.Engine.{Call, History, Engine, Intervention, is_request_body_accessible}
use coraza_apache.Request.{Request, http_ok, new_ctx}

-- `Coraza On`, all else unset.
abbrev pub enabled_conf : DirConf
enabled_conf = record {
  enable = pos 1;
  has_rules = false;
  rules = [];
  transaction_id = none;
  body_mem_limit = negsuc 0;
  waf = 0;
  merge_child = none;
}

abbrev pub new_request : Request
new_request = record {
  ctx = new_ctx 7;
  attached = true;
  dir_conf = some enabled_conf;
  status = http_ok;
  conn_close = false;
  aborted = false;
  location = none;
  read_length_reset = false;
  in_filter = false;
  out_filter = false;
  sent = [];
  died = [];
}

-- Body access on, everything else answered with 0.
abbrev pub reads_bodies : History → Call → ℤ
reads_bodies h is_request_body_accessible = pos 1
reads_bodies h _ = pos 0

-- An engine that never intervenes, and one that always does.
abbrev pub quiet_engine : Engine
quiet_engine = record { reply = reads_bodies; queued = λ h. none }

abbrev pub strict_engine : Intervention → Engine
strict_engine i = record { reply = reads_bodies; queued = λ h. some i }
