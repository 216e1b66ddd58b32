-- ===== src/Phase1.antt =====
-- `coraza_post_read_request` of src/mod_coraza_phase1.c from the connection to the end of phase 2,
-- for a request whose transaction has been created.
pub mod Passed
pub mod Taken
pub mod Inspected
pub mod Settled
mod Examples
use coraza_apache.Base.{
  ℕ, Bool, true, false, not, Option, none, some, List, [], ◌∷◌, ◌++◌, Bytes, ℤ, pos, negsuc, eqb_ℤ,
  ◌==◌, codes, if◌then◌else◌,
}
use coraza_apache.Body.{Host, Saving, read_body, brigade_of, set_saved_body, tail_buckets}
use coraza_apache.Config.{DirConf}
use coraza_apache.Engine.{
  Engine, process_connection, process_uri, add_request_headers, add_request_header,
  process_request_headers, is_request_body_accessible, process_request_body,
}
use coraza_apache.Flow.{Flow, next, return, Action, ◌>>=◌, ◌>>◌, pure}
use coraza_apache.Request.{Request, ok, declined, tell}
use coraza_apache.Steps.{fail_closed, process, intervene}
use coraza_apache.Submit.{TableEntry, HeaderCalls, collect, submit_headers, request_calls}

-- The fields of the `request_rec` and the connection that the hook reads.
pub record Incoming : Type 0 where
  pub useragent_ip : Option Bytes
  pub useragent_port : Option ℕ
  pub local_ip : Option Bytes
  pub local_port : Option ℕ
  pub proto_num : ℕ
  pub protocol : Option Bytes
  pub unparsed_uri : Bytes
  pub method : Bytes
  pub headers_in : List TableEntry

abbrev pub ip_of : Option Bytes → Bytes
ip_of none = codes "0.0.0.0"
ip_of (some ip) = ip

abbrev pub port_of : Option ℕ → ℕ
port_of none = 0
port_of (some p) = p

-- The switch over `r->proto_num`; `HTTP_VERSION(major, minor)` is 1000 * major + minor.
pub version_of_number : ℕ → Bytes
version_of_number n =
    if n == 9
    then codes "HTTP/0.9"
    else if n == 1000
    then codes "HTTP/1.0"
    else if n == 1001
    then codes "HTTP/1.1"
    else if n == 2000
    then codes "HTTP/2.0"
    else codes "HTTP/1.1"

-- The protocol token as it arrived, if there is one.
pub http_version : ℕ → Option Bytes → Bytes
http_version n none = version_of_number n
http_version n (some []) = version_of_number n
http_version n (some (c ∷ cs)) = c ∷ cs

pub run_connection : Engine → Incoming → Action (Unit {0})
run_connection e inc = do
  process e (
      process_connection (ip_of inc.useragent_ip) (port_of inc.useragent_port) (ip_of inc.local_ip)
        (port_of inc.local_port))
  intervene e

pub run_uri : Engine → Incoming → Action (Unit {0})
run_uri e inc = do
  process e (process_uri inc.unparsed_uri inc.method (http_version inc.proto_num inc.protocol))
  intervene e

pub add_headers : Engine → List TableEntry → Action (Unit {0})
add_headers e table r =
    let (done, r') = submit_headers e request_calls (collect table) r in
    if done then (next tt, r') else fail_closed r'

pub run_headers : Engine → Incoming → Action (Unit {0})
run_headers e inc = do add_headers e inc.headers_in; process e process_request_headers; intervene e

abbrev pub modify : (Request → Request) → Action (Unit {0})
modify f r = (next tt, f r)

-- `ap_setup_client_block`, whose refusal is returned as it is.
pub setup_body : Host → Action (Unit {0})
setup_body host r =
    if eqb_ℤ host.setup_client_block ok then (next tt, r) else (return host.setup_client_block, r)

-- The limit in force: the configured one, or 128 KiB where none is set.
abbrev pub mem_limit : ℤ → ℕ
mem_limit (pos n) = n
mem_limit (negsuc n) = 0x2_0000

abbrev pub finish_replay : Saving → Request → Request
finish_replay s r =
    let kept = set_saved_body (brigade_of r.ctx.saved_body ++ tail_buckets s) r in
    record kept { read_length_reset = true; in_filter = true }

abbrev pub set_phase2_done : Request → Request
set_phase2_done r = record r { ctx = record (r.ctx) { phase2_done = true } }

-- `coraza_is_request_body_accessible`, as a C truth value.
abbrev pub ask : Engine → Request → Bool × Request
ask e r = let (rc, r') = tell e is_request_body_accessible r in (not (eqb_ℤ rc (pos 0)), r')

abbrev pub nothing_saved : Saving
nothing_saved = record { saved_len = 0; spool = none; spool_len = 0 }

-- A request that carries a body: read it all, keep it, inspect it.
pub take_body : Engine → Host → DirConf → Action (Unit {0})
take_body e host conf r =
    let (inspect, r1) = ask e r in
    let reading =
      read_body e host (mem_limit conf.body_mem_limit) inspect host.reads nothing_saved in
    (reading >>= λ s. modify (finish_replay s)) (set_saved_body [] r1)

-- `coraza_process_request_body` and the poll behind it, the same with a body and without.
pub finalize_phase2 : Engine → Action (Unit {0})
finalize_phase2 e = do process e process_request_body; modify set_phase2_done; intervene e

pub run_body : Engine → Host → DirConf → Action (Unit {0})
unfolding take_body
run_body e host conf = do
  setup_body host
  if host.should_client_block then take_body e host conf else pure tt
  finalize_phase2 e

abbrev pub add_out_filter : Request → Request
add_out_filter r = record r { out_filter = true }

-- The five steps in order; going through all of them is `return DECLINED`.
unfoldable pub inspect_request : Engine → Host → DirConf → Incoming → Action (Unit {0})
inspect_request e host conf inc = do
  run_connection e inc
  run_uri e inc
  run_headers e inc
  modify add_out_filter
  run_body e host conf
