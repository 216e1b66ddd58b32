-- ===== src/Hook/Examples.antt =====
-- A request to a directory with one rule, and the error page of a denied request.
use coraza_apache.Library.{Lib}
use coraza_apache.Request.{Request, Ctx, new_ctx, declined, eos}
use coraza_apache.Hook.{Arrival, new_ctx, post_read_request, declined, ctx_from_prev}
use coraza_apache.Phase1.{Incoming}
use coraza_apache.Hook.Fresh.{Handled, post_read_request-Handled}
use coraza_apache.Transaction.{Worker}
use coraza_apache.Base.{
  List, length, some, false, [], pos, codes, true, ◌+◌, none, ◌∷◌, inl, ◌≡◌, arith, refl,
}
use coraza_apache.Response.{Response}
use coraza_apache.Body.{Host}
use coraza_apache.Config.{RuleEntry, inline_rule}
use coraza_apache.Samples.{new_request, quiet_engine, enabled_conf}
use coraza_apache.Output.{output_filter}
use coraza_apache.Hook.Redirect.{post_read_request-output_filter}

abbrev one_rule : List RuleEntry
one_rule = record { rule_type = inline_rule; text = codes "SecRuleEngine On" } ∷ []

abbrev worker : Worker
worker = record {
  calls = [];
  dir_confs = λ i. record enabled_conf { has_rules = true; rules = one_rule };
  cache = record { entries = []; pool = true; full_logged = false };
  mutex = true;
}

abbrev working_lib : Lib
working_lib = record {
  handle = λ h c. length h + 1;
  status = λ h c. pos 0;
  has_error = λ h c. false;
  strdup = λ h b. true;
}

abbrev no_body : Host
no_body = record {
  setup_client_block = pos 0;
  should_client_block = false;
  reads = [];
  temp_dir = true;
  mktemp = true;
  brigade_write = λ saved b. true;
  file_write = λ contents b. true;
}

abbrev get : Incoming
get = record {
  useragent_ip = some (codes "10.0.0.1");
  useragent_port = some 4242;
  local_ip = none;
  local_port = none;
  proto_num = 1001;
  protocol = none;
  unparsed_uri = codes "/";
  method = codes "GET";
  headers_in = [];
}

abbrev arrival : Arrival
arrival = record {
  is_subrequest = false;
  per_dir = some 0;
  server_waf = 0;
  previous = [];
  host = no_body;
  incoming = get;
}

abbrev unattached : Request
unattached = record new_request { attached = false }

post_read_request-Handled_example :
    Handled quiet_engine working_lib arrival none one_rule 0 unattached
      (post_read_request quiet_engine working_lib arrival worker unattached)
unfolding ctx_from_prev
post_read_request-Handled_example =
    post_read_request-Handled quiet_engine working_lib arrival 0 worker unattached refl refl refl
      refl refl refl
      (record {
        own = inl refl;
        same = refl;
        cached = record { all_built = tt; within = omega arith };
        freed = λ k. refl;
      })
      tt

abbrev denied : Ctx
denied = record (new_ctx 5) { intervention_triggered = true }

abbrev page : Response
page = record {
  headers_out = [];
  err_headers_out = [];
  content_type = some (codes "text/html");
  protocol = some (codes "HTTP/1.1");
  header_only = false;
  is_subrequest = false;
  save_ok = true;
}

post_read_request-output_filter_example :
    (r' : Request) × (post_read_request quiet_engine working_lib
        (record arrival { previous = none ∷ some denied ∷ [] })
        worker
        unattached
      ≡ some (declined, r', worker))
    × (r'.out_filter ≡ true)
    × (let (turn, r'') = output_filter quiet_engine page (eos ∷ []) r' in
        (r''.sent ≡ eos ∷ []) × (r''.ctx ≡ denied) × (r''.died ≡ []))
post_read_request-output_filter_example =
    post_read_request-output_filter quiet_engine working_lib
      (record arrival { previous = none ∷ some denied ∷ [] }) 0 worker unattached 1 denied [] page
      (eos ∷ []) refl refl refl refl refl refl
