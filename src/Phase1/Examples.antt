-- ===== src/Phase1/Examples.antt =====
-- A POST with two blocks of body, let through by a quiet engine.
use coraza_apache.Base.{◌≡◌, refl, some, none, [], ◌∷◌, codes, pos, true}
use coraza_apache.Phase1.{Incoming, inspect_request, http_version, DirConf, Host, version_of_number}
use coraza_apache.Flow.{Post}
use coraza_apache.Config.{DirConf}
use coraza_apache.Body.{Host, block}
use coraza_apache.Samples.{enabled_conf, quiet_engine, new_request}
use coraza_apache.Phase1.Inspected.{Done, Stopped, inspect_request-Post}
use coraza_apache.Steps.Clean.{connection, uri, request_headers, request_body}
use coraza_apache.Obeys.{Settled}
use coraza_apache.Phase1.Settled.{inspect_request-Settled}

abbrev post : Incoming
post = record {
  useragent_ip = some (codes "10.0.0.1");
  useragent_port = some 4242;
  local_ip = none;
  local_port = none;
  proto_num = 1001;
  protocol = some (codes "HTTP/1.1");
  unparsed_uri = codes "/form";
  method = codes "POST";
  headers_in =
      record { key = some (codes "Host"); val = some (codes "a.b") }
      ∷ record { key = none; val = none }
      ∷ [];
}

abbrev two_blocks : Host
two_blocks = record {
  setup_client_block = pos 0;
  should_client_block = true;
  reads = block (codes "a=1") ∷ block (codes "&b=2") ∷ [];
  temp_dir = true;
  mktemp = true;
  brigade_write = λ saved b. true;
  file_write = λ contents b. true;
}

-- With a limit of four bytes the second block goes to the file.
abbrev four_bytes : DirConf
four_bytes = record enabled_conf { body_mem_limit = pos 4 }

inspect_request-Post_example :
    Post
      (λ _ r'.
        Done quiet_engine two_blocks four_bytes new_request
          (connection ∷ uri ∷ request_headers ∷ request_body ∷ [])
          r')
      (Stopped two_blocks)
      (inspect_request quiet_engine two_blocks four_bytes post new_request)
inspect_request-Post_example =
    inspect_request-Post quiet_engine two_blocks four_bytes post new_request refl

unknown_version : http_version 3000 (some []) ≡ codes "HTTP/1.1"
unfolding http_version version_of_number
unknown_version = refl

new_request-Settled : Settled quiet_engine new_request
new_request-Settled = record { attached = refl; heard = tt; none_pending = refl }

inspect_request-Settled_example :
    Post
      (λ _ s. Settled quiet_engine s)
      (λ _ _. Unit)
      (inspect_request quiet_engine two_blocks four_bytes post new_request)
inspect_request-Settled_example =
    inspect_request-Settled quiet_engine two_blocks four_bytes post new_request new_request-Settled
