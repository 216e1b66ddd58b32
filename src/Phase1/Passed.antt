-- ===== src/Phase1/Passed.antt =====
-- The pieces of `coraza_post_read_request` in src/mod_coraza_phase1.c that only talk to the engine.
use coraza_apache.Base.{
  Bool-cases, List, ◌≡◌, true, false, [], ◌∷◌, sym, append-nil, ◌++◌, inl, refl, inr,
}
use coraza_apache.Phase1.{
  run_connection, run_uri, run_headers, add_headers, Engine, Incoming, Request, TableEntry,
  submit_headers, process, request_calls, collect, intervene, ip_of, http_version, port_of,
}
use coraza_apache.Engine.{
  Engine, Call, process_failed, process_request_headers, process_uri, process_connection,
}
use coraza_apache.Request.{Request}
use coraza_apache.Steps.Clean.{
  Phase, Went, request_headers, connection, uri, Refused, Accepted, phases, told_body,
  failed_closed,
}
use coraza_apache.Submit.{TableEntry, submit_headers, request_calls, collect}
use coraza_apache.Flow.{Post, ◌>>◌}
use coraza_apache.Steps.Passing.{Went->>=, Went-attached, process-Post, intervene-Post}
use coraza_apache.Steps.{process, intervene}
use coraza_apache.Submit.Passing.{submit_headers-Went}

module _ (e : Engine) (inc : Incoming) where
  -- A step that goes through one phase and polls.
  phase-Post :
      (c : Call) (p : Phase) (r : Request)
      → r.attached ≡ true
      → (process_failed (e.reply r.ctx.calls c) ≡ false → Accepted e c r.ctx.calls)
      → phases (c ∷ r.ctx.calls) ≡ phases r.ctx.calls ++ p ∷ []
      → told_body (c ∷ r.ctx.calls) ≡ told_body r.ctx.calls ++ []
      → Post (λ _ r'. Went e (p ∷ []) [] r r') Refused ((process e c >> intervene e) r)
  phase-Post c p r at acc ph tb =
      Went->>= e (p ∷ []) [] [] [] (process e c) (λ _. intervene e) r
        (process-Post e c (p ∷ []) [] r acc ph tb) (λ s w. intervene-Post e s (Went-attached w at))

  pub run_connection-Post :
      (r : Request)
      → r.attached ≡ true
      → Post (λ _ r'. Went e (connection ∷ []) [] r r') Refused (run_connection e inc r)
  unfolding run_connection
  run_connection-Post r at =
      phase-Post
        (process_connection (ip_of inc.useragent_ip) (port_of inc.useragent_port)
          (ip_of inc.local_ip) (port_of inc.local_port))
        connection r at (λ h. h) refl (sym (append-nil _))

  pub run_uri-Post :
      (r : Request)
      → r.attached ≡ true
      → Post (λ _ r'. Went e (uri ∷ []) [] r r') Refused (run_uri e inc r)
  unfolding run_uri
  run_uri-Post r at =
      phase-Post (process_uri inc.unparsed_uri inc.method (http_version inc.proto_num inc.protocol))
        uri r at (λ h. h) refl (sym (append-nil _))

  add_headers-Post :
      (table : List TableEntry) (r : Request)
      → Post (λ _ r'. Went e [] [] r r') Refused (add_headers e table r)
  unfolding add_headers
  add_headers-Post table r =
      elim (Bool-cases (submit_headers e request_calls (collect table) r).0) [
        | inl all ↦ rw all (submit_headers-Went e (collect table) r all)
        | inr some_failed ↦ rw some_failed (refl, failed_closed refl)
      ]

  pub run_headers-Post :
      (r : Request)
      → r.attached ≡ true
      → Post (λ _ r'. Went e (request_headers ∷ []) [] r r') Refused (run_headers e inc r)
  unfolding run_headers
  run_headers-Post r at =
      Went->>= e [] (request_headers ∷ []) [] [] (add_headers e inc.headers_in)
        (λ _. process e process_request_headers >> intervene e) r
        (add_headers-Post inc.headers_in r)
        (λ s w.
          phase-Post process_request_headers request_headers s (Went-attached w at) (λ h. h) refl
            (sym (append-nil _)))
