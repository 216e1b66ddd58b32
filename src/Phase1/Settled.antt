-- ===== src/Phase1/Settled.antt =====
-- `coraza_post_read_request` of src/mod_coraza_phase1.c obeys the engine up to where it lets the
-- request through.
use coraza_apache.Base.{
  ◌≡◌, refl, false, inl, inr, Bool-cases, [], List, if◌then◌else◌, eqb_ℤ, ltb_ℤ, pos, true,
}
use coraza_apache.Flow.{Post, ◌>>◌, pure, >>=-Post}
use coraza_apache.Obeys.{Settled, Polled, Respected, Speaking, Redone}
use coraza_apache.Obeys.Steps.{
  tell_plain-Settled, process_intervention-Settled, process_intervention-Polled,
}
use coraza_apache.Steps.{process, intervene}
use coraza_apache.Submit.Settled.{submit_headers-Settled, request_calls-PlainCalls}
use coraza_apache.Engine.{
  Engine, Call, process_failed, process_request_headers, process_request_body,
  is_request_body_accessible,
}
use coraza_apache.Request.{Request, ok}
use coraza_apache.Body.{Host, read_body, set_saved_body}
use coraza_apache.Phase1.{
  run_uri, add_headers, run_headers, run_connection, Incoming, TableEntry, submit_headers,
  request_calls, collect, ask, take_body, run_body, add_out_filter, finalize_phase2,
  inspect_request, setup_body, DirConf, mem_limit, ok, modify, set_phase2_done, nothing_saved,
  finish_replay,
}
use coraza_apache.Submit.{TableEntry, submit_headers, request_calls, collect}
use coraza_apache.Config.{DirConf}
use coraza_apache.Obeys.Flow.{Settles, seq, seq_poll, process-Speaks, intervene-Settles}
use coraza_apache.Body.Settled.{read_body-Settles}
use coraza_apache.Submit.Redone.{submit_headers-Redone}
use coraza_apache.Intervention.{process_intervention}

module _ (e : Engine) where
  -- A phase's call with the poll behind it.
  phase-Settles :
      (c : Call) (r : Request)
      → (process_failed (e.reply r.ctx.calls c) ≡ false → Respected e c r.ctx.calls)
      → Settled e r
      → Settles e ((process e c >> intervene e) r)
  phase-Settles c r acc h =
      seq_poll e (process e c) (intervene e) r (process-Speaks e c r acc h) (intervene-Settles e)

  run_connection-Settles :
      (inc : Incoming) (r : Request) → Settled e r → Settles e (run_connection e inc r)
  unfolding run_connection
  run_connection-Settles inc r h = phase-Settles _ r (λ x. x) h

  -- The same, with the poll as the last call.
  abbrev Quiet : Request → Type 0
  Quiet r = Settled e r × Polled r

  intervene-Quiet :
      (r : Request) → Speaking e r → Post (λ _ s. Quiet s) (λ _ _. Unit) (intervene e r)
  unfolding intervene
  intervene-Quiet r h = elim (Bool-cases (ltb_ℤ (pos 0) (process_intervention e true r).0)) [
    | inl deny ↦ rw deny tt
    | inr calm ↦
        rw calm (
          process_intervention-Settled e true r h calm,
          process_intervention-Polled e true r h calm,
        )
  ]

  run_uri-Quiet :
      (inc : Incoming) (r : Request)
      → Settled e r
      → Post (λ _ s. Quiet s) (λ _ _. Unit) (run_uri e inc r)
  unfolding run_uri
  run_uri-Quiet inc r h =
      >>=-Post (λ _ s. Speaking e s) (λ _ s. Quiet s) (λ _ _. Unit) (process e _) (λ _. intervene e)
        r (process-Speaks e _ r (λ x. x) h) (λ _ s k. intervene-Quiet s k)

  -- The headers were told, and those of a rejected batch again.
  abbrev Told : Request → Type 0
  Told r = Settled e r × Redone e r.ctx.calls []

  add_headers-Told :
      (table : List TableEntry) (r : Request)
      → Quiet r
      → Post (λ _ s. Told s) (λ _ _. Unit) (add_headers e table r)
  unfolding add_headers
  add_headers-Told table r (h, polled) =
      elim (Bool-cases (submit_headers e request_calls (collect table) r).0) [
        | inl all ↦ rw all (
          submit_headers-Settled e request_calls (request_calls-PlainCalls e) (collect table) r h
              all,
          submit_headers-Redone e (collect table) r polled all,
        )
        | inr some_failed ↦ rw some_failed tt
      ]

  run_headers-Settles : (inc : Incoming) (r : Request) → Quiet r → Settles e (run_headers e inc r)
  unfolding run_headers
  run_headers-Settles inc r h =
      >>=-Post (λ _ s. Told s) (λ _ s. Settled e s) (λ _ _. Unit) (add_headers e inc.headers_in)
        (λ _. process e process_request_headers >> intervene e) r
        (add_headers-Told inc.headers_in r h)
        (λ _ s k. phase-Settles process_request_headers s (λ x. (x, k.1)) k.0)

  ask-Settled : (r : Request) → Settled e r → Settled e (ask e r).1
  ask-Settled r h = tell_plain-Settled is_request_body_accessible tt refl refl h

  take_body-Settles :
      (host : Host) (conf : DirConf) (r : Request)
      → Settled e r
      → Settles e (take_body e host conf r)
  unfolding take_body
  take_body-Settles host conf r h =
      let asked = ask-Settled r h in
      seq e (read_body e host (mem_limit conf.body_mem_limit) (ask e r).0 host.reads nothing_saved)
        (λ s. modify (finish_replay s)) (set_saved_body [] (ask e r).1)
        (read_body-Settles e host (mem_limit conf.body_mem_limit) (ask e r).0 host.reads
          nothing_saved _
          (record {
            attached = asked.attached;
            heard = asked.heard;
            none_pending = asked.none_pending;
          }))
        (λ _ s k. record { attached = k.attached; heard = k.heard; none_pending = k.none_pending })

  choose_body-Settles :
      (host : Host) (conf : DirConf) (r : Request)
      → Settled e r
      → Settles e ((if host.should_client_block then take_body e host conf else pure tt) r)
  choose_body-Settles host conf r h = elim (Bool-cases host.should_client_block) [
    | inl body ↦ simp body (take_body-Settles host conf r h)
    | inr none_sent ↦ simp none_sent h
  ]

  setup_body-Settles : (host : Host) (r : Request) → Settled e r → Settles e (setup_body host r)
  unfolding setup_body
  setup_body-Settles host r h = elim (Bool-cases (eqb_ℤ host.setup_client_block ok)) [
    | inl ready ↦ rw ready h
    | inr refused ↦ rw refused tt
  ]

  finalize_phase2-Settles : (r : Request) → Settled e r → Settles e (finalize_phase2 e r)
  unfolding finalize_phase2
  finalize_phase2-Settles r h =
      seq_poll e (process e process_request_body) (modify set_phase2_done >> intervene e) r
        (process-Speaks e process_request_body r (λ x. x) h)
        (λ s k.
          intervene-Settles e (set_phase2_done s)
            (record { attached = k.attached; heard = k.heard }))

  run_body-Settles :
      (host : Host) (conf : DirConf) (r : Request)
      → Settled e r
      → Settles e (run_body e host conf r)
  unfolding run_body
  run_body-Settles host conf r h =
      let body = if host.should_client_block then take_body e host conf else pure tt in
      seq e (setup_body host) (λ _. body >> finalize_phase2 e) r (setup_body-Settles host r h)
        (λ _ s k.
          seq e body (λ _. finalize_phase2 e) s (choose_body-Settles host conf s k)
            (λ _ t l. finalize_phase2-Settles t l))

  add_out_filter-Settled : (r : Request) → Settled e r → Settled e (add_out_filter r)
  add_out_filter-Settled r h = record {
    attached = h.attached;
    heard = h.heard;
    none_pending = h.none_pending;
  }

  -- When the hook lets a request with a context through, on which the engine was obeyed so far, it
  -- was obeyed again: none of its answers was an error, but for a rejected batch of headers, and then
  -- each header that the batch packs was submitted by a call of its own, in order, before the headers
  -- were inspected; and after the connection, the request line, the headers, each block of the body
  -- that it was handed and the whole body it was asked for an intervention, and had none, before it
  -- was told any more that may raise one and before the hook returned.
  pub inspect_request-Settled :
      (host : Host) (conf : DirConf) (inc : Incoming) (r : Request)
      → Settled e r
      → Post (λ _ s. Settled e s) (λ _ _. Unit) (inspect_request e host conf inc r)
  unfolding inspect_request
  inspect_request-Settled host conf inc r h =
      let rest = modify add_out_filter >> run_body e host conf in
      seq e (run_connection e inc) (λ _. run_uri e inc >> (run_headers e inc >> rest)) r
        (run_connection-Settles inc r h)
        (λ _ s k.
          >>=-Post (λ _ t. Quiet t) (λ _ t. Settled e t) (λ _ _. Unit) (run_uri e inc)
            (λ _. run_headers e inc >> rest) s (run_uri-Quiet inc s k)
            (λ _ t l.
              seq e (run_headers e inc) (λ _. rest) t (run_headers-Settles inc t l)
                (λ _ u m.
                  run_body-Settles host conf (add_out_filter u) (add_out_filter-Settled u m))))
