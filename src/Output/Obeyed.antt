-- ===== src/Output/Obeyed.antt =====
-- Phase 3 of the output filter in src/mod_coraza_filter_out.c obeys the engine, and so does the
-- filter as a whole.
use coraza_apache.Base.{◌≡◌, refl, false, inl, inr, Bool-cases, pos, ltb_ℤ, ◌||◌, leb_ℤ, eqb_ℤ}
use coraza_apache.Obeys.{Settled, Speaking, Respected}
use coraza_apache.Obeys.Steps.{tell-Speaking, process_intervention-Settled, tell_plain-Speaking}
use coraza_apache.Output.Conserves.{After, andthen-After}
use coraza_apache.Output.Settled.{
  Obeyed, Settles, Speaks, Finishes, seq, seq_poll, seq_last, same_calls, fail_headers,
  refuse_headers, stream-Settles, run_phase4-Finishes,
}
use coraza_apache.Submit.Settled.{submit_headers-Settled, PlainCalls}
use coraza_apache.Engine.{
  Engine, is_response_body_accessible, Call, process_failed, process_response_headers,
  process_response_body, is_response_body_processable,
}
use coraza_apache.Output.{
  output_filter, stream_events, filter_brigade, process_clean, response_calls, run_phase3,
  add_response_pairs, finalize_uninspected, ask_processable, intervene_clean, begin_delay, Response,
  process_intervention, Brigade, submit_headers, is_sse_response, run_phase4, set_phase4_done,
  response_version, response_pairs, ◌andthen◌, set_phase3_done, stream,
}
use coraza_apache.Request.{Request, Brigade}
use coraza_apache.Response.{Response, is_sse_response}
use coraza_apache.Intervention.{process_intervention}
use coraza_apache.Submit.{submit_headers}

response_calls-PlainCalls : (e : Engine) → PlainCalls e response_calls
response_calls-PlainCalls e = record {
  bulk_accepted = λ b n k h. tt;
  bulk_plain = λ b n k. refl;
  bulk_same = λ b n k h. refl;
  single_accepted = λ n v h good. good;
  single_plain = λ n v. refl;
  single_same = λ n v h. refl;
}

module _ (e : Engine) where
  add_response_pairs-Settles :
      (resp : Response) (r : Request) → Settled e r → Settles e (add_response_pairs e resp r)
  unfolding add_response_pairs
  add_response_pairs-Settles resp r h =
      elim (Bool-cases (submit_headers e response_calls (response_pairs resp) r).0) [
        | inl all ↦ rw all (
            submit_headers-Settled e response_calls (response_calls-PlainCalls e)
              (response_pairs resp) r h all)
        | inr some_failed ↦ rw some_failed (fail_headers e (Settled e) _)
      ]

  process_clean-Speaks :
      (c : Call) (r : Request)
      → (process_failed (e.reply r.ctx.calls c) ≡ false → Respected e c r.ctx.calls)
      → Settled e r
      → Speaks e (process_clean e c r)
  unfolding process_clean
  process_clean-Speaks c r acc h = elim (Bool-cases (process_failed (e.reply r.ctx.calls c))) [
    | inl bad ↦ rw bad (fail_headers e (Speaking e) _)
    | inr good ↦ rw good (tell-Speaking c (acc good) h)
  ]

  same_spoken :
      {r s : Request}
      → s.attached ≡ r.attached
      → s.ctx.calls ≡ r.ctx.calls
      → Speaking e r
      → Speaking e s
  same_spoken a c h = record { attached = rw a h.attached; heard = rw c h.heard }

  ask_processable-Speaks : (r : Request) → Speaking e r → Speaks e (ask_processable e r)
  unfolding ask_processable
  ask_processable-Speaks r h =
      let asked = tell_plain-Speaking is_response_body_accessible tt refl h in
      elim (Bool-cases (eqb_ℤ (e.reply r.ctx.calls is_response_body_accessible) (pos 0))) [
        | inl off ↦ rw off (same_spoken refl refl asked)
        | inr on ↦
            rw on (
              same_spoken refl refl
                (tell_plain-Speaking is_response_body_processable tt refl asked))
      ]

  intervene_clean-Settles : (r : Request) → Speaking e r → Settles e (intervene_clean e r)
  unfolding intervene_clean
  intervene_clean-Settles r h =
      elim (Bool-cases (ltb_ℤ (pos 0) (process_intervention e false r).0)) [
        | inl deny ↦ rw deny (refuse_headers e (Settled e) (process_intervention e false r).0 _)
        | inr calm ↦ rw calm (process_intervention-Settled e false r h calm)
      ]

  finalize_uninspected-Settles :
      (bb : Brigade) (r : Request) → Settled e r → Settles e (finalize_uninspected e bb r)
  unfolding finalize_uninspected
  finalize_uninspected-Settles bb r h = elim (Bool-cases r.ctx.response_body_processable) [
    | inl inspected ↦ simp inspected h
    | inr uninspected ↦ simp uninspected (
        seq_poll e (process_clean e process_response_body)
          (set_phase4_done andthen intervene_clean e andthen stream bb) r
          (process_clean-Speaks process_response_body r (λ x. x) h)
          (λ s k.
            seq e (intervene_clean e) (stream bb) (set_phase4_done s).1
              (intervene_clean-Settles _ (same_spoken refl refl k)) (stream-Settles e bb)))
  ]

  stream_events-Settles :
      (resp : Response) (bb : Brigade) (r : Request)
      → Settled e r
      → Settles e (stream_events resp bb r)
  unfolding stream_events
  stream_events-Settles resp bb r h = elim (Bool-cases (is_sse_response resp.content_type)) [
    | inl events ↦ rw events (stream-Settles e bb r h)
    | inr page ↦ rw page h
  ]

  begin_delay-Settles :
      (resp : Response) (r : Request) → Settled e r → Settles e (begin_delay resp r)
  unfolding begin_delay
  begin_delay-Settles resp r h =
      elim (Bool-cases (resp.header_only || resp.is_subrequest || leb_ℤ (pos 400) r.status)) [
        | inl skip ↦ rw skip h
        | inr delay ↦ rw delay (same_calls e refl refl h)
      ]

  run_phase3-Settles :
      (resp : Response) (bb : Brigade) (r : Request)
      → Settled e r
      → Settles e (run_phase3 e resp bb r)
  unfolding run_phase3
  run_phase3-Settles resp bb r h =
      let p =
        process_clean e (process_response_headers r.status (response_version resp.protocol)) in
      seq e (add_response_pairs e resp) _ (set_phase3_done r).1
        (add_response_pairs-Settles resp _ (same_calls e refl refl h))
        (λ s1 h1. seq_poll e p _ s1 (process_clean-Speaks _ s1 (λ x. x) h1) (λ s2 h2.
          andthen-After (Speaking e) (Settled e) (Obeyed e) (ask_processable e) _ s2
            (ask_processable-Speaks s2 h2)
            (λ s3 h3. seq e (intervene_clean e) _ s3 (intervene_clean-Settles s3 h3) (λ s4 h4.
              seq e (finalize_uninspected e bb) _ s4 (finalize_uninspected-Settles bb s4 h4)
                (λ s5 h5.
                  seq e (stream_events resp bb) _ s5 (stream_events-Settles resp bb s5 h5)
                    (begin_delay-Settles resp))))))

  filter_brigade-Finishes :
      (resp : Response) (bb : Brigade) (r : Request)
      → Settled e r
      → Finishes e (filter_brigade e resp bb r)
  unfolding filter_brigade
  filter_brigade-Finishes resp bb r h = elim (Bool-cases r.ctx.phase3_done) [
    | inl begun ↦ simp begun (run_phase4-Finishes e resp bb r h)
    | inr first ↦ simp first (
        seq_last e (run_phase3 e resp bb) (run_phase4 e resp bb) r (run_phase3-Settles resp bb r h)
          (run_phase4-Finishes e resp bb))
  ]

  -- On a request on which the engine was obeyed so far, whenever the output filter forwards
  -- buckets or holds them back the engine was obeyed again: no answer was an error, but for a
  -- rejected batch of headers, and after the response headers, each piece of the body that it was
  -- handed and the whole body it was asked for an intervention, and had none, before it was told
  -- any more that may raise one and before the filter returned.
  pub output_filter-Obeyed :
      (resp : Response) (bb : Brigade) (r : Request)
      → Settled e r
      → After (λ _. ⊥) (Obeyed e) (output_filter e resp bb r)
  unfolding output_filter
  output_filter-Obeyed resp bb r h = elim (Bool-cases r.ctx.intervention_triggered) [
    | inl marked ↦ simp marked (same_calls e refl refl h)
    | inr clear ↦ simp clear (filter_brigade-Finishes resp bb r h)
  ]
