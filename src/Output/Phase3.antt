-- ===== src/Output/Phase3.antt =====
-- Phase 3 of the output filter in src/mod_coraza_filter_out.c, and the filter as a whole.
use coraza_apache.Base.{
  ◌≡◌, refl, Bool-cases, inl, eqb_ℤ, ℤ, ◌∙◌, false, true, ◌||◌, sym, if_false, [], ap, leb_ℤ, not,
  pos, inr, ltb_ℤ, if_true, Bool, ◌⊎◌,
}
use coraza_apache.Output.{
  Turn, leaving, stream, response_calls, response_pairs, set_phase3_done, set_phase4_done,
  add_response_pairs, process_clean, ask_processable, intervene_clean, finalize_uninspected,
  stream_events, begin_delay, run_phase3, run_phase4, filter_brigade, output_filter, Engine,
  Request, Brigade, Response, Step, fail_closed_headers, ◌andthen◌, process_intervention,
  is_sse_response, refuse_clean, submit_headers, response_version,
}
use coraza_apache.Output.Conserves.{Same, Outcome, After, andthen-After, held, Denies}
use coraza_apache.Output.Transparent.{
  Goes, Same-next, stream-Forwarded, run_phase4-Ends, Ends, process_intervention-Denies,
}
use coraza_apache.Request.{Request, Brigade}
use coraza_apache.Engine.{
  Engine, Call, process_failed, is_response_body_accessible, process_response_body,
  process_response_headers,
}
use coraza_apache.Response.{Response, fail_closed_headers, is_sse_response, refuse_clean}
use coraza_apache.Intervention.Frame.{process_intervention-touched}
use coraza_apache.Output.Exits.{fail_closed_headers-Outcome, refuse_clean-Outcome}
use coraza_apache.Intervention.{process_intervention}
use coraza_apache.Submit.Frame.{submit_headers-told_as}
use coraza_apache.Submit.{submit_headers}

-- Nothing sent, and no delay begun.
pub record Fresh (start r : Request) : Type 0 where
  pub same : Same start r
  pub undelayed : r.ctx.headers_delayed ≡ false

undelayed-held : (r : Request) → r.ctx.headers_delayed ≡ false → held r ≡ []
undelayed-held r h = if_false r.ctx.headers_delayed _ _ h

-- A step that sends nothing and begins no delay.
Fresh-next :
    {start r s : Request}
    → Fresh start r
    → s.sent ≡ r.sent
    → s.ctx.headers_delayed ≡ r.ctx.headers_delayed
    → s.died ≡ r.died
    → Fresh start s
Fresh-next {start} {r} {s} h a b d = record {
  same =
      Same-next h.same a (undelayed-held s (b ∙ h.undelayed) ∙ sym (undelayed-held r h.undelayed)) d
        b;
  undelayed = b ∙ h.undelayed;
}

module _ (bb : Brigade) (start : Request) where
  abbrev Starts : Turn × Request → Type 0
  Starts = After (Fresh start) (Outcome bb start)

  -- A fail-closed exit and a clean refusal of phase 3.
  fail-Starts : (r : Request) → Fresh start r → Starts (leaving (fail_closed_headers r))
  fail-Starts r h = fail_closed_headers-Outcome bb start r h.same h.undelayed

  refuse-Starts :
      (ret : ℤ) (r : Request) → Denies ret → Fresh start r → Starts (leaving (refuse_clean ret r))
  refuse-Starts ret r d h = refuse_clean-Outcome bb ret start r d h.same h.undelayed

  add_response_pairs-Starts :
      (e : Engine) (resp : Response) (r : Request)
      → Fresh start r
      → Starts (add_response_pairs e resp r)
  unfolding add_response_pairs
  add_response_pairs-Starts e resp r h =
      let t = submit_headers-told_as e response_calls (response_pairs resp) r in
      let next : Fresh start (submit_headers e response_calls (response_pairs resp) r).1 =
        Fresh-next h (ap (λ x. x.sent) t) (ap (λ x. x.ctx.headers_delayed) t)
          (ap (λ x. x.died) t) in
      elim (Bool-cases (submit_headers e response_calls (response_pairs resp) r).0) [
        | inl all ↦ rw all next
        | inr some_failed ↦ rw some_failed (fail-Starts _ next)
      ]

  process_clean-Starts :
      (e : Engine) (c : Call) (r : Request) → Fresh start r → Starts (process_clean e c r)
  unfolding process_clean
  process_clean-Starts e c r h = elim (Bool-cases (process_failed (e.reply r.ctx.calls c))) [
    | inl bad ↦ rw bad (fail-Starts _ (Fresh-next h refl refl refl))
    | inr good ↦ rw good (Fresh-next h refl refl refl)
  ]

  ask_processable-Starts : (e : Engine) (r : Request) → Fresh start r → Starts (ask_processable e r)
  unfolding ask_processable
  ask_processable-Starts e r h =
      elim (Bool-cases (eqb_ℤ (e.reply r.ctx.calls is_response_body_accessible) (pos 0))) [
        | inl off ↦ rw off (Fresh-next h refl refl refl)
        | inr on ↦ rw on (Fresh-next h refl refl refl)
      ]

  intervene_clean-Starts : (e : Engine) (r : Request) → Fresh start r → Starts (intervene_clean e r)
  unfolding intervene_clean
  intervene_clean-Starts e r h =
      let t = process_intervention-touched e false r in
      let next : Fresh start (process_intervention e false r).1 =
        Fresh-next h (ap (λ x. x.sent) t) (ap (λ x. x.ctx.headers_delayed) t)
          (ap (λ x. x.died) t) in
      elim (Bool-cases (ltb_ℤ (pos 0) (process_intervention e false r).0)) [
        | inl deny ↦ rw deny (
            refuse-Starts (process_intervention e false r).0 _
              (process_intervention-Denies e r deny) next)
        | inr calm ↦ rw calm next
      ]

  stream-Starts : (r : Request) → Fresh start r → Starts (stream bb r)
  stream-Starts r h = stream-Forwarded bb start r h.same (undelayed-held r h.undelayed)

  -- A sequence of such steps.
  seq :
      (m k : Step) (r : Request)
      → Starts (m r)
      → ((s : Request) → Fresh start s → Starts (k s))
      → Starts ((m andthen k) r)
  seq m k r h f = andthen-After (Fresh start) (Fresh start) (Outcome bb start) m k r h f

  seq_last :
      (m k : Step) (r : Request)
      → Starts (m r)
      → ((s : Request) → Fresh start s → Goes bb start (k s))
      → Goes bb start ((m andthen k) r)
  seq_last m k r h f = andthen-After (Fresh start) (Same start) (Outcome bb start) m k r h f

  finalize_uninspected-Starts :
      (e : Engine) (r : Request) → Fresh start r → Starts (finalize_uninspected e bb r)
  unfolding finalize_uninspected
  finalize_uninspected-Starts e r h = elim (Bool-cases r.ctx.response_body_processable) [
    | inl seen ↦ rw (if_false (not r.ctx.response_body_processable) _ _ (rw seen)) h
    | inr unseen ↦ rw (if_true (not r.ctx.response_body_processable) _ _ (rw unseen)) (
        seq (process_clean e process_response_body)
          (set_phase4_done andthen intervene_clean e andthen stream bb) r
          (process_clean-Starts e process_response_body r h)
          (λ s h'.
            seq (intervene_clean e) (stream bb) (set_phase4_done s).1
              (intervene_clean-Starts e _ (Fresh-next h' refl refl refl)) stream-Starts))
  ]

  stream_events-Starts :
      (resp : Response) (r : Request) → Fresh start r → Starts (stream_events resp bb r)
  unfolding stream_events
  stream_events-Starts resp r h = elim (Bool-cases (is_sse_response resp.content_type)) [
    | inl events ↦ rw events (stream-Starts r h)
    | inr page ↦ rw page h
  ]

  begin_delay-Goes :
      (resp : Response) (r : Request) → Fresh start r → Goes bb start (begin_delay resp r)
  unfolding begin_delay
  begin_delay-Goes resp r h =
      elim (Bool-cases (resp.header_only || resp.is_subrequest || leb_ℤ (pos 400) r.status)) [
        | inl skip ↦ rw skip h.same
        | inr delay ↦ rw delay (record {
          same_sent = h.same.same_sent;
          same_held = sym (undelayed-held r h.undelayed) ∙ h.same.same_held;
          same_died = h.same.same_died;
          still_delayed = inr refl;
        })
      ]

  run_phase3-Goes :
      (e : Engine) (resp : Response) (r : Request)
      → Fresh start r
      → Goes bb start (run_phase3 e resp bb r)
  unfolding run_phase3
  run_phase3-Goes e resp r h =
      let p =
        process_clean e (process_response_headers r.status (response_version resp.protocol)) in
      seq_last (add_response_pairs e resp) _ (set_phase3_done r).1
        (add_response_pairs-Starts e resp _ (Fresh-next h refl refl refl))
        (λ s1 h1. seq_last p _ s1 (process_clean-Starts e _ s1 h1) (λ s2 h2.
          seq_last (ask_processable e) _ s2 (ask_processable-Starts e s2 h2) (λ s3 h3.
            seq_last (intervene_clean e) _ s3 (intervene_clean-Starts e s3 h3) (λ s4 h4.
              seq_last (finalize_uninspected e bb) _ s4 (finalize_uninspected-Starts e s4 h4)
                (λ s5 h5.
                  seq_last (stream_events resp bb) _ s5 (stream_events-Starts resp s5 h5)
                    (begin_delay-Goes resp))))))

-- No delay before phase 3, nor after a refusal.
pub record WellFormed (r : Request) : Type 0 where
  pub not_begun : r.ctx.phase3_done ≡ false → r.ctx.headers_delayed ≡ false
  pub refused : r.ctx.intervention_triggered ≡ true → r.ctx.headers_delayed ≡ false

Same-refl : (r : Request) → Same r r
Same-refl r = record {
  same_sent = refl;
  same_held = refl;
  same_died = refl;
  still_delayed = or_delayed (Bool-cases r.ctx.headers_delayed);
}
  where
    or_delayed : {b : Bool} → (b ≡ true) ⊎ (b ≡ false) → (b ≡ false) ⊎ (b ≡ true)
    or_delayed (inl x) = inr x
    or_delayed (inr x) = inl x

filter_brigade-Ends :
    (e : Engine) (resp : Response) (bb : Brigade) (r : Request)
    → WellFormed r
    → Ends bb r (filter_brigade e resp bb r)
unfolding filter_brigade
filter_brigade-Ends e resp bb r wf = elim (Bool-cases r.ctx.phase3_done) [
  | inl begun ↦
      rw
        (if_false (not r.ctx.phase3_done) ((run_phase3 e resp bb andthen run_phase4 e resp bb) r)
          (run_phase4 e resp bb r) (rw begun))
        (run_phase4-Ends bb r e resp r (Same-refl r))
  | inr first ↦
      rw
        (if_true (not r.ctx.phase3_done) ((run_phase3 e resp bb andthen run_phase4 e resp bb) r)
          (run_phase4 e resp bb r) (rw first))
        (andthen-After (Same r) (λ _. ⊥) (Outcome bb r) (run_phase3 e resp bb)
          (run_phase4 e resp bb) r
          (run_phase3-Goes bb r e resp r
            (record { same = Same-refl r; undelayed = wf.not_begun first }))
          (run_phase4-Ends bb r e resp))
]

-- On any brigade and whatever the engine answers, on a request with no header delay before phase 3
-- or after a refusal, the output filter either forwards: what it has sent and what it holds back
-- are what they were, with the brigade behind them, nothing lost, repeated or out of order; or it
-- refuses: nothing more is sent, what was held is discarded, the transaction is marked, the filter
-- has left the chain, and the client gets exactly one clean error page, whose status is 500 or the one
-- of a refusal; or a cut connection; or, only if no headers were held back when the brigade came, the
-- end of the response with a general error.
pub output_filter-Outcome :
    (e : Engine) (resp : Response) (bb : Brigade) (r : Request)
    → WellFormed r
    → After (λ _. ⊥) (Outcome bb r) (output_filter e resp bb r)
unfolding output_filter
output_filter-Outcome e resp bb r wf = elim (Bool-cases r.ctx.intervention_triggered) [
  | inl marked ↦
      rw (if_true r.ctx.intervention_triggered _ _ marked)
        (stream-Forwarded bb r r (Same-refl r) (undelayed-held r (wf.refused marked)))
  | inr clear ↦
      rw (if_false r.ctx.intervention_triggered (stream bb r) (filter_brigade e resp bb r) clear)
        (filter_brigade-Ends e resp bb r wf)
]
