-- ===== src/Output/Capped.antt =====
-- The header delay of src/mod_coraza_filter_out.c over a whole call of `coraza_output_filter`: the
-- bytes held back are counted exactly and stay within the cap.
use coraza_apache.Base.{
  ◌≡◌, refl, ap, true, false, inl, inr, Bool-cases, [], arith, pos, ltb_ℤ, ◌||◌, leb_ℤ, eqb_ℤ, not,
  ℤ, if_false, if_true,
}
use coraza_apache.Output.Conserves.{After, andthen-After}
use coraza_apache.Output.Delay.{
  Delay, delay_of, Bounded, Running, Runs, Finishes, Leaves, over-Bounded, drop_all,
  intervention-delay,
}
use coraza_apache.Output.Exits.{refuse_clean_drop}
use coraza_apache.Engine.{
  Engine, is_response_body_accessible, process_failed, Call, process_response_body,
  process_response_headers,
}
use coraza_apache.Output.{
  Step, Turn, finalize_uninspected, output_filter, begin_delay, refuse_clean, run_phase3,
  stream_events, add_response_pairs, process_clean, ◌andthen◌, stream, intervene_clean,
  ask_processable, fail_closed_headers, filter_brigade, run_phase4, leaving, Response,
  process_intervention, set_phase4_done, tell, is_sse_response, set_phase3_done, response_calls,
  response_pairs, response_version, submit_headers,
}
use coraza_apache.Request.{Brigade, Request, tell}
use coraza_apache.Response.{refuse_clean, fail_closed_headers, Response, is_sse_response}
use coraza_apache.Intervention.{process_intervention}
use coraza_apache.Submit.Frame.{submit_headers-told_as}
use coraza_apache.Submit.{submit_headers}
use coraza_apache.Output.Holding.{seq_last, run_phase4-Finishes}

-- Within a call, in phase 3: no delay has begun.
record Starting (d : Delay) : Type 0 where
  started : d.begun ≡ true
  not_refused : d.refused ≡ false
  no_delay : d.delayed ≡ false
  none_counted : d.pending_len ≡ 0

abbrev Starts : Turn × Request → Type 0
Starts = After (λ r. Starting (delay_of r)) Leaves

Starting-next :
    (r s : Request) → delay_of s ≡ delay_of r → Starting (delay_of r) → Starting (delay_of s)
Starting-next r s e h = rw e h

start :
    (m k : Step) (r : Request)
    → Starts (m r)
    → ((s : Request) → Starting (delay_of s) → Starts (k s))
    → Starts ((m andthen k) r)
start m k r h f =
    andthen-After (λ s. Starting (delay_of s)) (λ s. Starting (delay_of s)) Leaves m k r h f

start_last :
    (m k : Step) (r : Request)
    → Starts (m r)
    → ((s : Request) → Starting (delay_of s) → Runs [] (k s))
    → Runs [] ((m andthen k) r)
start_last m k r h f =
    andthen-After (λ s. Starting (delay_of s)) (λ s. Running [] (delay_of s)) Leaves m k r h f

module _ (e : Engine) where
  fail_headers : (r : Request) → Starting (delay_of r) → Starts (leaving (fail_closed_headers r))
  unfolding fail_closed_headers
  fail_headers r h = over-Bounded _ h.started h.no_delay

  refuse_headers :
      (ret : ℤ) (r : Request) → Starting (delay_of r) → Starts (leaving (refuse_clean ret r))
  unfolding refuse_clean
  refuse_headers ret r h = elim (Bool-cases r.ctx.drop_connection) [
    | inl drop ↦
        rw (refuse_clean_drop ret r drop) (drop_all (λ s. Starting (delay_of s)) r h.started)
    | inr page ↦ simp page (over-Bounded _ h.started h.no_delay)
  ]

  add_response_pairs-Starts :
      (resp : Response) (r : Request) → Starting (delay_of r) → Starts (add_response_pairs e resp r)
  unfolding add_response_pairs
  add_response_pairs-Starts resp r h =
      let t = submit_headers-told_as e response_calls (response_pairs resp) r in
      let s = (submit_headers e response_calls (response_pairs resp) r).1 in
      let next = Starting-next r s (ap delay_of t) h in
      elim (Bool-cases (submit_headers e response_calls (response_pairs resp) r).0) [
        | inl all ↦ rw all next
        | inr some_failed ↦ rw some_failed (fail_headers s next)
      ]

  process_clean-Starts :
      (c : Call) (r : Request) → Starting (delay_of r) → Starts (process_clean e c r)
  unfolding process_clean
  process_clean-Starts c r h =
      let next = Starting-next r (tell e c r).1 refl h in
      elim (Bool-cases (process_failed (e.reply r.ctx.calls c))) [
        | inl bad ↦ rw bad (fail_headers (tell e c r).1 next)
        | inr good ↦ rw good next
      ]

  ask_processable-Starts : (r : Request) → Starting (delay_of r) → Starts (ask_processable e r)
  unfolding ask_processable
  ask_processable-Starts r h =
      elim (Bool-cases (eqb_ℤ (e.reply r.ctx.calls is_response_body_accessible) (pos 0))) [
        | inl off ↦ rw off h
        | inr on ↦ rw on h
      ]

  intervene_clean-Starts : (r : Request) → Starting (delay_of r) → Starts (intervene_clean e r)
  unfolding intervene_clean
  intervene_clean-Starts r h =
      let P = process_intervention e false r in
      let next = Starting-next r P.1 (intervention-delay e r) h in
      elim (Bool-cases (ltb_ℤ (pos 0) P.0)) [
        | inl deny ↦ rw deny (refuse_headers P.0 P.1 next)
        | inr calm ↦ rw calm next
      ]

  stream-Starts : (bb : Brigade) (r : Request) → Starting (delay_of r) → Starts (stream bb r)
  stream-Starts bb r h = over-Bounded _ h.started h.no_delay

  finalize_uninspected-Starts :
      (bb : Brigade) (r : Request) → Starting (delay_of r) → Starts (finalize_uninspected e bb r)
  unfolding finalize_uninspected
  finalize_uninspected-Starts bb r h = elim (Bool-cases r.ctx.response_body_processable) [
    | inl inspected ↦ simp inspected h
    | inr uninspected ↦ simp uninspected (
        start (process_clean e process_response_body)
          (set_phase4_done andthen intervene_clean e andthen stream bb) r
          (process_clean-Starts process_response_body r h)
          (λ s k.
            start (intervene_clean e) (stream bb) (set_phase4_done s).1
              (intervene_clean-Starts _ (Starting-next s (set_phase4_done s).1 refl k))
              (stream-Starts bb)))
  ]

  stream_events-Starts :
      (resp : Response) (bb : Brigade) (r : Request)
      → Starting (delay_of r)
      → Starts (stream_events resp bb r)
  unfolding stream_events
  stream_events-Starts resp bb r h = elim (Bool-cases (is_sse_response resp.content_type)) [
    | inl events ↦ rw events (stream-Starts bb r h)
    | inr page ↦ rw page h
  ]

  begin_delay-Runs :
      (resp : Response) (r : Request) → Starting (delay_of r) → Runs [] (begin_delay resp r)
  unfolding begin_delay
  begin_delay-Runs resp r h =
      elim (Bool-cases (resp.header_only || resp.is_subrequest || leb_ℤ (pos 400) r.status)) [
        | inl skip ↦ rw skip (record {
          running = h.started;
          not_refused = h.not_refused;
          counting = λ d. absurd (grind (arith, h.no_delay));
        })
        | inr delay ↦ rw delay (record {
          running = h.started;
          not_refused = h.not_refused;
          counting = λ _. record {
            exact = omega (arith, h.none_counted);
            capped = omega (arith, h.none_counted);
          };
        })
      ]

  run_phase3-Runs :
      (resp : Response) (bb : Brigade) (r : Request)
      → Starting (delay_of (set_phase3_done r).1)
      → Runs [] (run_phase3 e resp bb r)
  unfolding run_phase3
  run_phase3-Runs resp bb r h =
      let p =
        process_clean e (process_response_headers r.status (response_version resp.protocol)) in
      start_last (add_response_pairs e resp) _ (set_phase3_done r).1
        (add_response_pairs-Starts resp _ h)
        (λ s1 h1. start_last p _ s1 (process_clean-Starts _ s1 h1) (λ s2 h2.
          start_last (ask_processable e) _ s2 (ask_processable-Starts s2 h2) (λ s3 h3.
            start_last (intervene_clean e) _ s3 (intervene_clean-Starts s3 h3) (λ s4 h4.
              start_last (finalize_uninspected e bb) _ s4 (finalize_uninspected-Starts bb s4 h4)
                (λ s5 h5.
                  start_last (stream_events resp bb) _ s5 (stream_events-Starts resp bb s5 h5)
                    (begin_delay-Runs resp))))))

  filter_brigade-Finishes :
      (resp : Response) (bb : Brigade) (r : Request)
      → Bounded (delay_of r)
      → r.ctx.intervention_triggered ≡ false
      → Finishes (filter_brigade e resp bb r)
  unfolding filter_brigade
  filter_brigade-Finishes resp bb r h clear = elim (Bool-cases r.ctx.phase3_done) [
    | inl begun ↦
        rw
          (if_false (not r.ctx.phase3_done) ((run_phase3 e resp bb andthen run_phase4 e resp bb) r)
            (run_phase4 e resp bb r) (rw begun))
          (run_phase4-Finishes e resp bb r
            (record { running = begun; not_refused = clear; counting = h.counted }))
    | inr first ↦
        let (no_delay, none_counted) = h.not_begun first in
        rw
          (if_true (not r.ctx.phase3_done) ((run_phase3 e resp bb andthen run_phase4 e resp bb) r)
            (run_phase4 e resp bb r) (rw first))
          (seq_last [] (run_phase3 e resp bb) (run_phase4 e resp bb) r
            (run_phase3-Runs resp bb r (record {
              started = refl;
              not_refused = clear;
              no_delay = no_delay;
              none_counted = none_counted;
            }))
            (run_phase4-Finishes e resp bb))
  ]

  -- Whatever it answers, the output filter keeps the header delay's state in order, if it was:
  -- while the response is held back, the bytes held are counted exactly and are at most
  -- `CORAZA_MAX_DELAYED_BODY`; no delay is begun before phase 3 or goes on after a refusal.
  pub output_filter-Bounded :
      (resp : Response) (bb : Brigade) (r : Request)
      → Bounded (delay_of r)
      → After (λ _. ⊥) (λ _ s. Bounded (delay_of s)) (output_filter e resp bb r)
  unfolding output_filter
  output_filter-Bounded resp bb r h = elim (Bool-cases r.ctx.intervention_triggered) [
    | inl marked ↦
        rw (if_true r.ctx.intervention_triggered (stream bb r) (filter_brigade e resp bb r) marked)
          (record { not_begun = h.not_begun; undelayed = h.undelayed; counted = h.counted })
    | inr clear ↦
        rw (if_false r.ctx.intervention_triggered (stream bb r) (filter_brigade e resp bb r) clear)
          (filter_brigade-Finishes resp bb r h clear)
  ]
