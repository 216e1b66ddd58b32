-- ===== src/Output/Released.antt =====
-- A response that `coraza_output_filter` of src/mod_coraza_filter_out.c holds back is released only
-- behind phase 4, or past the cap on the delayed bytes.
use coraza_apache.Base.{
  ◌≡◌, refl, ap, ◌∙◌, true, false, inl, inr, Bool-cases, [], ◌∷◌, Bytes, length, ◌+◌, ◌<◌, arith, ℤ,
  pos, ltb_ℤ, ltb, ◌&&◌, ◌⊎◌, Option-cases,
}
use coraza_apache.Output.Conserves.{After, andthen-After}
use coraza_apache.Output.Delay.{intervention-delay}
use coraza_apache.Response.{
  FilterStatus, passed, fail_closed_response, refuse_response, drop_response, Response,
}
use coraza_apache.Output.{
  Turn, Step, max_delayed_body, inspect_bucket, run_phase4, inspect_data, process_last,
  output_filter, fail_closed_response, release, bound_delay, submit_data, refuse_response,
  finish_brigade, inspect_buckets, hold_or_pass, intervene_last, Brigade, ◌andthen◌,
  intervene_response, leaving, flush_early, int_max, filter_brigade, Bucket, Response,
  process_intervention, has_eos, heap, file,
}
use coraza_apache.Request.{Request, Brigade, Bucket, eos, metadata, broken}
use coraza_apache.Engine.{
  Engine, process_failed, call_failed, process_response_body, append_response_body, History, Call,
}
use coraza_apache.Headers.{int_max}
use coraza_apache.Intervention.{process_intervention, poll}
use coraza_apache.Intervention.Verdict.{enforce-calls}

-- The engine was told to process the response body, and did not fail.
pub data Answered (e : Engine) : History → Type 0 where
  answered :
      {h : History}
      → process_failed (e.reply h process_response_body) ≡ false
      → Answered e (process_response_body ∷ h)
  earlier : {c : Call} {h : History} → Answered e h → Answered e (c ∷ h)

-- Phase 4 is done, and the engine was told to process the body.
abbrev pub Finalized : Engine → Request → Type 0
Finalized e r = (r.ctx.phase4_done ≡ true) × Answered e r.ctx.calls

abbrev pub Released : Engine → FilterStatus → Request → Type 0
Released e passed r = Finalized e r ⊎ (max_delayed_body < r.ctx.pending_len)
Released e _ r = Unit

abbrev Delayed : Request → Type 0
Delayed r = r.ctx.headers_delayed ≡ true

abbrev Stays : Engine → Turn × Request → Type 0
Stays e = After Delayed (Released e)

abbrev Ends : Engine → Turn × Request → Type 0
Ends e = After (λ _. ⊥) (Released e)

module _ (e : Engine) (Next : Request → Type 0) where
  fail_response : (r : Request) → After Next (Released e) (leaving (fail_closed_response r))
  unfolding fail_closed_response
  fail_response r = elim (Bool-cases r.ctx.headers_delayed) [
    | inl delayed ↦ rw delayed tt
    | inr out ↦ rw out tt
  ]

  refuse_body : (ret : ℤ) (r : Request) → After Next (Released e) (leaving (refuse_response ret r))
  unfolding refuse_response drop_response
  refuse_body ret r = elim (Bool-cases r.ctx.drop_connection) [
    | inl drop ↦ simp drop tt
    | inr page ↦ elim (Bool-cases r.ctx.headers_delayed) [
      | inl delayed ↦ simp (page, delayed) tt
      | inr out ↦ simp (page, out) tt
    ]
  ]

seq :
    (e : Engine) (m k : Step) (r : Request)
    → Stays e (m r)
    → ((s : Request) → Delayed s → Stays e (k s))
    → Stays e ((m andthen k) r)
seq e m k r h f = andthen-After Delayed Delayed (Released e) m k r h f

seq_last :
    (e : Engine) (m k : Step) (r : Request)
    → Stays e (m r)
    → ((s : Request) → Delayed s → Ends e (k s))
    → Ends e ((m andthen k) r)
seq_last e m k r h f = andthen-After Delayed (λ _. ⊥) (Released e) m k r h f

module _ (e : Engine) where
  bound_delay-Stays :
      (bb : Brigade) (b : Bytes) (r : Request) → Delayed r → Stays e (bound_delay bb b r)
  unfolding bound_delay flush_early
  bound_delay-Stays bb b r h = elim (Bool-cases (ltb 0 (length b))) [
    | inl some_bytes ↦ elim (Bool-cases (ltb max_delayed_body (r.ctx.pending_len + length b))) [
      | inl over ↦ simp (h, some_bytes, over) (inr (ground arith))
      | inr under ↦ simp (h, some_bytes, under) refl
    ]
    | inr no_bytes ↦ simp (h, no_bytes) refl
  ]

  submit_data-Stays : (b : Bytes) (r : Request) → Delayed r → Stays e (submit_data e b r)
  unfolding submit_data
  submit_data-Stays b r h = elim (Bool-cases (ltb int_max (length b))) [
    | inl long ↦ rw long (fail_response e Delayed r)
    | inr fits ↦ elim (Bool-cases (call_failed (e.reply r.ctx.calls (append_response_body b)))) [
      | inl bad ↦ rw (fits, bad) (fail_response e Delayed _)
      | inr good ↦ rw (fits, good) h
    ]
  ]

  intervene_response-Stays : (r : Request) → Delayed r → Stays e (intervene_response e r)
  unfolding intervene_response
  intervene_response-Stays r h =
      elim (Bool-cases (ltb_ℤ (pos 0) (process_intervention e false r).0)) [
        | inl deny ↦ rw deny (refuse_body e Delayed (process_intervention e false r).0 _)
        | inr calm ↦ rw calm (ap (λ d. d.delayed) (intervention-delay e r) ∙ h)
      ]

  inspect_data-Stays : (b : Bytes) (r : Request) → Delayed r → Stays e (inspect_data e b r)
  unfolding inspect_data
  inspect_data-Stays b r h =
      elim (Bool-cases (ltb 0 (length b) && r.ctx.response_body_processable)) [
        | inl seen ↦ rw seen (
            seq e (submit_data e b) (intervene_response e) r (submit_data-Stays b r h)
              intervene_response-Stays)
        | inr unseen ↦ rw unseen h
      ]

  data-Stays :
      (bb : Brigade) (b : Bytes) (r : Request)
      → Delayed r
      → Stays e ((bound_delay bb b andthen inspect_data e b) r)
  data-Stays bb b r h =
      seq e (bound_delay bb b) (inspect_data e b) r (bound_delay-Stays bb b r h)
        (inspect_data-Stays b)

  inspect_bucket-Stays :
      (bb : Brigade) (b : Bucket) (r : Request) → Delayed r → Stays e (inspect_bucket e bb b r)
  unfolding inspect_bucket
  inspect_bucket-Stays bb (heap b) r h = data-Stays bb b r h
  inspect_bucket-Stays bb (file b) r h = data-Stays bb b r h
  inspect_bucket-Stays bb eos r h = h
  inspect_bucket-Stays bb metadata r h = h
  inspect_bucket-Stays bb broken r h = fail_response e Delayed r

  inspect_buckets-Stays :
      (bb rest : Brigade) (r : Request) → Delayed r → Stays e (inspect_buckets e bb rest r)
  unfolding inspect_buckets
  inspect_buckets-Stays bb [] r h = h
  inspect_buckets-Stays bb (b ∷ rest) r h =
      seq e (inspect_bucket e bb b) (inspect_buckets e bb rest) r (inspect_bucket-Stays bb b r h)
        (inspect_buckets-Stays bb rest)

  process_last-Answered :
      (r : Request) → After (λ s. Answered e s.ctx.calls) (Released e) (process_last e r)
  unfolding process_last
  process_last-Answered r =
      elim (Bool-cases (process_failed (e.reply r.ctx.calls process_response_body))) [
        | inl bad ↦ rw bad (fail_response e (λ s. Answered e s.ctx.calls) _)
        | inr good ↦ rw good (answered good)
      ]

  -- A poll takes nothing back.
  process_intervention-Answered :
      (r : Request)
      → Answered e r.ctx.calls
      → Answered e (process_intervention e false r).1.ctx.calls
  unfolding process_intervention
  process_intervention-Answered r a = elim (Bool-cases r.attached) [
    | inr detached ↦ rw detached a
    | inl there ↦ elim (Option-cases (e.queued r.ctx.calls)) [
      | inl idle ↦ rw (there, idle) (earlier a)
      | inr (i, found) ↦
          rw (there, found) (rw (enforce-calls e i (poll e r).1) (earlier (earlier (earlier a))))
    ]
  ]

  intervene_last_done :
      (r : Request) → Answered e r.ctx.calls → After (Finalized e) (Released e) (intervene_last e r)
  unfolding intervene_last
  intervene_last_done r a = elim (Bool-cases (ltb_ℤ (pos 0) (process_intervention e false r).0)) [
    | inl deny ↦ rw deny (refuse_body e (Finalized e) (process_intervention e false r).0 _)
    | inr calm ↦ rw calm (refl, process_intervention-Answered r a)
  ]

  release-Ends : (bb : Brigade) (r : Request) → Finalized e r → Ends e (release bb r)
  unfolding release
  release-Ends bb r h = elim (Bool-cases r.ctx.headers_delayed) [
    | inl delayed ↦ simp delayed (inl h)
    | inr out ↦ simp out (inl h)
  ]

  hold_or_pass-Ends :
      (resp : Response) (bb : Brigade) (r : Request) → Delayed r → Ends e (hold_or_pass resp bb r)
  unfolding hold_or_pass
  hold_or_pass-Ends resp bb r h = elim (Bool-cases resp.save_ok) [
    | inl saved ↦ simp (h, saved) tt
    | inr lost ↦ simp (h, lost) (fail_response e (λ _. ⊥) r)
  ]

  finish_brigade-Ends :
      (resp : Response) (bb : Brigade) (r : Request)
      → Delayed r
      → Ends e (finish_brigade e resp bb r)
  unfolding finish_brigade
  finish_brigade-Ends resp bb r h = elim (Bool-cases (has_eos bb)) [
    | inl last ↦ rw last (
        andthen-After (λ s. Answered e s.ctx.calls) (λ _. ⊥) (Released e) (process_last e)
          (intervene_last e andthen release bb) r (process_last-Answered r)
          (λ s a.
            andthen-After (Finalized e) (λ _. ⊥) (Released e) (intervene_last e) (release bb) s
              (intervene_last_done s a) (release-Ends bb)))
    | inr more ↦ rw more (hold_or_pass-Ends resp bb r h)
  ]

  run_phase4-Ends :
      (resp : Response) (bb : Brigade) (r : Request) → Delayed r → Ends e (run_phase4 e resp bb r)
  unfolding run_phase4
  run_phase4-Ends resp bb r h =
      seq_last e (inspect_buckets e bb bb) (finish_brigade e resp bb) r
        (inspect_buckets-Stays bb bb r h) (finish_brigade-Ends resp bb)

  -- While a response is held back, on a request that was not refused and is past phase 3, a call of
  -- the output filter passes buckets on only if the engine was told to process the response body
  -- without failing and phase 4 is marked as done, or if the bytes held exceed
  -- `CORAZA_MAX_DELAYED_BODY`.
  pub output_filter-Released :
      (resp : Response) (bb : Brigade) (r : Request)
      → r.ctx.intervention_triggered ≡ false
      → r.ctx.phase3_done ≡ true
      → r.ctx.headers_delayed ≡ true
      → After (λ _. ⊥) (Released e) (output_filter e resp bb r)
  unfolding output_filter filter_brigade
  output_filter-Released resp bb r clear begun delayed =
      simp (clear, begun) (run_phase4-Ends resp bb r delayed)
