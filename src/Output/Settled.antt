-- ===== src/Output/Settled.antt =====
-- The output filter of src/mod_coraza_filter_out.c obeys the engine: whatever it passes on or holds
-- back went through with no error and no intervention outstanding.
use coraza_apache.Base.{
  ◌≡◌, refl, false, inl, inr, Bool-cases, [], ◌∷◌, Bytes, length, pos, ltb_ℤ, ltb, ◌&&◌, ℤ, ◌+◌,
}
use coraza_apache.Obeys.{Settled, Speaking}
use coraza_apache.Obeys.Steps.{tell-Speaking, process_intervention-Settled}
use coraza_apache.Output.Conserves.{After, andthen-After}
use coraza_apache.Response.{
  FilterStatus, passed, success, refuse_response, refuse_clean, fail_closed_response,
  fail_closed_headers, drop_response, Response,
}
use coraza_apache.Engine.{
  Engine, process_failed, process_response_body, call_failed, append_response_body,
}
use coraza_apache.Output.{
  Turn, inspect_buckets, finish_brigade, submit_data, bound_delay, hold_or_pass, inspect_bucket,
  intervene_last, release, intervene_response, inspect_data, run_phase4, Step, process_last, Bucket,
  stream, flush_early, leaving, ◌andthen◌, process_intervention, int_max, Response, has_eos,
  max_delayed_body, heap, file,
}
use coraza_apache.Request.{Brigade, Request, Bucket, eos, metadata, broken}
use coraza_apache.Intervention.{process_intervention}
use coraza_apache.Headers.{int_max}

-- Where the filter forwards or holds, the engine was obeyed; an error ends the response otherwise.
abbrev pub Obeyed : Engine → FilterStatus → Request → Type 0
Obeyed e passed r = Settled e r
Obeyed e success r = Settled e r
Obeyed e _ r = Unit

module _ (e : Engine) where
  abbrev pub Settles : Turn × Request → Type 0
  Settles = After (Settled e) (Obeyed e)

  abbrev pub Speaks : Turn × Request → Type 0
  Speaks = After (Speaking e) (Obeyed e)

  abbrev pub Finishes : Turn × Request → Type 0
  Finishes = After (λ _. ⊥) (Obeyed e)

  -- A refusal forwards nothing, whatever is said to follow a step that goes on.
  pub fail_headers :
      (Next : Request → Type 0) (r : Request)
      → After Next (Obeyed e) (leaving (fail_closed_headers r))
  unfolding fail_closed_headers
  fail_headers Next r = tt

  fail_response :
      (Next : Request → Type 0) (r : Request)
      → After Next (Obeyed e) (leaving (fail_closed_response r))
  unfolding fail_closed_response
  fail_response Next r = elim (Bool-cases r.ctx.headers_delayed) [
    | inl delayed ↦ rw delayed tt
    | inr out ↦ rw out tt
  ]

  drop_all :
      (Next : Request → Type 0) (r : Request) → After Next (Obeyed e) (leaving (drop_response r))
  unfolding drop_response
  drop_all Next r = tt

  pub refuse_headers :
      (Next : Request → Type 0) (ret : ℤ) (r : Request)
      → After Next (Obeyed e) (leaving (refuse_clean ret r))
  unfolding refuse_clean
  refuse_headers Next ret r = elim (Bool-cases r.ctx.drop_connection) [
    | inl drop ↦ simp drop (drop_all Next r)
    | inr page ↦ simp page tt
  ]

  refuse_body :
      (Next : Request → Type 0) (ret : ℤ) (r : Request)
      → After Next (Obeyed e) (leaving (refuse_response ret r))
  unfolding refuse_response
  refuse_body Next ret r = elim (Bool-cases r.ctx.drop_connection) [
    | inl drop ↦ simp drop (drop_all Next r)
    | inr page ↦ elim (Bool-cases r.ctx.headers_delayed) [
      | inl delayed ↦ simp (page, delayed) tt
      | inr out ↦ simp (page, out) tt
    ]
  ]

  -- The request fields that the engine is not told of.
  pub same_calls :
      {r s : Request}
      → s.attached ≡ r.attached
      → s.ctx.calls ≡ r.ctx.calls
      → Settled e r
      → Settled e s
  same_calls a c h = record {
    attached = rw a h.attached;
    heard = rw c h.heard;
    none_pending = rw c h.none_pending;
  }

  pub seq :
      (m k : Step) (r : Request)
      → Settles (m r)
      → ((s : Request) → Settled e s → Settles (k s))
      → Settles ((m andthen k) r)
  seq m k r h f = andthen-After (Settled e) (Settled e) (Obeyed e) m k r h f

  pub seq_poll :
      (m k : Step) (r : Request)
      → Speaks (m r)
      → ((s : Request) → Speaking e s → Settles (k s))
      → Settles ((m andthen k) r)
  seq_poll m k r h f = andthen-After (Speaking e) (Settled e) (Obeyed e) m k r h f

  pub seq_last :
      (m k : Step) (r : Request)
      → Settles (m r)
      → ((s : Request) → Settled e s → Finishes (k s))
      → Finishes ((m andthen k) r)
  seq_last m k r h f = andthen-After (Settled e) (λ _. ⊥) (Obeyed e) m k r h f

  pub stream-Settles : (bb : Brigade) (r : Request) → Settled e r → Settles (stream bb r)
  stream-Settles bb r h = same_calls refl refl h

  -- The body loop.
  bound_delay-Settles :
      (bb : Brigade) (b : Bytes) (r : Request) → Settled e r → Settles (bound_delay bb b r)
  unfolding bound_delay flush_early
  bound_delay-Settles bb b r h = elim (Bool-cases (r.ctx.headers_delayed && ltb 0 (length b))) [
    | inl counts ↦ elim (Bool-cases (ltb max_delayed_body (r.ctx.pending_len + length b))) [
      | inl over ↦ rw (counts, over) (same_calls refl refl h)
      | inr under ↦ rw (counts, under) (same_calls refl refl h)
    ]
    | inr free ↦ rw free h
  ]

  submit_data-Speaks : (b : Bytes) (r : Request) → Settled e r → Speaks (submit_data e b r)
  unfolding submit_data
  submit_data-Speaks b r h = elim (Bool-cases (ltb int_max (length b))) [
    | inl long ↦ rw long (fail_response (Speaking e) r)
    | inr fits ↦ elim (Bool-cases (call_failed (e.reply r.ctx.calls (append_response_body b)))) [
      | inl bad ↦ rw (fits, bad) (fail_response (Speaking e) _)
      | inr good ↦ rw (fits, good) (tell-Speaking (append_response_body b) good h)
    ]
  ]

  intervene_response-Settles : (r : Request) → Speaking e r → Settles (intervene_response e r)
  unfolding intervene_response
  intervene_response-Settles r h =
      elim (Bool-cases (ltb_ℤ (pos 0) (process_intervention e false r).0)) [
        | inl deny ↦ rw deny (refuse_body (Settled e) (process_intervention e false r).0 _)
        | inr calm ↦ rw calm (process_intervention-Settled e false r h calm)
      ]

  inspect_data-Settles : (b : Bytes) (r : Request) → Settled e r → Settles (inspect_data e b r)
  unfolding inspect_data
  inspect_data-Settles b r h =
      elim (Bool-cases (ltb 0 (length b) && r.ctx.response_body_processable)) [
        | inl seen ↦ rw seen (
            seq_poll (submit_data e b) (intervene_response e) r (submit_data-Speaks b r h)
              intervene_response-Settles)
        | inr unseen ↦ rw unseen h
      ]

  data-Settles :
      (bb : Brigade) (b : Bytes) (r : Request)
      → Settled e r
      → Settles ((bound_delay bb b andthen inspect_data e b) r)
  data-Settles bb b r h =
      seq (bound_delay bb b) (inspect_data e b) r (bound_delay-Settles bb b r h)
        (inspect_data-Settles b)

  inspect_bucket-Settles :
      (bb : Brigade) (b : Bucket) (r : Request) → Settled e r → Settles (inspect_bucket e bb b r)
  unfolding inspect_bucket
  inspect_bucket-Settles bb (heap b) r h = data-Settles bb b r h
  inspect_bucket-Settles bb (file b) r h = data-Settles bb b r h
  inspect_bucket-Settles bb eos r h = h
  inspect_bucket-Settles bb metadata r h = h
  inspect_bucket-Settles bb broken r h = fail_response (Settled e) r

  inspect_buckets-Settles :
      (bb rest : Brigade) (r : Request) → Settled e r → Settles (inspect_buckets e bb rest r)
  unfolding inspect_buckets
  inspect_buckets-Settles bb [] r h = h
  inspect_buckets-Settles bb (b ∷ rest) r h =
      seq (inspect_bucket e bb b) (inspect_buckets e bb rest) r (inspect_bucket-Settles bb b r h)
        (inspect_buckets-Settles bb rest)

  -- The end of a brigade.
  process_last-Speaks : (r : Request) → Settled e r → Speaks (process_last e r)
  unfolding process_last
  process_last-Speaks r h =
      elim (Bool-cases (process_failed (e.reply r.ctx.calls process_response_body))) [
        | inl bad ↦ rw bad (fail_response (Speaking e) _)
        | inr good ↦ rw good (tell-Speaking process_response_body good h)
      ]

  intervene_last-Settles : (r : Request) → Speaking e r → Settles (intervene_last e r)
  unfolding intervene_last
  intervene_last-Settles r h =
      elim (Bool-cases (ltb_ℤ (pos 0) (process_intervention e false r).0)) [
        | inl deny ↦ rw deny (refuse_body (Settled e) (process_intervention e false r).0 _)
        | inr calm ↦ rw calm (same_calls refl refl (process_intervention-Settled e false r h calm))
      ]

  release-Finishes : (bb : Brigade) (r : Request) → Settled e r → Finishes (release bb r)
  unfolding release
  release-Finishes bb r h = elim (Bool-cases r.ctx.headers_delayed) [
    | inl delayed ↦ simp delayed (same_calls refl refl h)
    | inr out ↦ simp out (same_calls refl refl h)
  ]

  hold_or_pass-Finishes :
      (resp : Response) (bb : Brigade) (r : Request)
      → Settled e r
      → Finishes (hold_or_pass resp bb r)
  unfolding hold_or_pass
  hold_or_pass-Finishes resp bb r h = elim (Bool-cases r.ctx.headers_delayed) [
    | inl delayed ↦ elim (Bool-cases resp.save_ok) [
      | inl saved ↦ simp (delayed, saved) (same_calls refl refl h)
      | inr lost ↦ simp (delayed, lost) (fail_response (λ _. ⊥) r)
    ]
    | inr out ↦ simp out (same_calls refl refl h)
  ]

  finish_brigade-Finishes :
      (resp : Response) (bb : Brigade) (r : Request)
      → Settled e r
      → Finishes (finish_brigade e resp bb r)
  unfolding finish_brigade
  finish_brigade-Finishes resp bb r h = elim (Bool-cases (has_eos bb)) [
    | inl last ↦ rw last (
        andthen-After (Speaking e) (λ _. ⊥) (Obeyed e) (process_last e)
          (intervene_last e andthen release bb) r (process_last-Speaks r h)
          (λ s k.
            seq_last (intervene_last e) (release bb) s (intervene_last-Settles s k)
              (release-Finishes bb)))
    | inr more ↦ rw more (hold_or_pass-Finishes resp bb r h)
  ]

  pub run_phase4-Finishes :
      (resp : Response) (bb : Brigade) (r : Request)
      → Settled e r
      → Finishes (run_phase4 e resp bb r)
  unfolding run_phase4
  run_phase4-Finishes resp bb r h =
      seq_last (inspect_buckets e bb bb) (finish_brigade e resp bb) r
        (inspect_buckets-Settles bb bb r h) (finish_brigade-Finishes resp bb)
