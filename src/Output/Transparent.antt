-- ===== src/Output/Transparent.antt =====
-- The output filter of src/mod_coraza_filter_out.c on any brigade: it forwards the brigade behind
-- what it held, or refuses the response.
use coraza_apache.Base.{
  ◌≡◌, refl, Bool-cases, ◌∷◌, ◌∙◌, Bytes, ltb_ℤ, false, ltb, ◌&&◌, pos, length, [], inl, ap, inr,
  append-nil, ◌++◌, Bool, ◌+◌, true, if_false, ℤ, arith, Option-cases,
}
use coraza_apache.Output.{
  Turn, stream, bound_delay, submit_data, intervene_response, inspect_data, inspect_bucket,
  inspect_buckets, release, process_last, intervene_last, hold_or_pass, finish_brigade, run_phase4,
  Engine, Brigade, Request, process_intervention, Bucket, ◌andthen◌, heap, file, int_max, Response,
  max_delayed_body, has_eos, add_pending_len,
}
use coraza_apache.Output.Conserves.{Same, Outcome, After, held, andthen-After, Denies}
use coraza_apache.Request.{Brigade, Request, Bucket, eos, metadata, broken}
use coraza_apache.Engine.{
  Engine, call_failed, append_response_body, process_failed, process_response_body,
}
use coraza_apache.Intervention.{process_intervention}
use coraza_apache.Headers.{int_max}
use coraza_apache.Intervention.Frame.{process_intervention-touched}
use coraza_apache.Output.Exits.{
  fail_closed_response-Outcome, refuse_response-Outcome, flush_early-Outcome,
}
use coraza_apache.Response.{Response}
use coraza_apache.Intervention.Verdict.{
  process_intervention_idle, process_intervention_enforces, enforced_status-Refuses,
}

abbrev pub Goes : Brigade → Request → Turn × Request → Type 0
Goes bb start = After (Same start) (Outcome bb start)

-- The same for a step that always returns.
abbrev pub Ends : Brigade → Request → Turn × Request → Type 0
Ends bb start = After (λ _. ⊥) (Outcome bb start)

-- A step that changes neither what was sent nor what is held.
pub Same-next :
    {start r s : Request}
    → Same start r
    → s.sent ≡ r.sent
    → held s ≡ held r
    → s.died ≡ r.died
    → s.ctx.headers_delayed ≡ r.ctx.headers_delayed
    → Same start s
Same-next h a b c d = record {
  same_sent = a ∙ h.same_sent;
  same_held = b ∙ h.same_held;
  same_died = c ∙ h.same_died;
  still_delayed = elim h.still_delayed [ inl never ↦ inl never | inr delayed ↦ inr (d ∙ delayed) ];
}

pub intervention-Same :
    (e : Engine) (start r : Request) → Same start r → Same start (process_intervention e false r).1
intervention-Same e start r h =
    let t = process_intervention-touched e false r in
    Same-next h (ap (λ x. x.sent) t) (ap held t) (ap (λ x. x.died) t)
      (ap (λ x. x.ctx.headers_delayed) t)

and_left : (a b : Bool) → (a && b) ≡ true → a ≡ true
and_left true b h = refl
and_left false b h = h

-- A positive answer to a poll is 500 or the status of a refusal.
pub process_intervention-Denies :
    (e : Engine) (r : Request)
    → ltb_ℤ (pos 0) (process_intervention e false r).0 ≡ true
    → Denies (process_intervention e false r).0
unfolding process_intervention
process_intervention-Denies e r deny = elim (Bool-cases r.attached) [
  | inr detached ↦ inl (rw detached refl)
  | inl there ↦ elim (Option-cases (e.queued r.ctx.calls)) [
    | inl idle ↦
        absurd (idle_clash (ap (λ x. x.0) (process_intervention_idle e false r there idle)) deny)
    | inr (i, found) ↦
        inr (
          rw (process_intervention_enforces e false r i there found).0
            (enforced_status-Refuses i).0)
  ]
]
  where
    idle_clash : {s : ℤ} → s ≡ pos 0 → ltb_ℤ (pos 0) s ≡ true → ⊥
    idle_clash h k = absurd (ground arith)

module _ (bb : Brigade) (start : Request) where
  bound_delay-Goes : (b : Bytes) (r : Request) → Same start r → Goes bb start (bound_delay bb b r)
  unfolding bound_delay
  bound_delay-Goes b r h = elim (Bool-cases (r.ctx.headers_delayed && ltb 0 (length b))) [
    | inl counts ↦ elim (Bool-cases (ltb max_delayed_body (r.ctx.pending_len + length b))) [
      | inl over ↦
          rw (counts, over)
            (flush_early-Outcome bb start (add_pending_len (length b) r)
              (Same-next h refl refl refl refl) (and_left r.ctx.headers_delayed _ counts))
      | inr under ↦ rw (counts, under) (Same-next h refl refl refl refl)
    ]
    | inr free ↦ rw free h
  ]

  submit_data-Goes :
      (e : Engine) (b : Bytes) (r : Request) → Same start r → Goes bb start (submit_data e b r)
  unfolding submit_data
  submit_data-Goes e b r h = elim (Bool-cases (ltb int_max (length b))) [
    | inl long ↦ rw long (fail_closed_response-Outcome bb start r h)
    | inr fits ↦ elim (Bool-cases (call_failed (e.reply r.ctx.calls (append_response_body b)))) [
      | inl bad ↦
          rw (fits, bad) (fail_closed_response-Outcome bb start _ (Same-next h refl refl refl refl))
      | inr good ↦ rw (fits, good) (Same-next h refl refl refl refl)
    ]
  ]

  intervene_response-Goes :
      (e : Engine) (r : Request) → Same start r → Goes bb start (intervene_response e r)
  unfolding intervene_response
  intervene_response-Goes e r h =
      let next = intervention-Same e start r h in
      elim (Bool-cases (ltb_ℤ (pos 0) (process_intervention e false r).0)) [
        | inl deny ↦ rw deny (
            refuse_response-Outcome bb (process_intervention e false r).0 start _
              (process_intervention-Denies e r deny) next)
        | inr calm ↦ rw calm next
      ]

  inspect_data-Goes :
      (e : Engine) (b : Bytes) (r : Request) → Same start r → Goes bb start (inspect_data e b r)
  unfolding inspect_data
  inspect_data-Goes e b r h =
      elim (Bool-cases (ltb 0 (length b) && r.ctx.response_body_processable)) [
        | inl seen ↦ rw seen (
            andthen-After (Same start) (Same start) (Outcome bb start) (submit_data e b)
              (intervene_response e) r (submit_data-Goes e b r h) (intervene_response-Goes e))
        | inr unseen ↦ rw unseen h
      ]

  data-Goes :
      (e : Engine) (b : Bytes) (r : Request)
      → Same start r
      → Goes bb start ((bound_delay bb b andthen inspect_data e b) r)
  data-Goes e b r h =
      andthen-After (Same start) (Same start) (Outcome bb start) (bound_delay bb b)
        (inspect_data e b) r (bound_delay-Goes b r h) (inspect_data-Goes e b)

  inspect_bucket-Goes :
      (e : Engine) (b : Bucket) (r : Request)
      → Same start r
      → Goes bb start (inspect_bucket e bb b r)
  unfolding inspect_bucket
  inspect_bucket-Goes e (heap b) r h = data-Goes e b r h
  inspect_bucket-Goes e (file b) r h = data-Goes e b r h
  inspect_bucket-Goes e eos r h = h
  inspect_bucket-Goes e metadata r h = h
  inspect_bucket-Goes e broken r h = fail_closed_response-Outcome bb start r h

  inspect_buckets-Goes :
      (e : Engine) (rest : Brigade) (r : Request)
      → Same start r
      → Goes bb start (inspect_buckets e bb rest r)
  unfolding inspect_buckets
  inspect_buckets-Goes e [] r h = h
  inspect_buckets-Goes e (b ∷ rest) r h =
      andthen-After (Same start) (Same start) (Outcome bb start) (inspect_bucket e bb b)
        (inspect_buckets e bb rest) r (inspect_bucket-Goes e b r h) (inspect_buckets-Goes e rest)

  pub stream-Forwarded : (r : Request) → Same start r → held r ≡ [] → Goes bb start (stream bb r)
  stream-Forwarded r h empty =
      ap (λ x. (r.sent ++ bb) ++ x) empty
      ∙ append-nil _
      ∙ rw (← h.same_sent, ← h.same_held) (rw empty)

  release_out : (r : Request) → r.ctx.headers_delayed ≡ false → release bb r ≡ stream bb r
  unfolding release
  release_out r out = if_false r.ctx.headers_delayed _ _ out

  release-Ends : (r : Request) → Same start r → Ends bb start (release bb r)
  unfolding release
  release-Ends r h = elim (Bool-cases r.ctx.headers_delayed) [
    | inl delayed ↦ rw delayed (append-nil _ ∙ rw (← h.same_sent, ← h.same_held) (simp delayed))
    | inr out ↦ rw (release_out r out) (stream-Forwarded r h (rw out))
  ]

  process_last-Goes : (e : Engine) (r : Request) → Same start r → Goes bb start (process_last e r)
  unfolding process_last
  process_last-Goes e r h =
      elim (Bool-cases (process_failed (e.reply r.ctx.calls process_response_body))) [
        | inl bad ↦
            rw bad (fail_closed_response-Outcome bb start _ (Same-next h refl refl refl refl))
        | inr good ↦ rw good (Same-next h refl refl refl refl)
      ]

  intervene_last-Goes :
      (e : Engine) (r : Request) → Same start r → Goes bb start (intervene_last e r)
  unfolding intervene_last
  intervene_last-Goes e r h =
      let next = intervention-Same e start r h in
      elim (Bool-cases (ltb_ℤ (pos 0) (process_intervention e false r).0)) [
        | inl deny ↦ rw deny (
            refuse_response-Outcome bb (process_intervention e false r).0 start _
              (process_intervention-Denies e r deny) (Same-next next refl refl refl refl))
        | inr calm ↦ rw calm (Same-next next refl refl refl refl)
      ]

  hold_or_pass-Ends :
      (resp : Response) (r : Request) → Same start r → Ends bb start (hold_or_pass resp bb r)
  unfolding hold_or_pass
  hold_or_pass-Ends resp r h = elim (Bool-cases r.ctx.headers_delayed) [
    | inl delayed ↦ elim (Bool-cases resp.save_ok) [
      | inl saved ↦ simp (delayed, saved) (rw (← h.same_sent, ← h.same_held) (simp delayed))
      | inr lost ↦ simp (delayed, lost) (fail_closed_response-Outcome bb start r h)
    ]
    | inr out ↦ rw out (append-nil _ ∙ rw (← h.same_sent, ← h.same_held) (simp out))
  ]

  finish_brigade-Ends :
      (e : Engine) (resp : Response) (r : Request)
      → Same start r
      → Ends bb start (finish_brigade e resp bb r)
  unfolding finish_brigade
  finish_brigade-Ends e resp r h = elim (Bool-cases (has_eos bb)) [
    | inl last ↦ rw last (
        andthen-After (Same start) (λ _. ⊥) (Outcome bb start) (process_last e)
          (intervene_last e andthen release bb) r (process_last-Goes e r h)
          (λ s h'.
            andthen-After (Same start) (λ _. ⊥) (Outcome bb start) (intervene_last e) (release bb) s
              (intervene_last-Goes e s h') release-Ends))
    | inr more ↦ rw more (hold_or_pass-Ends resp r h)
  ]

  pub run_phase4-Ends :
      (e : Engine) (resp : Response) (r : Request)
      → Same start r
      → Ends bb start (run_phase4 e resp bb r)
  unfolding run_phase4
  run_phase4-Ends e resp r h =
      andthen-After (Same start) (λ _. ⊥) (Outcome bb start) (inspect_buckets e bb bb)
        (finish_brigade e resp bb) r (inspect_buckets-Goes e bb r h) (finish_brigade-Ends e resp)
