-- ===== src/Output/Holding.antt =====
-- The end of a brigade in `coraza_output_filter` of src/mod_coraza_filter_out.c: the header delay
-- ends, or the brigade joins what is held back.
use coraza_apache.Base.{
  ◌≡◌, refl, ap, true, false, inl, inr, Bool-cases, [], ◌++◌, length, arith, length-append, pos,
  ltb_ℤ, some,
}
use coraza_apache.Output.Conserves.{andthen-After}
use coraza_apache.Body.Loop.{contents, contents-append}
use coraza_apache.Body.{brigade_of}
use coraza_apache.Output.Delay.{
  Delay, delay_of, Counted, Running, Runs, Finishes, Leaves, over-Bounded, Running-next,
  fail_response, refuse_body, intervention-delay,
}
use coraza_apache.Engine.{Engine, process_failed, process_response_body}
use coraza_apache.Output.{
  Step, intervene_last, finish_brigade, release, ◌andthen◌, hold_or_pass, process_last, run_phase4,
  Response, process_intervention, set_phase4_done, inspect_buckets, has_eos,
}
use coraza_apache.Request.{Brigade, Request}
use coraza_apache.Response.{Response}
use coraza_apache.Intervention.{process_intervention}
use coraza_apache.Output.Counting.{inspect_buckets-Runs, talk-Runs}

pub seq_last :
    (done : Brigade) (m k : Step) (r : Request)
    → Runs done (m r)
    → ((s : Request) → Running done (delay_of s) → Finishes (k s))
    → Finishes ((m andthen k) r)
seq_last done m k r h f = andthen-After (λ s. Running done (delay_of s)) (λ _. ⊥) Leaves m k r h f

module _ (e : Engine) where
  process_last-Runs :
      (done : Brigade) (r : Request) → Running done (delay_of r) → Runs done (process_last e r)
  unfolding process_last
  process_last-Runs done r h =
      elim (Bool-cases (process_failed (e.reply r.ctx.calls process_response_body))) [
        | inl bad ↦ rw bad (fail_response (λ s. Running done (delay_of s)) _ h.running)
        | inr good ↦ rw good (talk-Runs e done process_response_body r h)
      ]

  intervene_last-Runs :
      (done : Brigade) (r : Request) → Running done (delay_of r) → Runs done (intervene_last e r)
  unfolding intervene_last
  intervene_last-Runs done r h =
      let P = process_intervention e false r in
      let next = Running-next done r P.1 (intervention-delay e r) h in
      elim (Bool-cases (ltb_ℤ (pos 0) P.0)) [
        | inl deny ↦
            rw deny (
              refuse_body (λ s. Running done (delay_of s)) P.0 (set_phase4_done P.1).1 next.running)
        | inr calm ↦ rw calm (Running-next done P.1 (set_phase4_done P.1).1 refl next)
      ]

  release-Finishes :
      (bb done : Brigade) (r : Request) → Running done (delay_of r) → Finishes (release bb r)
  unfolding release
  release-Finishes bb done r h = elim (Bool-cases r.ctx.headers_delayed) [
    | inl delayed ↦ simp delayed (over-Bounded _ h.running refl)
    | inr out ↦ simp out (over-Bounded _ h.running refl)
  ]

  -- The brigade joins what is held back.
  hold_more :
      (bb : Brigade) (d : Delay)
      → Running bb d
      → d.delayed ≡ true
      → Counted [] (some (brigade_of d.pending ++ bb)) d.pending_len
  hold_more bb d h delayed =
      let c = h.counting delayed in
      record {
        exact = omega (
          arith,
          c.exact,
          ap length (contents-append (brigade_of d.pending) bb),
          length-append (contents (brigade_of d.pending)) (contents bb),
        );
        capped = c.capped;
      }

  hold_or_pass-Finishes :
      (resp : Response) (bb : Brigade) (r : Request)
      → Running bb (delay_of r)
      → Finishes (hold_or_pass resp bb r)
  unfolding hold_or_pass
  hold_or_pass-Finishes resp bb r h = elim (Bool-cases r.ctx.headers_delayed) [
    | inl delayed ↦ elim (Bool-cases resp.save_ok) [
      | inl saved ↦
          simp (delayed, saved)
            (record {
              not_begun = λ b. absurd (grind (arith, h.running));
              undelayed = λ b. absurd (grind (arith, h.not_refused));
              counted = λ _. hold_more bb (delay_of r) h delayed;
            })
      | inr lost ↦ simp (delayed, lost) (fail_response (λ _. ⊥) r h.running)
    ]
    | inr out ↦ simp out (over-Bounded _ h.running refl)
  ]

  finish_brigade-Finishes :
      (resp : Response) (bb : Brigade) (r : Request)
      → Running bb (delay_of r)
      → Finishes (finish_brigade e resp bb r)
  unfolding finish_brigade
  finish_brigade-Finishes resp bb r h = elim (Bool-cases (has_eos bb)) [
    | inl last ↦ rw last (
        seq_last bb (process_last e) (intervene_last e andthen release bb) r
          (process_last-Runs bb r h)
          (λ s k.
            seq_last bb (intervene_last e) (release bb) s (intervene_last-Runs bb s k)
              (release-Finishes bb bb)))
    | inr more ↦ rw more (hold_or_pass-Finishes resp bb r h)
  ]

  pub run_phase4-Finishes :
      (resp : Response) (bb : Brigade) (r : Request)
      → Running [] (delay_of r)
      → Finishes (run_phase4 e resp bb r)
  unfolding run_phase4
  run_phase4-Finishes resp bb r h =
      seq_last bb (inspect_buckets e bb bb) (finish_brigade e resp bb) r
        (inspect_buckets-Runs e bb [] bb r h) (finish_brigade-Finishes resp bb)
