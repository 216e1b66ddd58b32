-- ===== src/Output/Counting.antt =====
-- The loop over the buckets in `coraza_output_filter` of src/mod_coraza_filter_out.c counts the bytes
-- that it holds back.
use coraza_apache.Base.{
  ◌≡◌, refl, ap, false, inl, inr, Bool-cases, [], ◌∷◌, ◌++◌, Bytes, length, ◌+◌, arith, ℕ, Option,
  append-nil, append_assoc, length-append, ltb, ltb_ℤ, ◌&&◌, pos,
}
use coraza_apache.Body.Loop.{contents, contents-append}
use coraza_apache.Request.{Request, Brigade, heap, Bucket, tell, eos, metadata, broken}
use coraza_apache.Output.{
  max_delayed_body, heap, process_intervention, bound_delay, flush_early, ◌andthen◌, Bucket,
  inspect_buckets, intervene_response, submit_data, inspect_data, inspect_bucket, file, int_max,
  tell,
}
use coraza_apache.Engine.{Engine, Call, call_failed, append_response_body}
use coraza_apache.Intervention.{process_intervention}
use coraza_apache.Headers.{int_max}
use coraza_apache.Output.Delay.{
  Delay, delay_of, Counted, Running, Runs, over-Bounded, Running-next, seq, fail_response,
  refuse_body, intervention-delay,
}

-- A counted block.
count_block :
    (done next : Brigade) (n : ℕ) (pending : Option Brigade) (len : ℕ)
    → length (contents next) ≡ length (contents done) + n
    → Counted done pending len
    → ltb max_delayed_body (len + n) ≡ false
    → Counted next pending (len + n)
count_block done next n pending len grows c under = record {
  exact = omega (arith, grows, c.exact);
  capped = ground arith;
}

-- A block without bytes.
count_nothing :
    (done next : Brigade) (n : ℕ) (pending : Option Brigade) (len : ℕ)
    → length (contents next) ≡ length (contents done) + n
    → Counted done pending len
    → ltb 0 n ≡ false
    → Counted next pending len
count_nothing done next n pending len grows c none_there = record {
  exact = ground (arith, grows, c.exact);
  capped = c.capped;
}

module _ (e : Engine) where
  bound_delay-Runs :
      (bb done : Brigade) (x : Bucket) (b : Bytes) (r : Request)
      → length (contents (done ++ x ∷ [])) ≡ length (contents done) + length b
      → Running done (delay_of r)
      → Runs (done ++ x ∷ []) (bound_delay bb b r)
  unfolding bound_delay flush_early
  bound_delay-Runs bb done x b r grows h = elim (Bool-cases r.ctx.headers_delayed) [
    | inl delayed ↦
        let c = h.counting delayed in
        elim (Bool-cases (ltb 0 (length b))) [
          | inl some_bytes ↦
              elim (Bool-cases (ltb max_delayed_body (r.ctx.pending_len + length b))) [
                | inl over ↦ simp (delayed, some_bytes, over) (over-Bounded _ h.running refl)
                | inr under ↦
                    simp (delayed, some_bytes, under)
                      (record {
                        running = h.running;
                        not_refused = h.not_refused;
                        counting = λ _.
                            count_block done (done ++ x ∷ []) (length b) r.ctx.pending_brigade
                              r.ctx.pending_len grows c under;
                      })
              ]
          | inr no_bytes ↦
              simp (delayed, no_bytes)
                (record {
                  running = h.running;
                  not_refused = h.not_refused;
                  counting = λ _.
                      count_nothing done (done ++ x ∷ []) (length b) r.ctx.pending_brigade
                        r.ctx.pending_len grows c no_bytes;
                })
        ]
    | inr out ↦ simp out (record {
      running = h.running;
      not_refused = h.not_refused;
      counting = λ d. absurd (ground arith);
    })
  ]

  pub talk-Runs :
      (done : Brigade) (c : Call) (r : Request)
      → Running done (delay_of r)
      → Running done (delay_of (tell e c r).1)
  talk-Runs done c r h = Running-next done r (tell e c r).1 refl h

  submit_data-Runs :
      (done : Brigade) (b : Bytes) (r : Request)
      → Running done (delay_of r)
      → Runs done (submit_data e b r)
  unfolding submit_data
  submit_data-Runs done b r h = elim (Bool-cases (ltb int_max (length b))) [
    | inl long ↦ rw long (fail_response (λ s. Running done (delay_of s)) r h.running)
    | inr fits ↦ elim (Bool-cases (call_failed (e.reply r.ctx.calls (append_response_body b)))) [
      | inl bad ↦ rw (fits, bad) (fail_response (λ s. Running done (delay_of s)) _ h.running)
      | inr good ↦ rw (fits, good) (talk-Runs done (append_response_body b) r h)
    ]
  ]

  intervene_response-Runs :
      (done : Brigade) (r : Request)
      → Running done (delay_of r)
      → Runs done (intervene_response e r)
  unfolding intervene_response
  intervene_response-Runs done r h =
      let next =
        Running-next done r (process_intervention e false r).1 (intervention-delay e r) h in
      elim (Bool-cases (ltb_ℤ (pos 0) (process_intervention e false r).0)) [
        | inl deny ↦ rw deny (
            refuse_body (λ s. Running done (delay_of s)) (process_intervention e false r).0 _
              next.running)
        | inr calm ↦ rw calm next
      ]

  inspect_data-Runs :
      (done : Brigade) (b : Bytes) (r : Request)
      → Running done (delay_of r)
      → Runs done (inspect_data e b r)
  unfolding inspect_data
  inspect_data-Runs done b r h =
      elim (Bool-cases (ltb 0 (length b) && r.ctx.response_body_processable)) [
        | inl seen ↦ rw seen (
            seq done done (submit_data e b) (intervene_response e) r (submit_data-Runs done b r h)
              (intervene_response-Runs done))
        | inr unseen ↦ rw unseen h
      ]

  data-Runs :
      (bb done : Brigade) (x : Bucket) (b : Bytes) (r : Request)
      → length (contents (done ++ x ∷ [])) ≡ length (contents done) + length b
      → Running done (delay_of r)
      → Runs (done ++ x ∷ []) ((bound_delay bb b andthen inspect_data e b) r)
  data-Runs bb done x b r grows h =
      seq (done ++ x ∷ []) (done ++ x ∷ []) (bound_delay bb b) (inspect_data e b) r
        (bound_delay-Runs bb done x b r grows h) (inspect_data-Runs (done ++ x ∷ []) b)

  -- A bucket without bytes.
  skip_bucket :
      (done : Brigade) (x : Bucket) (d : Delay)
      → contents (x ∷ []) ≡ []
      → Running done d
      → Running (done ++ x ∷ []) d
  skip_bucket done x d empty h = record {
    running = h.running;
    not_refused = h.not_refused;
    counting = λ t.
        let c = h.counting t in
        record {
          exact = omega (
            arith,
            c.exact,
            ap length (contents-append done (x ∷ [])),
            ap length (ap (λ y. contents done ++ y) empty),
            ap length (append-nil (contents done)),
          );
          capped = c.capped;
        };
  }

  grows_by :
      (done : Brigade) (x : Bucket) (b : Bytes)
      → contents (x ∷ []) ≡ b ++ []
      → length (contents (done ++ x ∷ [])) ≡ length (contents done) + length b
  grows_by done x b is = omega (
    arith,
    ap length (contents-append done (x ∷ [])),
    length-append (contents done) (contents (x ∷ [])),
    ap length is,
    ap length (append-nil b),
  )

  inspect_bucket-Runs :
      (bb done : Brigade) (x : Bucket) (r : Request)
      → Running done (delay_of r)
      → Runs (done ++ x ∷ []) (inspect_bucket e bb x r)
  unfolding inspect_bucket
  inspect_bucket-Runs bb done (heap b) r h =
      data-Runs bb done (heap b) b r (grows_by done (heap b) b refl) h
  inspect_bucket-Runs bb done (file b) r h =
      data-Runs bb done (file b) b r (grows_by done (file b) b refl) h
  inspect_bucket-Runs bb done eos r h = skip_bucket done eos (delay_of r) refl h
  inspect_bucket-Runs bb done metadata r h = skip_bucket done metadata (delay_of r) refl h
  inspect_bucket-Runs bb done broken r h =
      fail_response (λ s. Running (done ++ broken ∷ []) (delay_of s)) r h.running

  pub inspect_buckets-Runs :
      (bb done rest : Brigade) (r : Request)
      → Running done (delay_of r)
      → Runs (done ++ rest) (inspect_buckets e bb rest r)
  unfolding inspect_buckets
  inspect_buckets-Runs bb done [] r h = rw (append-nil done) h
  inspect_buckets-Runs bb done (x ∷ rest) r h = rw (← append_assoc done (x ∷ []) rest) (
      seq (done ++ x ∷ []) ((done ++ x ∷ []) ++ rest) (inspect_bucket e bb x)
        (inspect_buckets e bb rest) r (inspect_bucket-Runs bb done x r h)
        (inspect_buckets-Runs bb (done ++ x ∷ []) rest))
