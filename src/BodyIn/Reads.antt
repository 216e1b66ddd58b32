-- ===== src/BodyIn/Reads.antt =====
-- Reading to the end through the replay filter of src/mod_coraza_body_in.c: a handler that asks for
-- a fixed number of bytes at a time.
use coraza_apache.Base.{
  ◌≡◌, refl, ap, sym, ◌∙◌, ◌++◌, [], ◌∷◌, ℕ, zero, arith, ◌<◌, some, false, pos, append-nil,
  append_assoc, suc, ◌⊎◌, ℤ, inr, ◌≢◌, inl,
}
use coraza_apache.BodyIn.{
  Apr, AprLaws, Rv, apr_success, apr_incomplete, apr_error, Below, read_bytes, pieces, size,
  input_filter, hand_over_part, replay_mode, hand_over,
}
use coraza_apache.BodyIn.Moves.{pieces-append, size-append}
use coraza_apache.BodyIn.Delivers.{input_filter_replays}
use coraza_apache.Body.{brigade_of}
use coraza_apache.Request.{Request, Brigade, Bucket}

-- At most `k` reads of `n + 1` bytes each, until nothing is saved any more.
pub read_on : Apr → Below → ℕ → ℕ → Brigade → Request → Brigade × Request
read_on a below n zero bb r = (bb, r)
read_on a below n (suc k) bb r = elim (brigade_of r.ctx.saved_body) [
  | [] ↦ (bb, r)
  | b ∷ bs ↦
      let (rv, (bb', r')) = input_filter a below read_bytes (pos (suc n)) bb r in
      read_on a below n k bb' r'
]

-- A partition that does not fail.
abbrev pub NeverFails : Apr → Type 0
NeverFails a = (saved : Brigade) (n : ℕ) (rv : ℤ) → (a.partition saved n).0 ≢ apr_error rv

module _ (a : Apr) (laws : AprLaws a) (fine : NeverFails a) (below : Below) where
  -- One read of a body that is not empty: progress by a byte at least, or the end.
  record Step (n : ℕ) (bb saved : Brigade) (r : Request) (x : Brigade × Request) : Type 0 where
    rest : Brigade
    saved_now : x.1.ctx.saved_body ≡ some rest
    clear : x.1.ctx.intervention_triggered ≡ r.ctx.intervention_triggered
    conserved : pieces x.0 ++ pieces rest ≡ pieces bb ++ pieces saved
    shorter : (rest ≡ []) ⊎ (size (pieces rest) < size (pieces saved))

  part-Step :
      (n : ℕ) (bb saved : Brigade) (r : Request) (x : Rv × (Brigade × Brigade))
      → a.partition saved (suc n) ≡ x
      → Step n bb saved r ((hand_over_part bb x r).1)
  unfolding hand_over_part
  part-Step n bb saved r (apr_success, (before, after)) e =
      let keeps =
        sym (pieces-append before after)
        ∙ laws.partition_keeps saved before after (suc n) apr_success e in
      record {
        rest = after;
        saved_now = refl;
        clear = refl;
        conserved =
            ap (λ t. t ++ pieces after) (pieces-append bb before)
            ∙ append_assoc (pieces bb) (pieces before) (pieces after)
            ∙ ap (λ t. pieces bb ++ t) keeps;
        shorter = inr (
            omega (
              arith,
              laws.partition_at saved before after (suc n) e,
              size-append (pieces before) (pieces after),
              ap size keeps,
            ));
      }
  part-Step n bb saved r (apr_incomplete, (before, after)) e = record {
    rest = [];
    saved_now = refl;
    clear = refl;
    conserved =
        append-nil _
        ∙ pieces-append bb (before ++ after)
        ∙ ap (λ t. pieces bb ++ t)
            (laws.partition_keeps saved before after (suc n) apr_incomplete e);
    shorter = inl refl;
  }
  part-Step n bb saved r (apr_error rv, (before, after)) e =
      absurd (fine saved (suc n) rv (ap (λ t. t.0) e))

  read-Step :
      (n : ℕ) (bb : Brigade) (b : Bucket) (bs : Brigade) (r : Request)
      → r.ctx.saved_body ≡ some (b ∷ bs)
      → r.ctx.intervention_triggered ≡ false
      → Step n bb (b ∷ bs) r (input_filter a below read_bytes (pos (suc n)) bb r).1
  unfolding replay_mode hand_over
  read-Step n bb b bs r h clear =
      rw (input_filter_replays a laws below read_bytes (pos (suc n)) bb b bs r h clear)
        (part-Step n bb (b ∷ bs) r (a.partition (b ∷ bs) (suc n)) refl)

  read_on_done :
      (n k : ℕ) (bb : Brigade) (r : Request)
      → r.ctx.saved_body ≡ some []
      → read_on a below n k bb r ≡ (bb, r)
  unfolding read_on
  read_on_done n zero bb r h = refl
  read_on_done n (suc k) bb r h = simp (read_on, h) refl

  read_on_more :
      (n k : ℕ) (bb : Brigade) (b : Bucket) (bs : Brigade) (r : Request)
      → r.ctx.saved_body ≡ some (b ∷ bs)
      → let x = (input_filter a below read_bytes (pos (suc n)) bb r).1 in
        read_on a below n (suc k) bb r ≡ read_on a below n k x.0 x.1
  unfolding read_on
  read_on_more n k bb b bs r h = simp (read_on, h) refl

  -- Reading through the filter ends, and delivers the saved body: on a request that was not denied,
  -- where APR behaves as documented and does not fail, more reads of one byte or more than the body
  -- has bytes hand over every piece of it, in order and once, its end of stream included, and leave
  -- nothing saved.
  pub read_on-pieces :
      (n k : ℕ) (bb saved : Brigade) (r : Request)
      → r.ctx.saved_body ≡ some saved
      → r.ctx.intervention_triggered ≡ false
      → size (pieces saved) < k
      → let (bb', r') = read_on a below n k bb r in
        (pieces bb' ≡ pieces bb ++ pieces saved) × (brigade_of r'.ctx.saved_body ≡ [])
  unfolding read_on
  read_on-pieces n zero bb saved r h clear enough = absurd (omega arith)
  read_on-pieces n (suc k) bb [] r h clear enough =
      rw (read_on_done n (suc k) bb r h) (sym (append-nil _), ap brigade_of h)
  read_on-pieces n (suc k) bb (b ∷ bs) r h clear enough =
      let s = read-Step n bb b bs r h clear in
      let x = (input_filter a below read_bytes (pos (suc n)) bb r).1 in
      rw (read_on_more n k bb b bs r h) (elim s.shorter [
        | inl over ↦
            let now = s.saved_now ∙ ap some over in
            rw (read_on_done n k x.0 x.1 now) (
              sym (append-nil _) ∙ ap (λ t. pieces x.0 ++ pieces t) (sym over) ∙ s.conserved,
              ap brigade_of now,
            )
        | inr less ↦
            let later =
              read_on-pieces n k x.0 s.rest x.1 s.saved_now (s.clear ∙ clear) (omega arith) in
            (later.0 ∙ s.conserved, later.1)
      ])
