-- ===== src/BodyIn/Delivers.antt =====
-- What one call of the replay filter in src/mod_coraza_body_in.c hands over, and what it keeps.
use coraza_apache.Base.{
  ◌≡◌, refl, ◌∙◌, sym, ap, ◌++◌, [], ◌∷◌, append-nil, append_assoc, Option, some, none, false,
  arith, ◌≤◌, List, ℕ, inl, inr, ◌⊎◌, ℤ,
}
use coraza_apache.BodyIn.{
  Apr, AprLaws, Answer, Below, Mode, Piece, pieces, pieces_of, size, Rv, apr_success,
  apr_incomplete, apr_error, copy_all, copy_part, look_ahead, hand_over_part, hand_over,
  replay_mode, replay_saved_body, input_filter, limit_of, get_line, Bucket, replay_or_aside,
  eat_crlf, speculative, exhaustive, read_bytes, init,
}
use coraza_apache.Body.{brigade_of}
use coraza_apache.Request.{Request, Brigade, Bucket}
use coraza_apache.BodyIn.Moves.{
  Moved, size-append, Peeked, ReachOfCopies, Split, to_the_end, reached, still_saved, pieces-append,
  as_asked, unsplit, uncopied,
}

-- How the copying ended: behind the last bucket, or at one that could not be copied.
data CopyEnd (a : Apr) (behind : List Piece) : Rv → Type 0 where
  copied_all : behind ≡ [] → CopyEnd a behind apr_success
  stopped_at : {b : Bucket} {rv : ℤ} → a.copy b ≡ inl rv → CopyEnd a behind (apr_error rv)

-- The copies that the loop made.
record Copied (a : Apr) (bb bs : Brigade) (x : Rv × Brigade) : Type 0 where
  given : Brigade
  behind : List Piece
  handed : x.1 ≡ bb ++ given
  shown_first : pieces given ++ behind ≡ pieces bs
  ended : CopyEnd a behind x.0

module _ (a : Apr) (laws : AprLaws a) where
  copy_all-Copied : (bs bb : Brigade) → Copied a bb bs (copy_all a bs bb)
  unfolding copy_all
  copy_all-Copied [] bb = record {
    ended = copied_all refl;
    given = [];
    behind = [];
    handed = sym (append-nil bb);
    shown_first = refl;
  }
  copy_all-Copied (b ∷ bs) bb = go (copy_all-Copied bs) (a.copy b) refl
    where
      go :
          ((bb : Brigade) → Copied a bb bs (copy_all a bs bb))
          → (x : ℤ ⊎ Bucket) → a.copy b ≡ x
          → Copied a bb
              (b ∷ bs)
              (elim x [ inl rv ↦ (apr_error rv, bb) | inr c ↦ copy_all a bs (bb ++ c ∷ []) ])
      go k (inl rv) e = record {
        ended = stopped_at e;
        given = [];
        behind = pieces (b ∷ bs);
        handed = sym (append-nil bb);
        shown_first = refl;
      }
      go k (inr c) e =
          let rest = k (bb ++ c ∷ []) in
          record {
            given = c ∷ rest.given;
            behind = rest.behind;
            ended = rest.ended;
            handed = rest.handed ∙ append_assoc bb (c ∷ []) rest.given;
            shown_first =
                append_assoc (pieces_of c) (pieces rest.given) rest.behind
                ∙ ap (λ x. pieces_of c ++ x) rest.shown_first
                ∙ ap (λ x. x ++ pieces bs) (laws.copy_same b c e);
          }

  -- A prefix is no longer than the whole.
  size_prefix : (xs ys zs : List Piece) (n : ℕ) → xs ++ ys ≡ zs → size zs ≤ n → size xs ≤ n
  size_prefix xs ys zs n e h = omega (arith, size-append xs ys, ap size e, h)

  all_reach :
      (saved : Brigade) (limit : Option ℕ) (given behind : List Piece) (rv : Rv)
      → CopyEnd a behind rv
      → ReachOfCopies a saved limit given behind rv
  all_reach saved limit given behind rv (copied_all e) = reached (to_the_end e)
  all_reach saved limit given behind rv (stopped_at e) = uncopied e

  part_reach :
      (saved : Brigade) (n : ℕ) (before after given : Brigade) (behind : List Piece) (rv : Rv)
      → size (pieces before) ≡ n
      → pieces given ++ behind ≡ pieces before
      → CopyEnd a behind rv
      → ReachOfCopies a saved (some n) (pieces given) (behind ++ pieces after) rv
  part_reach saved n before after given behind rv at shown (copied_all e) =
      let whole : pieces given ≡ pieces before =
        sym (append-nil _) ∙ ap (λ x. pieces given ++ x) (sym e) ∙ shown in
      reached (as_asked refl (ap size whole ∙ at))
  part_reach saved n before after given behind rv at shown (stopped_at e) = uncopied e

  -- A speculative read of a part, by what the partition answers.
  copy_part-Peeked :
      (bb saved : Brigade) (n : ℕ) (r : Request) (x : Rv × (Brigade × Brigade))
      → a.partition saved n ≡ x
      → Peeked a bb saved (some n) (copy_part a bb x r)
  unfolding copy_part
  copy_part-Peeked bb saved n r (apr_success, (before, after)) e =
      let c = copy_all-Copied before bb in
      let keeps = laws.partition_keeps saved before after n apr_success e in
      record {
        given = c.given;
        behind = c.behind ++ pieces after;
        handed = c.handed;
        shown_first =
            sym (append_assoc (pieces c.given) c.behind (pieces after))
            ∙ ap (λ x. x ++ pieces after) c.shown_first
            ∙ sym (pieces-append before after)
            ∙ keeps;
        conserved = keeps;
        within =
            size_prefix (pieces c.given) c.behind (pieces before) n c.shown_first
              (omega (arith, laws.partition_at saved before after n e));
        reach =
            part_reach saved n before after c.given c.behind _
              (laws.partition_at saved before after n e) c.shown_first c.ended;
      }
  copy_part-Peeked bb saved n r (apr_incomplete, (before, after)) e =
      let c = copy_all-Copied (before ++ after) bb in
      let keeps = laws.partition_keeps saved before after n apr_incomplete e in
      let (none_after, short) = laws.partition_short saved before after n e in
      record {
        given = c.given;
        behind = c.behind;
        handed = c.handed;
        shown_first = c.shown_first ∙ keeps;
        conserved = keeps;
        within =
            size_prefix (pieces c.given) c.behind (pieces (before ++ after)) n c.shown_first
              (rw (none_after, append-nil before) short);
        reach = all_reach saved (some n) (pieces c.given) c.behind _ c.ended;
      }
  copy_part-Peeked bb saved n r (apr_error rv, (before, after)) e = record {
    given = [];
    behind = pieces saved;
    handed = sym (append-nil bb);
    shown_first = refl;
    conserved = laws.partition_keeps saved before after n (apr_error rv) e;
    within = omega arith;
    reach = reached (unsplit refl e);
  }

  look_ahead-Peeked :
      (bb saved : Brigade) (limit : Option ℕ) (r : Request)
      → r.ctx.saved_body ≡ some saved
      → Peeked a bb saved limit (look_ahead a bb saved limit r)
  unfolding look_ahead
  look_ahead-Peeked bb saved none r h =
      let c = copy_all-Copied saved bb in
      record {
        given = c.given;
        behind = c.behind;
        handed = c.handed;
        shown_first = c.shown_first;
        conserved = ap (λ x. pieces (brigade_of x)) h;
        within = tt;
        reach = all_reach saved none (pieces c.given) c.behind _ c.ended;
      }
  look_ahead-Peeked bb saved (some n) r h = copy_part-Peeked bb saved n r (a.partition saved n) refl

  hand_over_part-Moved :
      (bb saved : Brigade) (n : ℕ) (r : Request) (x : Rv × (Brigade × Brigade))
      → a.partition saved n ≡ x
      → Moved a bb saved (some n) (hand_over_part bb x r)
  unfolding hand_over_part
  hand_over_part-Moved bb saved n r (apr_success, (before, after)) e = record {
    given = before;
    handed = refl;
    conserved =
        sym (pieces-append before after) ∙ laws.partition_keeps saved before after n apr_success e;
    within = omega (arith, laws.partition_at saved before after n e);
    reach = as_asked refl (laws.partition_at saved before after n e);
  }
  hand_over_part-Moved bb saved n r (apr_incomplete, (before, after)) e =
      let (none_after, short) = laws.partition_short saved before after n e in
      record {
        given = before ++ after;
        handed = refl;
        conserved = append-nil _ ∙ laws.partition_keeps saved before after n apr_incomplete e;
        within = rw (none_after, append-nil before) short;
        reach = to_the_end refl;
      }
  hand_over_part-Moved bb saved n r (apr_error rv, (before, after)) e = record {
    given = [];
    handed = sym (append-nil bb);
    conserved = laws.partition_keeps saved before after n (apr_error rv) e;
    within = omega arith;
    reach = unsplit refl e;
  }

  hand_over-Moved :
      (bb saved : Brigade) (limit : Option ℕ) (r : Request)
      → Moved a bb saved limit (hand_over a bb saved limit r)
  unfolding hand_over
  hand_over-Moved bb saved none r = record {
    given = saved;
    handed = refl;
    conserved = append-nil _;
    within = tt;
    reach = to_the_end refl;
  }
  hand_over-Moved bb saved (some n) r = hand_over_part-Moved bb saved n r (a.partition saved n) refl

  replay_mode-Split :
      (bb saved : Brigade) (below : Below) (n : ℤ) (r : Request)
      → Split a bb saved (replay_mode a below get_line n bb saved r)
  unfolding replay_mode
  replay_mode-Split bb saved below n r =
      let (rv, parts) = a.split_line saved in
      record {
        status = refl;
        handed = refl;
        conserved =
            sym (pieces-append parts.0 parts.1) ∙ laws.split_keeps saved parts.0 parts.1 rv refl;
      }

  -- What a call does to a saved body that is not empty, by mode.
  abbrev pub Delivered : Below → Mode → ℤ → Brigade → Brigade → Request → Answer → Type 0
  Delivered below eat_crlf n bb saved r x = ((x.0, x.1.0) ≡ below eat_crlf n bb) × (x.1.1 ≡ r)
  Delivered below get_line n bb saved r x = Split a bb saved x
  Delivered below speculative n bb saved r x = Peeked a bb saved (limit_of n) x
  Delivered below exhaustive n bb saved r x =
      Moved a bb saved none x × (x.0 ≡ apr_success) × (still_saved x ≡ [])
  Delivered below read_bytes n bb saved r x = Moved a bb saved (limit_of n) x
  Delivered below init n bb saved r x = Moved a bb saved (limit_of n) x

  replay_mode-Delivered :
      (below : Below) (mode : Mode) (n : ℤ) (bb saved : Brigade) (r : Request)
      → r.ctx.saved_body ≡ some saved
      → Delivered below mode n bb saved r (replay_mode a below mode n bb saved r)
  unfolding replay_mode
  replay_mode-Delivered below eat_crlf n bb saved r h = (refl, refl)
  replay_mode-Delivered below get_line n bb saved r h = replay_mode-Split bb saved below n r
  replay_mode-Delivered below speculative n bb saved r h =
      look_ahead-Peeked bb saved (limit_of n) r h
  replay_mode-Delivered below exhaustive n bb saved r h = (
    record {
      given = saved;
      handed = refl;
      conserved = append-nil _;
      within = tt;
      reach = to_the_end refl;
    },
    refl,
    refl,
  )
  replay_mode-Delivered below read_bytes n bb saved r h = hand_over-Moved bb saved (limit_of n) r
  replay_mode-Delivered below init n bb saved r h = hand_over-Moved bb saved (limit_of n) r

  pub input_filter_replays :
      (below : Below) (mode : Mode) (n : ℤ) (bb : Brigade) (b : Bucket) (bs : Brigade) (r : Request)
      → r.ctx.saved_body ≡ some (b ∷ bs)
      → r.ctx.intervention_triggered ≡ false
      → input_filter a below mode n bb r ≡ replay_mode a below mode n bb (b ∷ bs) r
  unfolding input_filter replay_saved_body replay_or_aside
  input_filter_replays below mode n bb b bs r h clear = rw h (rw clear)

  -- While there is a saved body left on a request that was not denied, and APR behaves as documented:
  -- a read in a consuming mode hands over the first part of what is saved and keeps the rest, in order
  -- and with nothing lost or repeated; a speculative read hands over copies of the first part and
  -- keeps everything. Either gives exactly as many bytes as were asked for, where a limit was given,
  -- or all that is left, unless APR fails to partition the body or to copy a bucket, and then it
  -- returns APR's status. A read of a line hands over what APR splits off, an exhaustive read
  -- everything; and a read that eats line ends goes to the filter below and leaves the saved body
  -- alone.
  pub input_filter-Delivered :
      (below : Below) (mode : Mode) (n : ℤ) (bb : Brigade) (b : Bucket) (bs : Brigade) (r : Request)
      → r.ctx.saved_body ≡ some (b ∷ bs)
      → r.ctx.intervention_triggered ≡ false
      → Delivered below mode n bb (b ∷ bs) r (input_filter a below mode n bb r)
  input_filter-Delivered below mode n bb b bs r h clear =
      rw (input_filter_replays below mode n bb b bs r h clear)
        (replay_mode-Delivered below mode n bb (b ∷ bs) r h)
