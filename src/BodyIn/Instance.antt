-- ===== src/BodyIn/Instance.antt =====
-- A brigade library with the documented behaviour that the replay filter of
-- src/mod_coraza_body_in.c relies on: it cuts a brigade between any two pieces.
use coraza_apache.Base.{
  ◌≡◌, refl, ap, sym, ◌∙◌, ◌++◌, [], ◌∷◌, List, ℕ, zero, map, arith, ◌≤◌, inr, append-nil, suc, ℤ,
  ◌≢◌,
}
use coraza_apache.BodyIn.{
  Apr, AprLaws, Rv, apr_success, apr_incomplete, Piece, byte, end_of_stream, mark, bad, pieces,
  pieces_of, size, apr_error,
}
use coraza_apache.BodyIn.Moves.{pieces-append}
use coraza_apache.Request.{Bucket, Brigade, heap, eos, metadata, broken}
use coraza_apache.BodyIn.Reads.{NeverFails}

abbrev pub bucket_of : Piece → Bucket
bucket_of (byte c) = heap (c ∷ [])
bucket_of end_of_stream = eos
bucket_of mark = metadata
bucket_of bad = broken

abbrev pub Cut : Type 0
Cut = Rv × (List Piece × List Piece)

abbrev in_front : Piece → Cut → Cut
in_front p (rv, (x, y)) = (rv, (p ∷ x, y))

pub cut : List Piece → ℕ → Cut
cut ps zero = (apr_success, ([], ps))
cut [] (suc n) = (apr_incomplete, ([], []))
cut (byte c ∷ ps) (suc n) = in_front (byte c) (cut ps n)
cut (end_of_stream ∷ ps) (suc n) = in_front end_of_stream (cut ps (suc n))
cut (mark ∷ ps) (suc n) = in_front mark (cut ps (suc n))
cut (bad ∷ ps) (suc n) = in_front bad (cut ps (suc n))

record IsCut (ps : List Piece) (n : ℕ) (x : Cut) : Type 0 where
  whole : x.1.0 ++ x.1.1 ≡ ps
  at : x.0 ≡ apr_success → size x.1.0 ≡ n
  short : x.0 ≡ apr_incomplete → (x.1.1 ≡ []) × (size x.1.0 ≤ n)

in_front-IsCut :
    {ps : List Piece} {n m : ℕ} (p : Piece) (x : Cut)
    → ((ys : List Piece) (k : ℕ) → size ys ≡ k → k ≡ n → size (p ∷ ys) ≡ m)
    → ((ys : List Piece) → size ys ≤ n → size (p ∷ ys) ≤ m)
    → IsCut ps n x
    → IsCut (p ∷ ps) m (in_front p x)
in_front-IsCut p x f g h = record {
  whole = ap (λ t. p ∷ t) h.whole;
  at = λ e. f x.1.0 _ (h.at e) refl;
  short = λ e. let (none_after, le) = h.short e in (none_after, g x.1.0 le);
}

cut-IsCut : (ps : List Piece) (n : ℕ) → IsCut ps n (cut ps n)
unfolding cut
cut-IsCut ps zero = record { whole = refl; at = λ _. refl; short = λ e. absurd (ground arith) }
cut-IsCut [] (suc n) = record {
  whole = refl;
  at = λ e. absurd (ground arith);
  short = λ _. (refl, omega arith);
}
cut-IsCut (byte c ∷ ps) (suc n) =
    in_front-IsCut (byte c) (cut ps n) (λ ys k h e. omega arith) (λ ys h. omega arith)
      (cut-IsCut ps n)
cut-IsCut (end_of_stream ∷ ps) (suc n) =
    in_front-IsCut end_of_stream (cut ps (suc n)) (λ ys k h e. omega arith) (λ ys h. h)
      (cut-IsCut ps (suc n))
cut-IsCut (mark ∷ ps) (suc n) =
    in_front-IsCut mark (cut ps (suc n)) (λ ys k h e. omega arith) (λ ys h. h)
      (cut-IsCut ps (suc n))
cut-IsCut (bad ∷ ps) (suc n) =
    in_front-IsCut bad (cut ps (suc n)) (λ ys k h e. omega arith) (λ ys h. h) (cut-IsCut ps (suc n))

pieces-map : (ps : List Piece) → pieces (map bucket_of ps) ≡ ps
pieces-map [] = refl
pieces-map (byte c ∷ ps) = ap (λ x. byte c ∷ x) (pieces-map ps)
pieces-map (end_of_stream ∷ ps) = ap (λ x. end_of_stream ∷ x) (pieces-map ps)
pieces-map (mark ∷ ps) = ap (λ x. mark ∷ x) (pieces-map ps)
pieces-map (bad ∷ ps) = ap (λ x. bad ∷ x) (pieces-map ps)

abbrev pub cutting : Apr
cutting = record {
  partition = λ saved n.
      let (rv, parts) = cut (pieces saved) n in
      (rv, (map bucket_of parts.0, map bucket_of parts.1));
  split_line = λ saved. (apr_success, (saved, []));
  copy = λ b. inr b;
}

parts_keep :
    (saved : Brigade) (n : ℕ)
    → let (rv, parts) = cutting.partition saved n in pieces (parts.0 ++ parts.1) ≡ pieces saved
parts_keep saved n =
    let x = cut (pieces saved) n in
    pieces-append (map bucket_of x.1.0) (map bucket_of x.1.1)
    ∙ rw (pieces-map x.1.0, pieces-map x.1.1) (cut-IsCut (pieces saved) n).whole

the_same : (b c : Bucket) → cutting.copy b ≡ inr c → b ≡ c
the_same b c e = ground arith

pub cutting-AprLaws : AprLaws cutting
cutting-AprLaws = record {
  partition_keeps =
      λ saved before after n rv e. ap (λ t. pieces (t.1.0 ++ t.1.1)) (sym e) ∙ parts_keep saved n;
  partition_at = λ saved before after n e.
      let x = cut (pieces saved) n in
      ap (λ t. size (pieces t.1.0)) (sym e)
      ∙ ap size (pieces-map x.1.0)
      ∙ (cut-IsCut (pieces saved) n).at (ap (λ t. t.0) e);
  partition_short = λ saved before after n e.
      let x = cut (pieces saved) n in
      let (none_after, le) = (cut-IsCut (pieces saved) n).short (ap (λ t. t.0) e) in
      (
        ap (λ t. t.1.1) (sym e) ∙ ap (λ t. map bucket_of t) none_after,
        omega (arith, ap (λ t. size (pieces t.1.0)) e, ap size (pieces-map x.1.0), le),
      );
  split_keeps = λ saved line rest rv e.
      ap (λ t. pieces (t.1.0 ++ t.1.1)) (sym e) ∙ ap pieces (append-nil saved);
  copy_same = λ b c e. sym (ap pieces_of (the_same b c e));
}

cut_never_fails : (ps : List Piece) (n : ℕ) (rv : ℤ) → (cut ps n).0 ≢ apr_error rv
unfolding cut
cut_never_fails ps zero rv e = absurd (ground arith)
cut_never_fails [] (suc n) rv e = absurd (ground arith)
cut_never_fails (byte c ∷ ps) (suc n) rv e = cut_never_fails ps n rv e
cut_never_fails (end_of_stream ∷ ps) (suc n) rv e = cut_never_fails ps (suc n) rv e
cut_never_fails (mark ∷ ps) (suc n) rv e = cut_never_fails ps (suc n) rv e
cut_never_fails (bad ∷ ps) (suc n) rv e = cut_never_fails ps (suc n) rv e

pub cutting-NeverFails : NeverFails cutting
cutting-NeverFails saved n rv e = cut_never_fails (pieces saved) n rv e
