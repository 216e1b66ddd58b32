-- ===== src/BodyIn/Moves.antt =====
-- What a call of the replay filter in src/mod_coraza_body_in.c may do to the saved body: hand a part
-- over, show a part, or split a line off.
use coraza_apache.Base.{
  ◌≡◌, ◌++◌, List, Option, ◌+◌, ◌∷◌, ℕ, sym, arith, some, append_assoc, ℤ, ◌≤◌, inl, none, [], refl,
}
use coraza_apache.BodyIn.{
  Apr, Answer, Piece, pieces, size, Rv, Brigade, Bucket, apr_success, byte, pieces_of,
  end_of_stream, apr_error, mark, bad,
}
use coraza_apache.Request.{Brigade, Bucket}
use coraza_apache.Body.{brigade_of}

abbrev pub still_saved : Answer → Brigade
still_saved a = brigade_of (a.1.1.ctx.saved_body)

abbrev pub Within : Option ℕ → List Piece → Type 0
Within none ps = Unit
Within (some n) ps = size ps ≤ n

-- How far a read goes, by its status: as many bytes as were asked for, or to the end of what is saved
-- (`left` is empty), unless APR fails to partition it.
pub data Reach (a : Apr) (saved : Brigade) (limit : Option ℕ) (given left : List Piece)
    : Rv → Type 0 where
  as_asked : {n : ℕ} → limit ≡ some n → size given ≡ n → Reach a saved limit given left apr_success
  to_the_end : left ≡ [] → Reach a saved limit given left apr_success
  unsplit :
      {n : ℕ} {rv : ℤ} {parts : Brigade × Brigade}
      → limit ≡ some n
      → a.partition saved n ≡ (apr_error rv, parts)
      → Reach a saved limit given left (apr_error rv)

-- The same for copies, which may fail one by one too.
pub data ReachOfCopies (a : Apr) (saved : Brigade) (limit : Option ℕ) (given behind : List Piece)
    : Rv → Type 0 where
  reached :
      {rv : Rv} → Reach a saved limit given behind rv → ReachOfCopies a saved limit given behind rv
  uncopied :
      {b : Bucket} {rv : ℤ}
      → a.copy b ≡ inl rv
      → ReachOfCopies a saved limit given behind (apr_error rv)

-- `given` went to the caller, behind what it had, and the rest is still there.
pub record Moved (apr : Apr) (bb saved : Brigade) (limit : Option ℕ) (a : Answer) : Type 0 where
  pub given : Brigade
  pub handed : a.1.0 ≡ bb ++ given
  pub conserved : pieces given ++ pieces (still_saved a) ≡ pieces saved
  pub within : Within limit (pieces given)
  pub reach : Reach apr saved limit (pieces given) (pieces (still_saved a)) a.0

-- Copies of the first pieces went to the caller, and everything is still there.
pub record Peeked (apr : Apr) (bb saved : Brigade) (limit : Option ℕ) (a : Answer) : Type 0 where
  pub given : Brigade
  pub behind : List Piece
  pub handed : a.1.0 ≡ bb ++ given
  pub shown_first : pieces given ++ behind ≡ pieces saved
  pub conserved : pieces (still_saved a) ≡ pieces saved
  pub within : Within limit (pieces given)
  pub reach : ReachOfCopies apr saved limit (pieces given) behind a.0

-- The line that APR splits off went to the caller, and the rest is still there.
pub record Split (apr : Apr) (bb saved : Brigade) (a : Answer) : Type 0 where
  pub status : a.0 ≡ (apr.split_line saved).0
  pub handed : a.1.0 ≡ bb ++ (apr.split_line saved).1.0
  pub conserved : pieces (apr.split_line saved).1.0 ++ pieces (still_saved a) ≡ pieces saved

pub pieces-append : (xs ys : Brigade) → pieces (xs ++ ys) ≡ pieces xs ++ pieces ys
pieces-append [] ys = refl
pieces-append (b ∷ xs) ys =
    rw (pieces-append xs ys) (sym (append_assoc (pieces_of b) (pieces xs) (pieces ys)))

pub size-append : (xs ys : List Piece) → size (xs ++ ys) ≡ size xs + size ys
size-append [] ys = omega arith
size-append (byte c ∷ xs) ys = omega (arith, size-append xs ys)
size-append (end_of_stream ∷ xs) ys = size-append xs ys
size-append (mark ∷ xs) ys = size-append xs ys
size-append (bad ∷ xs) ys = size-append xs ys
