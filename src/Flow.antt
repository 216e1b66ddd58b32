-- ===== src/Flow.antt =====
-- Code with early returns: a step changes the request and either goes on with a value or returns a
-- status from the hook. Used for `coraza_post_read_request` of src/mod_coraza_phase1.c.
use coraza_apache.Base.{ℤ}
use coraza_apache.Request.{Request}

pub data Flow (A : Type 0) : Type 0 where
  next : A → Flow A
  return : ℤ → Flow A

abbrev pub Action : Type 0 → Type 0
Action A = Request → Flow A × Request

infixl 5 ◌>>=◌ ◌>>◌
abbrev pub ◌>>=◌ : {A B : Type 0} → Action A → (A → Action B) → Action B
◌>>=◌ m f r = let (x, r') = m r in elim x [ next a ↦ f a r' | return s ↦ (return s, r') ]

abbrev pub ◌>>◌ : {B : Type 0} → Action (Unit {0}) → Action B → Action B
m >> k = m >>= λ _. k

abbrev pub pure : {A : Type 0} → A → Action A
pure a r = (next a, r)

-- What holds after a step: `Next` of the value where it goes on, `Stop` of the status where it
-- returns.
abbrev pub Post :
    {A : Type 0} → (A → Request → Type 0) → (ℤ → Request → Type 0) → Flow A × Request → Type 0
Post Next Stop (next a, r) = Next a r
Post Next Stop (return s, r) = Stop s r

-- The rule for a sequence.
pub >>=-Post :
    {A B : Type 0} (Next : A → Request → Type 0) (Last : B → Request → Type 0)
    (Stop : ℤ → Request → Type 0) (m : Action A) (f : A → Action B) (r : Request)
    → Post Next Stop (m r)
    → ((a : A) (r' : Request) → Next a r' → Post Last Stop (f a r'))
    → Post Last Stop ((m >>= f) r)
>>=-Post {A} {B} Next Last Stop m f r h k = go (m r) h
  where
    go :
        (x : Flow A × Request)
        → Post Next Stop x
        → Post Last Stop (elim x.0 [ next a ↦ f a x.1 | return s ↦ (return s, x.1) ])
    go (next a, r') h' = k a r' h'
    go (return s, r') h' = h'

-- A weaker statement of where a step goes on.
pub Post-map :
    {A : Type 0} (Next Last : A → Request → Type 0) (Stop : ℤ → Request → Type 0)
    (x : Flow A × Request)
    → ((a : A) (r : Request) → Next a r → Last a r)
    → Post Next Stop x
    → Post Last Stop x
Post-map Next Last Stop (next a, r) k h = k a r h
Post-map Next Last Stop (return s, r) k h = h

-- The same for both ways to end.
pub Post-imp :
    {A : Type 0} (Next Last : A → Request → Type 0) (Stop Halt : ℤ → Request → Type 0)
    (x : Flow A × Request)
    → ((a : A) (r : Request) → Next a r → Last a r)
    → ((s : ℤ) (r : Request) → Stop s r → Halt s r)
    → Post Next Stop x
    → Post Last Halt x
Post-imp Next Last Stop Halt (next a, r) k l h = k a r h
Post-imp Next Last Stop Halt (return s, r) k l h = l s r h
