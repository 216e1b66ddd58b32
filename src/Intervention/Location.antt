-- ===== src/Intervention/Location.antt =====
-- The `Location` that `coraza_process_intervention` of src/mod_coraza.c sets.
use coraza_apache.Base.{
  true, false, [], ◌∷◌, ◌++◌, Bytes, ◌≡◌, refl, arith, inl, inr, Bool-cases, ap, ℕ, ◌<◌, ◌≤◌, ◌⊎◌,
}
use coraza_apache.Intervention.{is_safe_byte, safe_prefix}

-- A control byte: one of the 32 codes below the space, or DEL.
abbrev pub IsControl : ℕ → Type 0
IsControl c = (c < 32) ⊎ (c ≡ 127)

-- Any other byte: a printable one of ASCII, or one above it.
abbrev pub IsPlain : ℕ → Type 0
IsPlain c = ((32 ≤ c) × (c ≤ 126)) ⊎ (128 ≤ c)

abbrev pub AllPlain : Bytes → Type 0
AllPlain [] = Unit
AllPlain (c ∷ cs) = IsPlain c × AllPlain cs

-- A target is cut in two: what is kept has no control byte, and what is dropped, if anything,
-- begins with one.
abbrev pub StartsControl : Bytes → Type 0
StartsControl [] = Unit
StartsControl (c ∷ cs) = IsControl c

pub record Cut (loc kept : Bytes) : Type 0 where
  pub dropped : Bytes
  pub splits : loc ≡ kept ++ dropped
  pub kept_plain : AllPlain kept
  pub dropped_control : StartsControl dropped

safe_byte-IsPlain : (c : ℕ) → is_safe_byte c ≡ true → IsPlain c
safe_byte-IsPlain c safe = ground arith

unsafe_byte-IsControl : (c : ℕ) → is_safe_byte c ≡ false → IsControl c
unsafe_byte-IsControl c unsafe = ground arith

-- What is kept of a redirect target is a prefix of it that has no control byte, which is one below 32
-- or 127, and it ends where the target ends or in front of its first control byte.
pub safe_prefix-Cut : (loc : Bytes) → Cut loc (safe_prefix loc)
unfolding safe_prefix
safe_prefix-Cut [] = record { dropped = []; splits = refl; kept_plain = tt; dropped_control = tt }
safe_prefix-Cut (c ∷ cs) = elim (Bool-cases (is_safe_byte c)) [
  | inl safe ↦ rw safe (
      let rest = safe_prefix-Cut cs in
      record {
        dropped = rest.dropped;
        splits = ap (◌∷◌ c) rest.splits;
        kept_plain = (safe_byte-IsPlain c safe, rest.kept_plain);
        dropped_control = rest.dropped_control;
      })
  | inr stop ↦ rw stop (record {
    dropped = c ∷ cs;
    splits = refl;
    kept_plain = tt;
    dropped_control = unsafe_byte-IsControl c stop;
  })
]
