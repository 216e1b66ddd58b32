-- ===== src/Headers/RoundTrip.antt =====
-- A reader of the wire format that src/mod_coraza.h documents (u16 name length, name, u32 value
-- length, value, big-endian), against `coraza_pack_headers` of src/mod_coraza.c.
use coraza_apache.Base.{
  ℕ, zero, suc, ◌+◌, ◌*◌, ◌≤◌, Option, none, some, List, [], ◌∷◌, ◌++◌, Bytes, leb, ◌≡◌, refl,
  arith, if◌then◌else◌, length, take, drop, take-append, drop-append, length-append, le→leb, ap,
  Option-cases, inl, inr,
}
use coraza_apache.Headers.Limits.{size_loop_step}
use coraza_apache.Headers.{
  HeaderPair, int_max, u16, u32, size_loop, write_loop, write_packed, pack_headers,
}

-- `n` bytes off the front, if there are so many.
split_field : ℕ → Bytes → Option (Bytes × Bytes)
split_field n bs = if leb n (length bs) then some (take n bs, drop n bs) else none

read_u16 : Bytes → Option (ℕ × Bytes)
read_u16 (a ∷ b ∷ rest) = some (a * 0x100 + b, rest)
read_u16 _ = none

read_u32 : Bytes → Option (ℕ × Bytes)
read_u32 (a ∷ b ∷ c ∷ d ∷ rest) = some (a * 0x100_0000 + b * 0x1_0000 + c * 0x100 + d, rest)
read_u32 _ = none

infixl 5 ◌>>=◌
abbrev ◌>>=◌ : {A B : Type 0} → Option A → (A → Option B) → Option B
none >>= f = none
some a >>= f = f a

read_pair : Bytes → Option (HeaderPair × Bytes)
read_pair bs = do
  (nlen, bs1) ← read_u16 bs
  (name, bs2) ← split_field nlen bs1
  (vlen, bs3) ← read_u32 bs2
  (value, rest) ← split_field vlen bs3
  some (record { name = name; value = value }, rest)

-- Exactly `count` entries, and nothing behind them.
pub unpack_headers : ℕ → Bytes → Option (List HeaderPair)
unpack_headers zero [] = some []
unpack_headers zero (b ∷ bs) = none
unpack_headers (suc n) bs = do (p, rest) ← read_pair bs; ps ← unpack_headers n rest; some (p ∷ ps)

split_field-append : (xs ys : Bytes) → split_field (length xs) (xs ++ ys) ≡ some (xs, ys)
unfolding split_field
split_field-append xs ys = rw (
  le→leb (length xs) (length (xs ++ ys)) (omega (arith, length-append xs ys)),
  take-append xs ys,
  drop-append xs ys,
)

read_u16-u16 : (x : ℕ) (rest : Bytes) → x ≤ 0xffff → read_u16 (u16 x ++ rest) ≡ some (x, rest)
unfolding read_u16
read_u16-u16 x rest h = ap (λ n. some (n, rest)) (omega arith)

read_u32-u32 : (x : ℕ) (rest : Bytes) → x ≤ int_max → read_u32 (u32 x ++ rest) ≡ some (x, rest)
unfolding read_u32
read_u32-u32 x rest h = ap (λ n. some (n, rest)) (omega arith)

read_pair-write :
    (p : HeaderPair) (rest : Bytes)
    → length p.name ≤ 0xffff
    → length p.value ≤ int_max
    → read_pair (u16 (length p.name) ++ (p.name ++ (u32 (length p.value) ++ (p.value ++ rest))))
      ≡ some (p, rest)
unfolding read_pair
read_pair-write p rest hn hv = rw (read_u16-u16 (length p.name) _ hn) (
    rw (split_field-append p.name _)
      (rw (read_u32-u32 (length p.value) _ hv) (rw (split_field-append p.value rest))))

unpack-write_loop :
    (ps : List HeaderPair) (total : ℕ) {n : ℕ}
    → size_loop ps total ≡ some n
    → unpack_headers (length ps) (write_loop ps) ≡ some ps
unfolding unpack_headers write_loop
unpack-write_loop [] total h = refl
unpack-write_loop (p ∷ ps) total h =
    let (hn, hv, _, rest) = size_loop_step p ps total h in
    rw (read_pair-write p (write_loop ps) hn hv) (rw (unpack-write_loop ps _ rest))

-- Whatever `coraza_pack_headers` packs, a reader of the documented format gets back: the same
-- names and values, in order, with no byte left over.
pub unpack-pack_headers :
    (ps : List HeaderPair) {buf : Bytes} {n : ℕ}
    → pack_headers ps ≡ some (buf, n)
    → unpack_headers (length ps) buf ≡ some ps
unfolding pack_headers write_packed
unpack-pack_headers ps h = elim (Option-cases (size_loop ps 0)) [
  | inl e ↦ absurd (ground arith)
  | inr (total, e) ↦ ground (arith, unpack-write_loop ps 0 e)
]
