-- ===== src/Headers/Limits.antt =====
-- The bounds of `coraza_pack_headers` of src/mod_coraza.c: when it packs, how much it writes, and
-- that every byte written is a byte.
use coraza_apache.Base.{
  ℕ, ◌+◌, ◌≤◌, some, List, [], ◌∷◌, ◌++◌, Bytes, ◌≡◌, refl, arith, length, length-append, ◌≢◌,
  Option-cases, inl, inr,
}
use coraza_apache.Headers.{
  HeaderPair, int_max, u32, size_loop, write_loop, write_packed, pack_headers,
}

-- The size of one packed pair, and of a list of them.
abbrev pub pair_size : HeaderPair → ℕ
pair_size p = 6 + length p.name + length p.value

abbrev pub wire_size : List HeaderPair → ℕ
wire_size [] = 0
wire_size (p ∷ ps) = pair_size p + wire_size ps

-- Every name fits its length field.
abbrev pub NamesFit : List HeaderPair → Type 0
NamesFit [] = Unit
NamesFit (p ∷ ps) = (length p.name ≤ 0xffff) × NamesFit ps

length-write_loop : (ps : List HeaderPair) → length (write_loop ps) ≡ wire_size ps
unfolding write_loop
length-write_loop [] = refl
length-write_loop (p ∷ ps) = omega (
  arith,
  length-append p.name (u32 (length p.value) ++ (p.value ++ write_loop ps)),
  length-append p.value (write_loop ps),
  length-write_loop ps,
)

size_loop_complete :
    (ps : List HeaderPair) (total : ℕ)
    → NamesFit ps
    → total + wire_size ps ≤ int_max
    → size_loop ps total ≡ some (total + wire_size ps)
unfolding size_loop
size_loop_complete [] total f h = ground arith
size_loop_complete (p ∷ ps) total f h =
    ground (arith, size_loop_complete ps (total + (6 + length p.name + length p.value)))

-- What one round of the size loop has passed.
pub size_loop_step :
    (p : HeaderPair) (ps : List HeaderPair) (total : ℕ) {n : ℕ}
    → size_loop (p ∷ ps) total ≡ some n
    → (length p.name ≤ 0xffff)
      × (length p.value ≤ int_max)
      × (total + pair_size p ≤ int_max)
      × (size_loop ps (total + pair_size p) ≡ some n)
unfolding size_loop
size_loop_step p ps total h = ground arith

size_loop_sound :
    (ps : List HeaderPair) (total : ℕ) {n : ℕ}
    → total ≤ int_max
    → size_loop ps total ≡ some n
    → NamesFit ps × (n ≡ total + wire_size ps) × (n ≤ int_max)
unfolding size_loop
size_loop_sound [] total t h = ground arith
size_loop_sound (p ∷ ps) total t h =
    let (hn, _, room, rest) = size_loop_step p ps total h in
    let (fit, total_eq, bound) = size_loop_sound ps (total + pair_size p) room rest in
    ((hn, fit), omega arith, bound)

-- `coraza_pack_headers` succeeds on a non-empty list of headers whose names fit sixteen bits and
-- whose packed size fits an int, and reports exactly this size.
pub pack_headers_total :
    (ps : List HeaderPair)
    → NamesFit ps
    → wire_size ps ≤ int_max
    → ps ≢ []
    → pack_headers ps ≡ some (write_loop ps, wire_size ps)
unfolding pack_headers write_packed
pack_headers_total [] f h ne = absurd (ne refl)
pack_headers_total (p ∷ ps) f h ne = ground (arith, size_loop_complete (p ∷ ps) 0 f (omega arith))

-- Whatever is packed fills the allocated buffer to the byte, and its size fits an int. A header list
-- is packed only if it is not empty and its names fit sixteen bits.
pub pack_headers_bounds :
    (ps : List HeaderPair) {buf : Bytes} {n : ℕ}
    → pack_headers ps ≡ some (buf, n)
    → (length buf ≡ n) × (n ≤ int_max) × NamesFit ps × (ps ≢ [])
unfolding pack_headers write_packed
pack_headers_bounds ps h = elim (Option-cases (size_loop ps 0)) [
  | inl e ↦ absurd (ground arith)
  | inr (total, e) ↦ ground (arith, size_loop_sound ps 0 (omega arith) e, length-write_loop ps)
]
