-- ===== src/Headers.antt =====
-- Bulk header packing: `coraza_header_pair_t` of src/mod_coraza.h and `coraza_pack_headers` of
-- src/mod_coraza.c. The lengths of a pair are the lengths of its strings. `size_t` subtraction is
-- only reached where the test before it has passed, so it does not wrap.
pub mod RoundTrip
pub mod Limits
mod Examples
use coraza_apache.Base.{
  ℕ, ◌+◌, ◌-◌, ◌*◌, ◌/◌, ◌%◌, Bool, ◌||◌, Option, none, some, List, [], ◌∷◌, ◌++◌, Bytes, ltb, ◌==◌,
  if◌then◌else◌, length,
}

pub record HeaderPair : Type 0 where
  pub name : Bytes
  pub value : Bytes

abbrev pub int_max : ℕ
int_max = 0x7fff_ffff

-- `nlen > 0xffff || vlen > INT_MAX`
abbrev pub is_field_too_long : HeaderPair → Bool
is_field_too_long p = ltb 0xffff (length p.name) || ltb int_max (length p.value)

-- The second test of the size loop: the packed total would not fit an int.
abbrev pub is_total_too_long : ℕ → HeaderPair → Bool
is_total_too_long total p =
    ltb (int_max - 6) total
    || ltb (int_max - 6 - total) (length p.name)
    || ltb (int_max - 6 - total - length p.name) (length p.value)

-- The first loop: the packed size, or `none` for the early `return NULL`.
pub size_loop : List HeaderPair → ℕ → Option ℕ
size_loop [] total = some total
size_loop (p ∷ ps) total =
    if is_field_too_long p
    then none
    else if is_total_too_long total p
    then none
    else size_loop ps (total + (6 + length p.name + length p.value))

-- `(char)((x >> 8 * k) & 0xff)`, with `256 ^ k` written out as `place`.
abbrev pub byte_at : ℕ → ℕ → ℕ
byte_at place x = (x / place) % 0x100

abbrev pub u16 : ℕ → Bytes
u16 x = byte_at 0x100 x ∷ byte_at 1 x ∷ []

abbrev pub u32 : ℕ → Bytes
u32 x = byte_at 0x100_0000 x ∷ byte_at 0x1_0000 x ∷ byte_at 0x100 x ∷ byte_at 1 x ∷ []

-- The second loop: what is written through `q`.
pub write_loop : List HeaderPair → Bytes
write_loop [] = []
write_loop (p ∷ ps) =
    u16 (length p.name) ++ (p.name ++ (u32 (length p.value) ++ (p.value ++ write_loop ps)))

-- `if (total == 0) return NULL;` and the allocation of `total` bytes.
pub write_packed : List HeaderPair → ℕ → Option (Bytes × ℕ)
write_packed ps total = if total == 0 then none else some (write_loop ps, total)

-- The buffer and `*packed_len`; `none` is NULL.
unfoldable pub pack_headers : List HeaderPair → Option (Bytes × ℕ)
unfolding write_packed size_loop write_loop
pack_headers ps = elim (size_loop ps 0) [ none ↦ none | some total ↦ write_packed ps total ]
