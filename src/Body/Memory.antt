-- ===== src/Body/Memory.antt =====
-- How much of the kept body stays in memory: `CorazaRequestBodyInMemoryLimit` in
-- src/mod_coraza_phase1.c.
use coraza_apache.Base.{
  ℕ, ◌+◌, ◌≤◌, Option, none, some, [], ◌∷◌, ◌++◌, ◌≡◌, refl, arith, length, length-append, Bytes,
  ◌∙◌, append-nil, sym, ap, append_assoc,
}
use coraza_apache.Body.{Saving, tail_buckets}
use coraza_apache.Body.Loop.{contents, bytes_of, contents-append}
use coraza_apache.Request.{Brigade, heap, file, eos}

-- The bytes of a brigade that are held in memory.
abbrev pub memory_bytes : Brigade → ℕ
memory_bytes [] = 0
memory_bytes (heap b ∷ bs) = length b + memory_bytes bs
memory_bytes (_ ∷ bs) = memory_bytes bs

memory_bytes-append :
    (xs ys : Brigade) → memory_bytes (xs ++ ys) ≡ memory_bytes xs + memory_bytes ys
memory_bytes-append [] ys = omega arith
memory_bytes-append (heap b ∷ xs) ys = omega (arith, memory_bytes-append xs ys)
memory_bytes-append (_ ∷ xs) ys = memory_bytes-append xs ys

memory_bytes-le : (bs : Brigade) → memory_bytes bs ≤ length (contents bs)
memory_bytes-le [] = omega arith
memory_bytes-le (heap b ∷ bs) = omega (arith, memory_bytes-le bs, length-append b (contents bs))
memory_bytes-le (file b ∷ bs) = omega (arith, memory_bytes-le bs, length-append b (contents bs))
memory_bytes-le (_ ∷ bs) = memory_bytes-le bs

memory_bytes_tail : (s : Saving) → memory_bytes (tail_buckets s) ≡ 0
memory_bytes_tail s = ground arith

-- The tail in the file costs no memory.
pub memory_bytes-finish :
    (saved : Brigade) (s : Saving) (limit : ℕ)
    → length (contents saved) ≤ limit
    → memory_bytes (saved ++ tail_buckets s) ≤ limit
memory_bytes-finish saved s limit h =
    omega (
      arith,
      memory_bytes-append saved (tail_buckets s),
      memory_bytes_tail s,
      memory_bytes-le saved,
    )

contents_tail :
    (spool : Option Bytes)
    → contents (elim spool [ none ↦ eos ∷ [] | some contents' ↦ file contents' ∷ eos ∷ [] ])
      ≡ bytes_of spool
contents_tail none = refl
contents_tail (some f) = append-nil f

-- What a reader of the finished replay gets.
pub contents-finish :
    (saved : Brigade) (s : Saving)
    → contents (saved ++ tail_buckets s) ≡ contents saved ++ bytes_of s.spool
contents-finish saved s =
    contents-append saved (tail_buckets s) ∙ ap (λ x. contents saved ++ x) (contents_tail s.spool)

-- The replay ends with the end of the stream.
abbrev pub EndsWithEos : Brigade → Type 0
EndsWithEos b = (front : Brigade) × (b ≡ front ++ eos ∷ [])

tail-EndsWithEos :
    (saved : Brigade) (spool : Option Bytes)
    → EndsWithEos
        (saved ++ elim spool [ none ↦ eos ∷ [] | some contents' ↦ file contents' ∷ eos ∷ [] ])
tail-EndsWithEos saved none = (saved, refl)
tail-EndsWithEos saved (some f) =
    (saved ++ file f ∷ [], sym (append_assoc saved (file f ∷ []) (eos ∷ [])))

pub finish-EndsWithEos : (saved : Brigade) (s : Saving) → EndsWithEos (saved ++ tail_buckets s)
finish-EndsWithEos saved s = tail-EndsWithEos saved s.spool
