-- ===== src/Libc/Stream.antt =====
-- Successive calls of `readdir`: the entries of a buffer, one by one.
use os.Common.{
  ℕ, zero, suc, ◌+◌, ◌%◌, ◌^◌, ◌≤◌, ◌<◌, ◌≡◌, refl, Option, some, List, [], ◌∷◌, true, false, leb,
  length, arith,
}
use os.Common.Int.{pos}
use os.Libc.Dir.{Dstream, Filled, refill, readdir}

-- The entries from offset `o` to `end` have these lengths, none of which is 0.
abbrev pub Entries : (ℕ → ℕ) → ℕ → ℕ → List ℕ → Type 0
Entries reclen o end [] = o ≡ end
Entries reclen o end (l ∷ ls) = (reclen o ≡ l) × (0 < l) × Entries reclen (o + l) end ls

abbrev pub offsets : ℕ → List ℕ → List (Option ℕ)
offsets o [] = []
offsets o (l ∷ ls) = some o ∷ offsets (o + l) ls

-- So many calls, while `getdents` would answer with `filled`.
unfoldable pub calls : ℕ → Filled → Dstream → List (Option ℕ) × Dstream
calls zero filled d = ([], d)
calls (suc n) filled d =
    let (entry, d1) = readdir filled d in
    let (entries, d2) = calls n filled d1 in (entry ∷ entries, d2)

Entries-le : (reclen : ℕ → ℕ) (o end : ℕ) (ls : List ℕ) → Entries reclen o end ls → o ≤ end
Entries-le reclen o end [] h = omega arith
Entries-le reclen o end (l ∷ ls) h = omega (arith, Entries-le reclen (o + l) end ls h.2)

readdir_inside :
    (filled : Filled) (d : Dstream) (l : ℕ)
    → d.offset < d.size
    → d.reclen d.offset ≡ l
    → d.offset + l < 2 ^ 64
    → readdir filled d ≡ (some d.offset, record d { offset = d.offset + l })
unfolding readdir
readdir_inside filled d l inside e low =
    let no_refill : leb d.size d.offset ≡ false = ground arith in
    let wrap : (d.offset + l) % 2 ^ 64 ≡ d.offset + l = omega arith in rw (no_refill, e, wrap) refl

calls_inside :
    (ls : List ℕ) (filled : Filled) (d : Dstream)
    → Entries d.reclen d.offset d.size ls
    → d.size < 2 ^ 64
    → calls (length ls) filled d ≡ (offsets d.offset ls, record d { offset = d.size })
unfolding calls
calls_inside [] filled d h low = rw h refl
calls_inside (l ∷ ls) filled d h low =
    let room = Entries-le d.reclen (d.offset + l) d.size ls h.2 in
    rw
      (
        readdir_inside filled d l (omega arith) h.0 (omega arith),
        calls_inside ls filled (record d { offset = d.offset + l }) h.2 low,
      )
      refl

readdir_refilled :
    (n : ℕ) (reclen : ℕ → ℕ) (d : Dstream)
    → d.size ≤ d.offset
    → readdir (pos (suc n), reclen) d
      ≡ readdir (pos (suc n), reclen) (record d { size = suc n; offset = 0; reclen = reclen })
unfolding readdir refill
readdir_refilled n reclen d used =
    let up : leb d.size d.offset ≡ true = ground arith in
    let down : leb (suc n) 0 ≡ false = ground arith in rw (up, down) refl

-- When a stream is used up and `getdents` fills its buffer with entries, as many calls as there are
-- entries hand out each of them once, in order, and leave the stream used up.
pub calls-Entries :
    (l : ℕ) (ls : List ℕ) (n : ℕ) (reclen : ℕ → ℕ) (d : Dstream)
    → d.size ≤ d.offset
    → Entries reclen 0 (suc n) (l ∷ ls)
    → suc n < 2 ^ 64
    → calls (length (l ∷ ls)) (pos (suc n), reclen) d
      ≡ (offsets 0 (l ∷ ls), record d { size = suc n; offset = suc n; reclen = reclen })
unfolding calls
calls-Entries l ls n reclen d used h low = rw (readdir_refilled n reclen d used) (
    calls_inside (l ∷ ls) (pos (suc n), reclen)
      (record d { size = suc n; offset = 0; reclen = reclen }) h low)
