-- ===== src/Strings/Blocks.antt =====
-- The moves and comparisons of blocks of memory.
use os.Common.{
  ℕ, zero, suc, ◌+◌, ◌%◌, ◌^◌, ◌≤◌, ◌<◌, ◌≡◌, refl, ◌≢◌, ◌∙◌, arith, true, false, ◌&&◌, ltb, ◌==◌,
  if◌then◌else◌, ◌⊎◌, inl, ◌↔◌,
}
use mathlib.Core.Path.{subst}
use native.Mathlib.Nat.{mod-eq_of_lt}
use os.Common.Int.{pos, sub_ℕ}
use os.Common.Links.{update}
use os.Strings.{Memory, memcpy_up, memcpy, memmove, memcmp}

-- Up to the end of the address space `memmove` copies from the first byte on, whichever way the
-- blocks overlap, as `memcpy` does: its other branch is never taken.
pub memmove-memcpy :
    (m : Memory) (src dst n : ℕ) → src + n < 2 ^ 64 → memmove m src dst n ≡ memcpy m src dst n
unfolding memmove memcpy
memmove-memcpy m src dst n h =
    let e : (src + n) % 2 ^ 64 ≡ src + n = mod-eq_of_lt h in
    let never : (ltb dst src && ltb (src + n) dst) ≡ false = ground arith in rw (e, never) refl

memcpy_up_below :
    (n : ℕ) (m : Memory) (b a q : ℕ) → (q < a) ⊎ (a + n ≤ q) → memcpy_up n m b a q ≡ m q
unfolding memcpy_up
memcpy_up_below zero m b a q h = refl
memcpy_up_below (suc n) m b a q h =
    let ih = memcpy_up_below n (update m a (m b)) (suc b) (suc a) q (ground arith) in
    ground (arith, ih)

memcpy_up-block :
    (n : ℕ) (m : Memory) (b a i : ℕ)
    → (a ≤ b) ⊎ (b + n ≤ a)
    → i < n
    → memcpy_up n m b a (a + i) ≡ m (b + i)
unfolding memcpy_up
memcpy_up-block zero m b a i apart h = absurd (omega arith)
memcpy_up-block (suc n) m b a zero apart h =
    let below = memcpy_up_below n (update m a (m b)) (suc b) (suc a) a (inl (omega arith)) in
    let e : a + 0 ≡ a = omega arith in
    let d : b + 0 ≡ b = omega arith in rw (e, d) (ground (arith, below))
memcpy_up-block (suc n) m b a (suc i) apart h =
    let ih = memcpy_up-block n (update m a (m b)) (suc b) (suc a) i (ground arith) (omega arith) in
    let e : a + suc i ≡ suc a + i = omega arith in
    let d : suc b + i ≡ b + suc i = omega arith in
    let apart2 : a ≢ b + suc i = ground arith in rw e (ih ∙ rw d (ground arith))

-- Where the target does not begin inside the source, `memcpy` leaves the source's bytes of before at
-- the target, and every byte outside of the target as it was.
pub memcpy-block :
    (m : Memory) (src dst count : ℕ)
    → (dst ≤ src) ⊎ (src + count ≤ dst)
    → ((i : ℕ) → i < count → memcpy m src dst count (dst + i) ≡ m (src + i))
      × ((q : ℕ) → (q < dst) ⊎ (dst + count ≤ q) → memcpy m src dst count q ≡ m q)
unfolding memcpy
memcpy-block m src dst count apart =
    (λ i h. memcpy_up-block count m src dst i apart h, λ q h. memcpy_up_below count m src dst q h)

sub_ℕ_zero : (x y : ℕ) → sub_ℕ x y ≡ pos 0 → x ≡ y
sub_ℕ_zero x y h = ground (arith, h)

memcmp_first :
    (m : Memory) (a b count : ℕ)
    → memcmp m a b (suc count) ≡ pos 0
    → (m a ≡ m b) × (memcmp m (suc a) (suc b) count ≡ pos 0)
unfolding memcmp
memcmp_first m a b count e =
    let eq : m a ≡ m b = ground (arith, e, sub_ℕ_zero (m a) (m b)) in
    let test : (m a == m b) ≡ true = ground (arith, eq) in
    (
      eq,
      subst (λ t. (if t then memcmp m (suc a) (suc b) count else sub_ℕ (m a) (m b)) ≡ pos 0) test e,
    )

memcmp-alike :
    (m : Memory) (a b count : ℕ)
    → memcmp m a b count ≡ pos 0
    → (i : ℕ) → i < count
    → m (a + i) ≡ m (b + i)
memcmp-alike m a b zero e i h = absurd (omega arith)
memcmp-alike m a b (suc count) e zero h =
    let p : a + 0 ≡ a = omega arith in
    let q : b + 0 ≡ b = omega arith in rw (p, q) (memcmp_first m a b count e).0
memcmp-alike m a b (suc count) e (suc i) h =
    let p : a + suc i ≡ suc a + i = omega arith in
    let q : b + suc i ≡ suc b + i = omega arith in
    rw (p, q) (memcmp-alike m (suc a) (suc b) count (memcmp_first m a b count e).1 i (omega arith))

memcmp_of_alike :
    (m : Memory) (a b count : ℕ)
    → ((i : ℕ) → i < count → m (a + i) ≡ m (b + i))
    → memcmp m a b count ≡ pos 0
unfolding memcmp
memcmp_of_alike m a b zero h = refl
memcmp_of_alike m a b (suc count) h =
    let p : a + 0 ≡ a = omega arith in
    let q : b + 0 ≡ b = omega arith in
    let first : m a ≡ m b =
      subst (λ x. m x ≡ m b) p (subst (λ y. m (a + 0) ≡ m y) q (h 0 (omega arith))) in
    let test : (m a == m b) ≡ true = ground (arith, first) in
    rw test (memcmp_of_alike m (suc a) (suc b) count (λ i l. shifted i l))
  where
    shifted : (i : ℕ) → i < count → m (suc a + i) ≡ m (suc b + i)
    shifted i l =
        let p : suc a + i ≡ a + suc i = omega arith in
        let q : suc b + i ≡ b + suc i = omega arith in rw (p, q) (h (suc i) (omega arith))

-- `memcmp` returns 0 when and only when the two blocks are alike.
pub memcmp_zero :
    (m : Memory) (a b count : ℕ)
    → (memcmp m a b count ≡ pos 0) ↔ ((i : ℕ) → i < count → m (a + i) ≡ m (b + i))
memcmp_zero m a b count = (memcmp-alike m a b count, memcmp_of_alike m a b count)
