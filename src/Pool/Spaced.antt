-- ===== src/Pool/Spaced.antt =====
-- Objects of a pool of sys/task_pool.c that share no byte.
use os.Common.{
  ℕ, zero, suc, ◌+◌, ◌≤◌, ◌≡◌, ◌≢◌, ◌⊎◌, arith, true, List, ◌++◌, has, has-append, Bool-cases, inl,
  inr,
}
use os.Pool.{pgsize}
use os.Pool.Carve.{cells, cells-bounds}

-- Two different objects of the size share no byte.
abbrev pub IsSpaced : ℕ → ℕ → ℕ → Type 0
IsSpaced size a b = a ≢ b → (a + size ≤ b) ⊎ (b + size ≤ a)

abbrev pub AreSpaced : ℕ → List ℕ → Type 0
AreSpaced size xs = (a b : ℕ) → has a xs ≡ true → has b xs ≡ true → IsSpaced size a b

pub AreSpaced-append :
    (size : ℕ) (xs ys : List ℕ)
    → AreSpaced size xs
    → AreSpaced size ys
    → ((a b : ℕ) → has a xs ≡ true → has b ys ≡ true → (a + size ≤ b) ⊎ (b + size ≤ a))
    → AreSpaced size (xs ++ ys)
AreSpaced-append size xs ys f g h a b i j ne = elim (Bool-cases (has a xs)) [
  | inl ax ↦ elim (Bool-cases (has b xs)) [
    | inl bx ↦ f a b ax bx ne
    | inr bx ↦ h a b ax (ground (arith, has-append b xs ys, j, bx))
  ]
  | inr ax ↦
      let ay : has a ys ≡ true = ground (arith, has-append a xs ys, i, ax) in
      elim (Bool-cases (has b xs)) [
        | inl bx ↦ elim (h b a bx ay) [ inl l ↦ inr l | inr l ↦ inl l ]
        | inr bx ↦ g a b ay (ground (arith, has-append b xs ys, j, bx)) ne
      ]
]

-- Objects of a page and one that lies outside of it.
pub spaced_fresh :
    (size page a b : ℕ) (live : List ℕ)
    → a + size ≤ page + pgsize
    → page ≤ a
    → (b + size ≤ page) ⊎ (page + pgsize ≤ b)
    → (a + size ≤ b) ⊎ (b + size ≤ a)
spaced_fresh size page a b live hi lo f = ground (arith, f)

-- Objects side by side share no byte.
pub cells-spaced : (size k page : ℕ) → AreSpaced size (cells size k page)
cells-spaced size zero page a b i j ne = absurd (ground (arith, i, j, ne))
cells-spaced size (suc k) page a b i j ne = ground (
  arith,
  cells-spaced size k (page + size) a b,
  cells-bounds size k (page + size) a,
  cells-bounds size k (page + size) b,
)
