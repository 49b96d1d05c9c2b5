-- ===== src/Pool/Vmas.antt =====
-- Free descriptors, and what becomes of the pool of regions in `replace_task`.
use os.Common.{
  ℕ, zero, suc, ◌+◌, ◌≤◌, ◌<◌, ◌≡◌, refl, ◌≢◌, arith, false, some, List, [], ◌∷◌, ◌++◌, ◌==◌,
  length, Bool-cases, inl, inr,
}
use mathlib.Core.Path.{subst}
use os.Common.Int.{ℤ, pos, negsuc}
use os.Common.Links.{Links, update, Chain, Chain-snoc_ne_zero}
use os.Pool.{Pool, free_fd_from, get_free_fd, last_vma, replace_task}

-- What a search for a free descriptor among `[low, high)` may give.
abbrev pub Found : (ℕ → ℕ) → ℕ → ℕ → ℤ → Type 0
Found fdarr low high (pos n) =
    (low ≤ n) × (n < high) × (fdarr n ≡ 0) × ((i : ℕ) → low ≤ i → i < n → fdarr i ≢ 0)
Found fdarr low high (negsuc k) = (k ≡ 0) × ((i : ℕ) → low ≤ i → i < high → fdarr i ≢ 0)

Found-skip :
    (fdarr : ℕ → ℕ) (low high : ℕ) (r : ℤ)
    → fdarr low ≢ 0
    → Found fdarr (low + 1) high r
    → Found fdarr low high r
Found-skip fdarr low high (pos n) taken f =
    (omega (arith, f.0), f.1, f.2, λ i a b. above i (λ l. f.3 i l b) a)
  where
    above : (i : ℕ) → (low + 1 ≤ i → fdarr i ≢ 0) → low ≤ i → fdarr i ≢ 0
    above i h a = ground (arith, h, taken)
Found-skip fdarr low high (negsuc k) taken f = (f.0, λ i a b. above i (λ l. f.1 i l b) a)
  where
    above : (i : ℕ) → (low + 1 ≤ i → fdarr i ≢ 0) → low ≤ i → fdarr i ≢ 0
    above i h a = ground (arith, h, taken)

free_fd_from-Found :
    (rounds n : ℕ) (fdarr : ℕ → ℕ) → Found fdarr n (n + rounds) (free_fd_from rounds n fdarr)
unfolding free_fd_from
free_fd_from-Found zero n fdarr = (refl, λ i a b. absurd (omega arith))
free_fd_from-Found (suc rounds) n fdarr = elim (Bool-cases (fdarr n == 0)) [
  | inl here ↦
      rw here (omega arith, omega arith, ground (arith, here), λ i a b. absurd (omega arith))
  | inr taken ↦
      let e : n + 1 + rounds ≡ n + suc rounds = omega arith in
      rw taken (
        Found-skip fdarr n (n + suc rounds) (free_fd_from rounds (n + 1) fdarr)
          (ground (arith, taken))
          (subst (λ h. Found fdarr (n + 1) h (free_fd_from rounds (n + 1) fdarr)) e
            (free_fd_from-Found rounds (n + 1) fdarr)))
]

-- `get_free_fd` returns the least descriptor below 50 that is free, or -1 when none of them is.
pub get_free_fd-Found : (fdarr : ℕ → ℕ) → Found fdarr 0 50 (get_free_fd fdarr)
unfolding get_free_fd
get_free_fd-Found fdarr = free_fd_from-Found 50 0 fdarr

last_vma-Chain :
    (xs : List ℕ) (fuel p prev y : ℕ) (next : Links)
    → Chain next p (xs ++ y ∷ [])
    → suc (length xs) < fuel
    → last_vma fuel next p prev ≡ some y
unfolding last_vma
last_vma-Chain xs zero p prev y next c enough = absurd (omega arith)
last_vma-Chain [] (suc (suc fuel)) p prev y next c enough = ground (arith, c)
last_vma-Chain xs (suc zero) p prev y next c enough = absurd (omega arith)
last_vma-Chain (x ∷ xs) (suc (suc fuel)) p prev y next c enough =
    let ih = last_vma-Chain xs (suc fuel) (next x) x y next c.2 (omega arith) in
    let e : p ≡ x = c.0 in let nz : (x == 0) ≡ false = ground (arith, c.1) in rw (e, nz) ih

replace_task_at :
    (fuel vm y : ℕ) (next : Links) (p : Pool)
    → last_vma fuel next vm 0 ≡ some y
    → (y == 0) ≡ false
    → replace_task fuel vm next p ≡ some (update next y p.head, record p { head = vm })
unfolding replace_task
replace_task_at fuel vm y next p e live = rw (replace_task, e, live) refl

-- With fuel for each region, `replace_task` on a process with regions ends with the first of them at
-- the head of the pool. The pool leads on through `free`, which is null in a region in use: whatever
-- was free before, this one region is all that the pool holds then.
pub replace_task_loses :
    (p : Pool) (xs : List ℕ) (fuel vm y : ℕ) (next : Links)
    → Chain next vm (xs ++ y ∷ [])
    → p.free vm ≡ 0
    → suc (length xs) < fuel
    → (next2 : Links) × (p2 : Pool) × (replace_task fuel vm next p ≡ some (next2, p2))
      × Chain p2.free p2.head (vm ∷ [])
unfolding replace_task
replace_task_loses p xs fuel vm y next c used enough =
    let live : (y == 0) ≡ false = ground (arith, last_ne_zero xs vm c) in
    let first : vm ≢ 0 = Chain-snoc_ne_zero next xs vm y c in
    (
      update next y p.head,
      record p { head = vm },
      replace_task_at fuel vm y next p (last_vma-Chain xs fuel vm 0 y next c enough) live,
      (refl, first, used),
    )
  where
    last_ne_zero : (xs : List ℕ) (q : ℕ) → Chain next q (xs ++ y ∷ []) → y ≢ 0
    last_ne_zero [] q c = c.1
    last_ne_zero (x ∷ xs) q c = last_ne_zero xs (next x) c.2
