-- ===== src/Pool/Carve.antt =====
-- Refilling a pool, the `reload_*` functions of sys/task_pool.c.
use os.Common.{
  ℕ, zero, suc, ◌+◌, ◌≤◌, ◌<◌, ◌≡◌, refl, ◌⊎◌, arith, true, some, List, [], ◌∷◌, ltb, has,
  Bool-cases, inl, inr,
}
use os.Common.Links.{Links, update, Chain, distinct}
use os.Pool.{Pool, pgsize, reload_loop, reload}

module _ (size : ℕ) where
  -- Objects side by side from `p`: `k` behind the first.
  abbrev pub cells : ℕ → ℕ → List ℕ
  cells zero p = p ∷ []
  cells (suc k) p = p ∷ cells k (p + size)

  -- The address behind the last of them.
  abbrev pub behind : ℕ → ℕ → ℕ
  behind zero p = p + size
  behind (suc k) p = behind k (p + size)

  pub le-behind : (k p : ℕ) → p + size ≤ behind k p
  le-behind zero p = omega arith
  le-behind (suc k) p = omega (arith, le-behind k (p + size))

  -- Each object lies between the first and the end.
  pub cells-bounds : (k p a : ℕ) → has a (cells k p) ≡ true → (p ≤ a) × (a + size ≤ behind k p)
  cells-bounds zero p a h = ground arith
  cells-bounds (suc k) p a h = ground (arith, cells-bounds k (p + size) a, le-behind k (p + size))

  module _ (nz : 0 < size) where
    pub cells-distinct : (k p : ℕ) → distinct (cells k p) ≡ true
    cells-distinct zero p = refl
    cells-distinct (suc k) p =
        ground (arith, cells-distinct k (p + size), cells-bounds k (p + size) p)

    -- What the loop leaves, from object `prev` on.
    record Carved (limit prev : ℕ) (free : Links) (k : ℕ) (free' : Links) : Type 0 where
      chain : Chain free' prev (cells k prev)
      below : (q : ℕ) → q < prev → free' q ≡ free q
      fits : (k ≡ 0) ⊎ (behind k prev < limit)
      greedy : limit ≤ behind k prev + size

    reload_loop-Carved :
        (fuel limit prev : ℕ) (free : Links)
        → 0 < prev
        → prev < limit
        → limit ≤ prev + fuel
        → (k : ℕ) × (free' : Links) × (reload_loop fuel size limit prev (prev + size) free
            ≡ some free')
          × Carved limit prev free k free'
    unfolding reload_loop
    reload_loop-Carved zero limit prev free live room enough = absurd (omega arith)
    reload_loop-Carved (suc fuel) limit prev free live room enough =
        elim (Bool-cases (ltb (prev + size + size) limit)) [
          | inl more ↦
              let num : ℕ = prev + size in
              let (k, free', e, c) =
                reload_loop-Carved fuel limit num (update free prev num) (omega arith)
                  (ground arith) (omega arith) in
              (
                suc k,
                free',
                rw more e,
                record {
                  chain = (
                    refl,
                    omega arith,
                    (let here : free' prev ≡ num = ground (arith, c.below prev) in rw here c.chain),
                  );
                  below = λ q lt. ground (arith, c.below q);
                  fits = inr (elim c.fits [ inl z ↦ rw z (ground arith) | inr lt ↦ lt ]);
                  greedy = c.greedy;
                },
              )
          | inr done ↦ (
            0,
            update free prev 0,
            rw done,
            record {
              chain = (refl, omega arith, ground arith);
              below = λ q lt. ground arith;
              fits = inl refl;
              greedy = ground arith;
            },
          )
        ]

-- `reload` puts objects side by side on the page, from its start, linked in order: all of them end
-- before the page does (or there is one), and one more would reach its end; the links of objects
-- below the page stay.
pub record Refilled (size page : ℕ) (p : Pool) (k : ℕ) (p' : Pool) : Type 0 where
  pub chain : Chain p'.free p'.head (cells size k page)
  pub start : p'.head ≡ page
  pub fits : (k ≡ 0) ⊎ (behind size k page < page + pgsize)
  pub greedy : page + pgsize ≤ behind size k page + size
  pub same_bytes : p'.bytes ≡ p.bytes

-- Refilling a pool from a page succeeds for every size of object.
pub reload-Refilled :
    (size page : ℕ) (p : Pool)
    → 0 < size
    → 0 < page
    → (k : ℕ) × (p' : Pool) × (reload size page p ≡ some p') × Refilled size page p k p'
unfolding reload
reload-Refilled size page p nz live =
    let (k, free', e, c) =
      reload_loop-Carved size nz pgsize (page + pgsize) page p.free live (omega arith)
        (omega arith) in
    (
      k,
      record p { head = page; free = free' },
      rw (e, reload),
      record { chain = c.chain; start = refl; fits = c.fits; greedy = c.greedy; same_bytes = refl },
    )
