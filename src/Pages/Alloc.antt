-- ===== src/Pages/Alloc.antt =====
-- The free list of sys/pmap.c, and taking a page from it.
use os.Common.{ℕ, ◌≤◌, ◌<◌, ◌≡◌, refl, ◌≢◌, arith, true, false, List, ◌∷◌, ◌==◌, has}
use os.Common.Links.{update, Chain, distinct, Chain-update}
use os.Pages.{Pmap, get_free_page}

-- `p` points to a descriptor of the array.
abbrev pub Entry : Pmap → ℕ → Type 0
Entry m p = (0 < p) × (p ≤ m.entry_count)

-- The free list holds exactly the descriptors whose page is not mapped, each once, in the order
-- `xs`; and the descriptors stand for different pages.
pub record Frees (m : Pmap) (xs : List ℕ) : Type 0 where
  pub chain : Chain m.next m.freelist_head xs
  pub once : distinct xs ≡ true
  pub within : (p : ℕ) → has p xs ≡ true → Entry m p
  pub unmapped : (p : ℕ) → Entry m p → has p xs ≡ (m.map_count p == 0)
  pub apart : (p q : ℕ) → Entry m p → Entry m q → m.base p ≡ m.base q → p ≡ q

-- From `m` to `m'` the page of descriptor `p`, not mapped before, was given out as `ret`.
pub record Taken (m : Pmap) (p : ℕ) (ret : ℕ) (m' : Pmap) : Type 0 where
  pub page : ret ≡ m.base p
  pub was_free : m.map_count p ≡ 0
  pub mapped : m'.map_count p ≡ 1
  pub others : (q : ℕ) → q ≢ p → m'.map_count q ≡ m.map_count q
  pub same_base : m'.base ≡ m.base
  pub same_count : m'.entry_count ≡ m.entry_count

module _ {m : Pmap} {p : ℕ} {xs : List ℕ} (f : Frees m (p ∷ xs)) where
  get_free_page_step : get_free_page m ≡ (
    m.base p,
    record m {
      map_count = update m.map_count p 1;
      freelist_head = m.next p;
      next = update m.next p 0;
    },
  )
  unfolding get_free_page
  get_free_page_step =
      let h : m.freelist_head ≡ p = f.chain.0 in
      let nz : (p == 0) ≡ false = ground (arith, f.chain.1) in
      let free : (m.map_count p == 0) ≡ true = ground (arith, f.unmapped p, f.within p) in
      simp (h, nz, free)

  -- With a free page at the head, `get_free_page` returns that page, which was not mapped, and maps it
  -- once; no other user count changes.
  pub get_free_page-Taken : Taken m p (get_free_page m).0 (get_free_page m).1
  get_free_page-Taken = rw get_free_page_step (record {
    page = refl;
    was_free = ground (arith, f.unmapped p, f.within p);
    mapped = ground arith;
    others = λ q ne. ground arith;
    same_base = refl;
    same_count = refl;
  })

  -- With a free page at the head, `get_free_page` takes that page off the free list, which stays in
  -- order.
  pub get_free_page-Frees : Frees (get_free_page m).1 xs
  get_free_page-Frees = rw get_free_page_step (record {
    chain = Chain-update m.next xs (m.next p) p 0 (ground (arith, f.once)) f.chain.2;
    once = ground (arith, f.once);
    within = λ q i. ground (arith, f.within q);
    unmapped = λ q e. ground (arith, f.unmapped q, f.once);
    apart = f.apart;
  })
