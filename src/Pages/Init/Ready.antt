-- ===== src/Pages/Init/Ready.antt =====
-- The state that `pmap_init` of sys/pmap.c leaves.
use os.Common.{
  ℕ, suc, ◌+◌, ◌-◌, ◌*◌, ltb, ◌≤◌, sym, ◌^◌, ◌<◌, ◌≡◌, refl, ◌∙◌, ap, arith, true, false, not, some,
  List, [], ◌∷◌, ◌++◌, ◌==◌, if◌then◌else◌, has,
}
use os.Common.Links.{update, Chain, Chain-end, distinct}
use os.Pages.{Pmap}
use os.Pages.Alloc.{Entry, Frees}
use os.Pages.Init.{
  Smap, Filling, size, select, count_pages, real_physfree, cleared, reserved, page_base, end_list,
  init_blocks, fill_array, pmap_init,
}
use os.Pages.Init.Linked.{Filled, fill_blocks_first, total, Placed}

-- The free list holds, each once, exactly the pages outside `[physbase, real)`; those inside are
-- mapped once.
pub record Ready (physbase real : ℕ) (m : Pmap) (xs : List ℕ) : Type 0 where
  pub chain : Chain m.next m.freelist_head xs
  pub once : distinct xs ≡ true
  pub within : (p : ℕ) → has p xs ≡ true → Entry m p
  pub listed : (p : ℕ) → Entry m p → has p xs ≡ not (reserved physbase real (m.base p))
  pub counted :
      (p : ℕ) → Entry m p → m.map_count p ≡ (if reserved physbase real (m.base p) then 1 else 0)

-- Where the descriptors stand for different pages, this is the invariant of the allocator.
pub Ready-Frees :
    {physbase real : ℕ} {m : Pmap} {xs : List ℕ}
    → Ready physbase real m xs
    → ((p q : ℕ) → Entry m p → Entry m q → m.base p ≡ m.base q → p ≡ q)
    → Frees m xs
Ready-Frees r apart = record {
  chain = r.chain;
  once = r.once;
  within = r.within;
  unmapped = λ p e. ground (arith, r.listed p e, r.counted p e);
  apart = apart;
}

count_pages-total : (blocks : List Smap) → total blocks < 2 ^ 32 → count_pages blocks ≡ total blocks
count_pages-total [] h = refl
count_pages-total (s ∷ rest) h = omega (arith, count_pages-total rest (omega arith))

-- The `i`-th page of the blocks: of each block the first `size` pages, in order.
abbrev pub page_at : List Smap → ℕ → ℕ
page_at [] i = 0
page_at (s ∷ rest) i = if ltb i (size s) then s.base + i * 4096 else page_at rest (i - size s)

-- Blocks of at most 4 gigabytes that end in the address space.
abbrev pub Small : List Smap → Type 0
Small [] = true ≡ true
Small (s ∷ rest) = (size s ≤ 2 ^ 20) × (s.base + size s * 4096 < 2 ^ 64) × Small rest

page_at-Placed :
    (place : ℕ → ℕ) (blocks : List Smap) (cnt : ℕ)
    → Small blocks
    → ((i : ℕ) → i < total blocks → place (cnt + i + 1) ≡ page_at blocks i)
    → Placed place blocks cnt
page_at-Placed place [] cnt w h = refl
page_at-Placed place (s ∷ rest) cnt w h = (
  λ i lt.
      let here : page_at (s ∷ rest) i ≡ s.base + i * 4096 = ground arith in
      let wide : page_base s.base i ≡ s.base + i * 4096 = omega (arith, w.0, w.1) in
      wide ∙ sym here ∙ sym (h i (omega arith)),
  page_at-Placed place rest (cnt + size s) w.2 (λ i lt.
      let e : cnt + size s + i + 1 ≡ cnt + (size s + i) + 1 = omega arith in
      let back : size s + i - size s ≡ i = omega arith in
      let more : ltb (size s + i) (size s) ≡ false = ground arith in
      ap place e ∙ h (size s + i) (omega arith) ∙ rw (more, back) refl),
)

-- With the last link cleared, the descriptors are ready.
end_list-Ready :
    (place : ℕ → ℕ) (physbase real entries : ℕ) (xs : List ℕ) (f : Filling)
    → Filled place physbase real entries entries xs f
    → (m : Pmap) × (ys : List ℕ) × (end_list real f ≡ some (real, m))
      × (m.entry_count ≡ entries)
      × (m.base ≡ (f.map_).base)
      × Ready physbase real m ys
unfolding end_list
end_list-Ready place physbase real entries xs f h =
    let live : (f.prev == 0) ≡ false = ground (arith, h.live) in
    let k : (f.map_).entry_count ≡ entries = h.kept in
    (
      record (f.map_) { next = update (f.map_).next f.prev 0 },
      xs ++ f.prev ∷ [],
      rw live,
      k,
      refl,
      record {
        chain = Chain-end (f.map_).next xs (f.map_).freelist_head f.prev h.chain h.once;
        once = h.once;
        within = λ p i. ground (arith, h.within p);
        listed = λ p e. h.listed p e.0 (ground arith);
        counted = λ p e. h.counted p e.0 (ground arith);
      },
    )

-- Where the first page of the first block is outside the reserved range, the pages fit 32 bits and no
-- block has more than 4 gigabytes, `pmap_init` writes through no null pointer, returns the end of the
-- descriptors, and leaves, in order, one descriptor for each page but the last of every block
-- selected, with the address of that page; the free list holds, each once, exactly the
-- pages outside the kernel and the descriptors, and those inside are mapped once.
pub pmap_init-Ready :
    (m0 : Pmap) (smaps : List Smap) (physbase physfree : ℕ) (s : Smap) (rest : List Smap)
    → select 0 smaps ≡ s ∷ rest
    → 0 < size s
    → total (s ∷ rest) < 2 ^ 32
    → Small (s ∷ rest)
    → let real = real_physfree physfree (total (s ∷ rest)) in
      reserved physbase real (page_base s.base 0) ≡ false
      → (m : Pmap) × (xs : List ℕ) × (pmap_init m0 smaps physbase physfree ≡ some (real, m))
        × (m.entry_count ≡ total (s ∷ rest))
        × ((i : ℕ) → i < total (s ∷ rest) → m.base (suc i) ≡ page_at (s ∷ rest) i)
        × Ready physbase real m xs
unfolding pmap_init fill_array
pmap_init-Ready m0 smaps physbase physfree s rest sel nz small w r =
    let n : ℕ = total (s ∷ rest) in
    let real : ℕ = real_physfree physfree n in
    let e : count_pages (s ∷ rest) ≡ n = count_pages-total (s ∷ rest) small in
    let place : ℕ → ℕ = λ p. page_at (s ∷ rest) (p - 1) in
    let placed : Placed place (s ∷ rest) 0 =
      page_at-Placed place (s ∷ rest) 0 w
        (λ i lt. (let e : 0 + i + 1 - 1 ≡ i = omega arith in ap (page_at (s ∷ rest)) e)) in
    let (f, xs, g, h) =
      fill_blocks_first place physbase real n s rest (cleared n) nz r placed refl refl in
    let (m, ys, last, k, same, ready) = end_list-Ready place physbase real n xs f h in
    (
      m,
      ys,
      ap (init_blocks m0 physbase physfree) sel
          ∙ ap (fill_array physbase physfree (s ∷ rest)) e
          ∙ rw (fill_array, g) last,
      k,
      λ i lt.
          ap (λ (b : ℕ → ℕ). b (suc i)) same
          ∙ h.based (suc i) (omega arith) (omega arith)
          ∙ (let e : suc i - 1 ≡ i = omega arith in ap (page_at (s ∷ rest)) e),
      ready,
    )
