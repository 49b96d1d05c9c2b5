-- ===== src/Pages/Init/Linked.antt =====
-- What the loops of `pmap_init` keep true of the descriptors filled so far.
use mathlib.Core.List.{append_assoc}
use mathlib.Core.Path.{subst}
use os.Common.{
  ℕ, zero, suc, ◌+◌, ◌-◌, ◌%◌, ◌^◌, ◌≤◌, ◌<◌, ◌≡◌, refl, ◌≢◌, ap, arith, Bool, true, false, not,
  ◌&&◌, some, List, [], ◌∷◌, ◌++◌, ◌==◌, if◌then◌else◌, has, has-append, Bool-cases, inl, inr,
}
use os.Common.Links.{Links, update, Chain, distinct, Chain-update, Chain-link, distinct-snoc}
use os.Pages.{Pmap}
use os.Pages.Init.{
  Smap, Filling, size, fill_entry, fill_block, fill_blocks, append_free, reserved, page_base,
}

-- Pages of the blocks, not reduced modulo 2^32.
abbrev pub total : List Smap → ℕ
total [] = 0
total (s ∷ rest) = size s + total rest

-- Each block's pages, from descriptor `cnt + 1` on, are those that `place` names.
abbrev pub Placed : (ℕ → ℕ) → List Smap → ℕ → Type 0
Placed place [] cnt = true ≡ true
Placed place (s ∷ rest) cnt =
    ((i : ℕ) → i < size s → page_base s.base i ≡ place (cnt + i + 1))
    × Placed place rest (cnt + size s)

module _ (place : ℕ → ℕ) (physbase real entries : ℕ) where
  -- The descriptors up to `e` are filled: those of pages outside the reserved range form the list
  -- `xs ++ last`, in order, and the others are mapped once; each stands for the page that `place` names.
  pub record Filled (e : ℕ) (xs : List ℕ) (f : Filling) : Type 0 where
    pub live : f.prev ≢ 0
    pub chain : Chain (f.map_).next (f.map_).freelist_head (xs ++ f.prev ∷ [])
    pub once : distinct (xs ++ f.prev ∷ []) ≡ true
    pub within : (p : ℕ) → has p (xs ++ f.prev ∷ []) ≡ true → (0 < p) × (p ≤ e)
    pub listed :
        (p : ℕ)
        → 0 < p
        → p ≤ e
        → has p (xs ++ f.prev ∷ []) ≡ not (reserved physbase real ((f.map_).base p))
    pub counted :
        (p : ℕ)
        → 0 < p
        → p ≤ e
        → (f.map_).map_count p ≡ (if reserved physbase real ((f.map_).base p) then 1 else 0)
    pub based : (p : ℕ) → 0 < p → p ≤ e → (f.map_).base p ≡ place p
    pub kept : (f.map_).entry_count ≡ entries
    pub fresh : (p : ℕ) → e < p → (f.map_).next p ≡ 0

  fill_entry-reserved :
      (first : Bool) (base cnt k e : ℕ) (xs : List ℕ) (f : Filling)
      → e ≡ cnt + k
      → page_base base k ≡ place (cnt + k + 1)
      → reserved physbase real (page_base base k) ≡ true
      → Filled e xs f
      → (f' : Filling) × (fill_entry physbase real first base cnt k f ≡ some f')
        × Filled (suc e) xs f'
  unfolding fill_entry
  fill_entry-reserved first base cnt k e xs f eq at r h =
      let entry : ℕ = cnt + k + 1 in
      let m : Pmap = f.map_ in
      let out : has entry (xs ++ f.prev ∷ []) ≡ false = ground (arith, h.within entry) in
      (
        record {
          map_ = record m {
            base = update m.base entry (page_base base k);
            map_count = update m.map_count entry 1;
            next = update m.next entry 0;
            free_pg_count = (m.free_pg_count + 2 ^ 32 - 1) % 2 ^ 32;
          };
          prev = f.prev;
        },
        rw r,
        record {
          live = h.live;
          chain = Chain-update m.next (xs ++ f.prev ∷ []) m.freelist_head entry 0 out h.chain;
          once = h.once;
          within = λ p i. ground (arith, h.within p);
          listed = λ p lo hi. ground (arith, h.listed p, h.within p);
          counted = λ p lo hi. ground (arith, h.counted p);
          based = λ p lo hi. ground (arith, h.based p, at);
          kept = h.kept;
          fresh = λ p hi. ground (arith, h.fresh p);
        },
      )

  fill_entry-free :
      (first : Bool) (base cnt k e : ℕ) (xs : List ℕ) (f : Filling)
      → e ≡ cnt + k
      → page_base base k ≡ place (cnt + k + 1)
      → 0 < e
      → reserved physbase real (page_base base k) ≡ false
      → Filled e xs f
      → (f' : Filling) × (fill_entry physbase real first base cnt k f ≡ some f')
        × Filled (suc e) (xs ++ f.prev ∷ []) f'
  unfolding fill_entry append_free
  fill_entry-free first base cnt k e xs f eq at pos_ r h =
      let entry : ℕ = cnt + k + 1 in
      let m : Pmap = f.map_ in
      let later : (first && cnt + k == 0) ≡ false = ground arith in
      let live : (f.prev == 0) ≡ false = ground (arith, h.live) in
      let out : has entry (xs ++ f.prev ∷ []) ≡ false = ground (arith, h.within entry) in
      (
        record {
          map_ = record m {
            base = update m.base entry (page_base base k);
            map_count = update m.map_count entry 0;
            next = update m.next f.prev entry;
          };
          prev = entry;
        },
        rw (r, later, live),
        record {
          live = omega arith;
          chain = rw append_assoc (
              Chain-link m.next xs m.freelist_head f.prev entry h.chain out h.once (omega arith)
                (h.fresh entry (omega arith)));
          once = distinct-snoc (xs ++ f.prev ∷ []) entry h.once out;
          within = λ p i. ground (arith, h.within p, has-append p (xs ++ f.prev ∷ []) (entry ∷ []));
          listed = λ p lo hi.
              ground (arith, h.listed p, h.within p, has-append p (xs ++ f.prev ∷ []) (entry ∷ []));
          counted = λ p lo hi. ground (arith, h.counted p);
          based = λ p lo hi. ground (arith, h.based p, at);
          kept = h.kept;
          fresh = λ p hi.
              ground (arith, h.fresh p, h.within f.prev, has-append f.prev xs (f.prev ∷ []));
        },
      )

  -- The very first page.
  fill_entry-first :
      (base : ℕ) (f : Filling)
      → reserved physbase real (page_base base 0) ≡ false
      → page_base base 0 ≡ place 1
      → (f.map_).next ≡ (λ _. 0)
      → (f.map_).entry_count ≡ entries
      → (f' : Filling) × (fill_entry physbase real true base 0 0 f ≡ some f') × Filled 1 [] f'
  unfolding fill_entry append_free
  fill_entry-first base f r at clear n =
      let m : Pmap = f.map_ in
      (
        record {
          map_ = record m {
            base = update m.base 1 (page_base base 0);
            map_count = update m.map_count 1 0;
            freelist_head = 1;
          };
          prev = 1;
        },
        rw r,
        record {
          live = omega arith;
          chain = (refl, omega arith, ap (λ (g : Links). g 1) clear);
          once = refl;
          within = λ p i. ground arith;
          listed = λ p lo hi. ground arith;
          counted = λ p lo hi. ground arith;
          based = λ p lo hi. ground (arith, at);
          kept = n;
          fresh = λ p hi. ap (λ (g : Links). g p) clear;
        },
      )

  fill_entry-Filled :
      (first : Bool) (base cnt k e : ℕ) (xs : List ℕ) (f : Filling)
      → e ≡ cnt + k
      → page_base base k ≡ place (cnt + k + 1)
      → 0 < e
      → Filled e xs f
      → (f' : Filling) × (ys : List ℕ) × (fill_entry physbase real first base cnt k f ≡ some f')
        × Filled (suc e) ys f'
  fill_entry-Filled first base cnt k e xs f eq at nz h =
      elim (Bool-cases (reserved physbase real (page_base base k))) [
        | inl r ↦
            let (f', g, h') = fill_entry-reserved first base cnt k e xs f eq at r h in
            (f', xs, g, h')
        | inr r ↦
            let (f', g, h') = fill_entry-free first base cnt k e xs f eq at nz r h in
            (f', xs ++ f.prev ∷ [], g, h')
      ]

  fill_block-Filled :
      (rounds : ℕ) (first : Bool) (base cnt k e : ℕ) (xs : List ℕ) (f : Filling)
      → e ≡ cnt + k
      → ((i : ℕ) → k ≤ i → i < k + rounds → page_base base i ≡ place (cnt + i + 1))
      → 0 < e
      → Filled e xs f
      → (f' : Filling) × (ys : List ℕ) × (fill_block physbase real rounds first base cnt k f
          ≡ some f')
        × Filled (e + rounds) ys f'
  unfolding fill_block
  fill_block-Filled zero first base cnt k e xs f eq at nz h =
      (f, xs, refl, (let z : e + zero ≡ e = omega arith in rw z h))
  fill_block-Filled (suc n) first base cnt k e xs f eq at nz h =
      let (f1, ys, g, h1) =
        fill_entry-Filled first base cnt k e xs f eq (at k (omega arith) (omega arith)) nz h in
      let (f2, zs, g2, h2) =
        fill_block-Filled n first base cnt (k + 1) (suc e) ys f1 (omega arith)
          (λ i a b. at i (omega arith) (omega arith)) (omega arith) h1 in
      let z : e + suc n ≡ suc e + n = omega arith in (f2, zs, rw (g, fill_block) g2, rw z h2)

  fill_blocks-Filled :
      (blocks : List Smap) (first : Bool) (cnt : ℕ) (xs : List ℕ) (f : Filling)
      → 0 < cnt
      → Placed place blocks cnt
      → Filled cnt xs f
      → (f' : Filling) × (ys : List ℕ) × (fill_blocks physbase real blocks first cnt f ≡ some f')
        × Filled (cnt + total blocks) ys f'
  unfolding fill_blocks
  fill_blocks-Filled [] first cnt xs f nz w h =
      (f, xs, refl, (let z : cnt + 0 ≡ cnt = omega arith in rw z h))
  fill_blocks-Filled (s ∷ rest) first cnt xs f nz w h =
      let (f1, ys, g, h1) =
        fill_block-Filled (size s) first s.base cnt 0 cnt xs f (omega arith)
          (λ i a b. w.0 i (omega arith)) nz h in
      let (f2, zs, g2, h2) =
        fill_blocks-Filled rest false (cnt + size s) ys f1 (omega arith) w.1 h1 in
      let z : cnt + total (s ∷ rest) ≡ cnt + size s + total rest = omega arith in
      (f2, zs, rw (g, fill_blocks) g2, rw z h2)

  -- The first block, of at least one page.
  fill_block_first :
      (rounds base : ℕ) (f : Filling)
      → 0 < rounds
      → reserved physbase real (page_base base 0) ≡ false
      → ((i : ℕ) → i < rounds → page_base base i ≡ place (0 + i + 1))
      → (f.map_).next ≡ (λ _. 0)
      → (f.map_).entry_count ≡ entries
      → (f' : Filling) × (ys : List ℕ) × (fill_block physbase real rounds true base 0 0 f ≡ some f')
        × Filled rounds ys f'
  unfolding fill_block
  fill_block_first zero base f nz r at clear n = absurd (omega arith)
  fill_block_first (suc k) base f nz r at clear n =
      let (f1, g, h1) = fill_entry-first base f r (at 0 (omega arith)) clear n in
      let (f2, ys, g2, h2) =
        fill_block-Filled k true base 0 1 1 [] f1 (omega arith) (λ i a b. at i (omega arith))
          (omega arith) h1 in
      let z : suc k ≡ 1 + k = omega arith in (f2, ys, rw (g, fill_block) g2, rw z h2)

  -- All blocks.
  pub fill_blocks_first :
      (s : Smap) (rest : List Smap) (f : Filling)
      → 0 < size s
      → reserved physbase real (page_base s.base 0) ≡ false
      → Placed place (s ∷ rest) 0
      → (f.map_).next ≡ (λ _. 0)
      → (f.map_).entry_count ≡ entries
      → (f' : Filling) × (ys : List ℕ) × (fill_blocks physbase real (s ∷ rest) true 0 f ≡ some f')
        × Filled (total (s ∷ rest)) ys f'
  unfolding fill_blocks
  fill_blocks_first s rest f nz r w clear n =
      let (f1, xs, g, h1) = fill_block_first (size s) s.base f nz r w.0 clear n in
      let (f2, ys, g2, h2) =
        fill_blocks-Filled rest false (size s) xs f1 nz
          (let z : 0 + size s ≡ size s = omega arith in subst (Placed place rest) z w.1) h1 in
      let z : 0 + size s ≡ size s = omega arith in (f2, ys, rw (g, fill_blocks, z) g2, h2)
