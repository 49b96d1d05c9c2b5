-- ===== src/Paging/Kernel.antt =====
-- The kernel's first address space: what `init_pging` maps.
use Prim.Native.Nat.{bit_or}
use os.Common.{
  ℕ, zero, suc, ◌+◌, ◌*◌, ◌/◌, ◌%◌, ◌^◌, ◌≤◌, ◌<◌, ◌≡◌, ◌≢◌, ◌⊎◌, inl, inr, Bool-cases, refl, ◌∙◌,
  true, false, ◌==◌, leb, ◌&&◌, ==_self, ==_of_ne, arith,
}
use os.Common.Bits.{bit_or_page}
use os.Paging.{Paging, is_present, frame_of, set_entry}
use os.Paging.Init.{
  top_table, second_table, third_table, last_table, kern_size, map_kernel, link_tables, init_tables,
}

module _ (pt : ℕ) where
  -- What the loop leaves alone: the other tables, and the entries below its index.
  map_kernel_kept :
      (left i kern : ℕ) (p : Paging) (t j : ℕ)
      → i + left ≤ 512
      → (t == pt && leb i j) ≡ false
      → (map_kernel left pt i kern p).entry t j ≡ p.entry t j
  unfolding map_kernel
  map_kernel_kept zero i kern p t j h out = refl
  map_kernel_kept (suc left) i kern p t j h out =
      let e : pt + i / 512 * 4096 ≡ pt = omega arith in
      let r : i % 512 ≡ i = omega arith in
      map_kernel_kept left (i + 1) (kern + 4096) _ t j (omega arith) (ground arith)
      ∙ (rw (e, r) (ground arith))

  -- The entries that it writes.
  map_kernel_entry :
      (left i kern : ℕ) (p : Paging) (k : ℕ)
      → i + left ≤ 512
      → k < left
      → (map_kernel left pt i kern p).entry pt (i + k) ≡ bit_or (kern + k * 4096) 3
  unfolding map_kernel
  map_kernel_entry zero i kern p k h lt = absurd (omega arith)
  map_kernel_entry (suc left) i kern p zero h lt =
      let e : pt + i / 512 * 4096 ≡ pt = omega arith in
      let r : i % 512 ≡ i = omega arith in
      let z : i + 0 ≡ i = omega arith in
      let y : kern + 0 * 4096 ≡ kern = omega arith in
      rw (z, y)
        (map_kernel_kept left (i + 1) (kern + 4096) _ pt i (omega arith) (ground arith)
          ∙ (rw (e, r, ==_self pt, ==_self i) refl))
  map_kernel_entry (suc left) i kern p (suc k) h lt =
      let s : i + suc k ≡ i + 1 + k = omega arith in
      let y : kern + suc k * 4096 ≡ kern + 4096 + k * 4096 = omega arith in
      rw (s, y) (map_kernel_entry left (i + 1) (kern + 4096) _ k (omega arith) (omega arith))

-- Nor does it use the allocator.
map_kernel_pmap : (left pt i kern : ℕ) (p : Paging) → (map_kernel left pt i kern p).pmap ≡ p.pmap
unfolding map_kernel
map_kernel_pmap zero pt i kern p = refl
map_kernel_pmap (suc left) pt i kern p = map_kernel_pmap left pt (i + 1) (kern + 4096) _

map_kernel_root : (left pt i kern : ℕ) (p : Paging) → (map_kernel left pt i kern p).root ≡ p.root
unfolding map_kernel
map_kernel_root zero pt i kern p = refl
map_kernel_root (suc left) pt i kern p = map_kernel_root left pt (i + 1) (kern + 4096) _

-- An entry that holds a page's address and the flags of present and writable pages.
pub entry_parts :
    (x : ℕ)
    → x % 4096 ≡ 0
    → x < 2 ^ 48
    → (is_present (bit_or x 3) ≡ true) × (frame_of (bit_or x 3) ≡ x)
entry_parts x aligned low = rw (bit_or_page x 3 aligned (omega arith)) (ground arith, omega arith)

pub set_entry_same : (t i e : ℕ) (p : Paging) → (set_entry t i e p).entry t i ≡ e
set_entry_same t i e p = rw (==_self t, ==_self i) refl

pub set_entry_other :
    (t i e : ℕ) (p : Paging) (u j : ℕ)
    → (u ≢ t) ⊎ (j ≢ i)
    → (set_entry t i e p).entry u j ≡ p.entry u j
set_entry_other t i e p u j (inl ne) = rw (==_of_ne u t ne) refl
set_entry_other t i e p u j (inr ne) = elim (Bool-cases (u == t)) [
  | inl same ↦ (let eq : u ≡ t = ground arith in rw (eq, ==_self t, ==_of_ne j i ne) refl)
  | inr other ↦ rw other refl
]

-- The entries that link four tables, each apart from the others.
module _ (a b c x y z w : ℕ) (p : Paging) (ab : a ≢ b) (ac : a ≢ c) (bc : b ≢ c) where
  abbrev chain : Paging
  chain = set_entry c 1 z (set_entry b 510 y (set_entry a 511 x (set_entry a 510 w p)))

  chain_entries :
      (chain.entry a 510 ≡ w)
      × (chain.entry a 511 ≡ x)
      × (chain.entry b 510 ≡ y)
      × (chain.entry c 1 ≡ z)
  chain_entries =
      let p1 = set_entry a 510 w p in
      let p2 = set_entry a 511 x p1 in
      let p3 = set_entry b 510 y p2 in
      (
        set_entry_other c 1 z p3 a 510 (inl ac)
            ∙ set_entry_other b 510 y p2 a 510 (inl ab)
            ∙ set_entry_other a 511 x p1 a 510 (inr (omega arith))
            ∙ set_entry_same a 510 w p,
        set_entry_other c 1 z p3 a 511 (inl ac)
            ∙ set_entry_other b 510 y p2 a 511 (inl ab)
            ∙ set_entry_same a 511 x p1,
        set_entry_other c 1 z p3 b 510 (inl bc) ∙ set_entry_same b 510 y p2,
        set_entry_same c 1 z p3,
      )

module _ (physfree : ℕ) (p : Paging) (aligned : physfree % 4096 ≡ 0)
    (behind : 0x200000 + 4 * 4096 ≤ physfree) (fits : physfree ≤ 0x400000) where
  abbrev pub tables : Paging
  tables = init_tables physfree p

  abbrev before_loop : Paging
  before_loop = record (link_tables physfree p) {
    root = top_table physfree;
    init_root = top_table physfree;
  }

  -- The entries that link the tables, and those of the kernel.
  pub linked :
      (tables.entry (top_table physfree) 510 ≡ bit_or (top_table physfree) 3)
      × (tables.entry (top_table physfree) 511 ≡ bit_or (second_table physfree) 3)
      × (tables.entry (second_table physfree) 510 ≡ bit_or (third_table physfree) 3)
      × (tables.entry (third_table physfree) 1 ≡ bit_or (last_table physfree) 3)
  unfolding init_tables link_tables
  linked =
      let links =
        chain_entries (top_table physfree) (second_table physfree) (third_table physfree)
          (bit_or (second_table physfree) 3) (bit_or (third_table physfree) 3)
          (bit_or (last_table physfree) 3) (bit_or (top_table physfree) 3) p (omega arith)
          (omega arith) (omega arith) in
      (
        kept (top_table physfree) 510 (omega arith) ∙ links.0,
        kept (top_table physfree) 511 (omega arith) ∙ links.1,
        kept (second_table physfree) 510 (omega arith) ∙ links.2,
        kept (third_table physfree) 1 (omega arith) ∙ links.3,
      )
    where
      kept :
          (t j : ℕ)
          → t < last_table physfree
          → tables.entry t j ≡ (link_tables physfree p).entry t j
      kept t j h =
          map_kernel_kept (last_table physfree) (kern_size physfree) 0 0x200000 before_loop t j
            (omega arith) (ground arith)

  pub kernel_entry :
      (k : ℕ)
      → k < kern_size physfree
      → tables.entry (last_table physfree) k ≡ bit_or (0x200000 + k * 4096) 3
  unfolding init_tables
  kernel_entry k h =
      let z : 0 + k ≡ k = omega arith in
      rw z at (
        map_kernel_entry (last_table physfree) (kern_size physfree) 0 0x200000 before_loop k
          (omega arith) h)

  -- What stays: the first entry of the third table, the allocator; and the top table is in cr3.
  pub video_entry : tables.entry (third_table physfree) 0 ≡ p.entry (third_table physfree) 0
  unfolding init_tables link_tables
  video_entry =
      let a = top_table physfree in
      let b = second_table physfree in
      let c = third_table physfree in
      let p1 = set_entry a 510 (bit_or a 3) p in
      let p2 = set_entry a 511 (bit_or b 3) p1 in
      let p3 = set_entry b 510 (bit_or c 3) p2 in
      map_kernel_kept (last_table physfree) (kern_size physfree) 0 0x200000 before_loop c 0
        (omega arith) (ground arith)
      ∙ set_entry_other c 1 (bit_or (last_table physfree) 3) p3 c 0 (inr (omega arith))
      ∙ set_entry_other b 510 (bit_or c 3) p2 c 0 (inl (omega arith))
      ∙ set_entry_other a 511 (bit_or b 3) p1 c 0 (inl (omega arith))
      ∙ set_entry_other a 510 (bit_or a 3) p c 0 (inl (omega arith))

  pub tables_pmap : tables.pmap ≡ p.pmap
  unfolding init_tables link_tables
  tables_pmap = map_kernel_pmap (kern_size physfree) (last_table physfree) 0 0x200000 before_loop

  pub tables_root : tables.root ≡ top_table physfree
  unfolding init_tables
  tables_root = map_kernel_root (kern_size physfree) (last_table physfree) 0 0x200000 before_loop
