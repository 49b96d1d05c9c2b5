-- ===== src/Pages/Init.antt =====
-- `pmap_init` of sys/pmap.c: the descriptors and the free list from the memory map, whose entries
-- are given as a list, as the boot loader's module holds them. `none` is a write through the null
-- pointer `prev`.
pub mod Linked
pub mod Ready
use os.Common.{
  ℕ, zero, suc, ◌+◌, ◌-◌, ◌*◌, ◌/◌, ◌%◌, ◌^◌, ◌≡◌, Bool, true, false, not, ◌&&◌, ◌||◌, Option, none,
  some, List, [], ◌∷◌, ◌++◌, ltb, leb, ◌==◌, if◌then◌else◌, length,
}
use os.Common.Links.{Links, update}
use os.Pages.{Pmap, pgsize}

-- `struct smap_t`
pub record Smap : Type 0 where
  pub base : ℕ
  pub length : ℕ
  pub type : ℕ

-- The first loop: available blocks of at least ten pages, eight at most.
unfoldable pub select : ℕ → List Smap → List Smap
select num [] = []
select num (s ∷ rest) =
    let taken : Bool =
      s.type == 1 && not (s.length == 0) && leb (pgsize * 10) s.length && ltb num 8 in
    let others : List Smap = select (if taken then num + 1 else num) rest in
    if taken then s ∷ others else others

-- `size = (smap->length)/PGSIZE-1` in a `uint32_t`.
abbrev pub size : Smap → ℕ
size s = (s.length / pgsize + 2 ^ 64 - 1) % 2 ^ 32

abbrev pub count_pages : List Smap → ℕ
count_pages [] = 0
count_pages (s ∷ rest) = (size s + count_pages rest) % 2 ^ 32

-- `sizeof(struct freelist_entry)`, packed.
abbrev pub entry_size : ℕ
entry_size = 20

-- The end of the descriptors, from a page boundary, and four pages more.
abbrev pub real_physfree : ℕ → ℕ → ℕ
real_physfree physfree entries =
    (physfree + (entries * entry_size / pgsize * pgsize) + pgsize + pgsize * 4) % 2 ^ 64

-- The array being filled, and `prev`.
pub record Filling : Type 0 where
  pub map_ : Pmap
  pub prev : ℕ

-- `list_arr[j].base`: the offset is computed in 32 bits.
abbrev pub page_base : ℕ → ℕ → ℕ
page_base base k = (base + k * pgsize % 2 ^ 32) % 2 ^ 64

-- The kernel's image and the descriptors: `[physbase, real_physfree)`.
abbrev pub reserved : ℕ → ℕ → ℕ → Bool
reserved physbase real b = leb physbase b && ltb b real

-- `list_arr[j].next` of the descriptor before is set, or the head for the very first one.
pub append_free : Bool → ℕ → Filling → Option Filling
append_free true entry f =
    some (record { map_ = record (f.map_) { freelist_head = entry }; prev = entry })
append_free false entry f =
    if f.prev == 0
    then none
    else some (record {
      map_ = record (f.map_) { next = update (f.map_).next f.prev entry };
      prev = entry;
    })

module _ (physbase real : ℕ) where
  -- The body of the inner loop, for page `k` of a block at `base` whose first index is `cnt`.
  pub fill_entry : Bool → ℕ → ℕ → ℕ → Filling → Option Filling
  fill_entry first base cnt k f =
      let entry : ℕ = cnt + k + 1 in
      let b : ℕ = page_base base k in
      let m : Pmap = record (f.map_) { base = update (f.map_).base entry b } in
      if reserved physbase real b
      then some (record {
        map_ = record m {
          map_count = update m.map_count entry 1;
          next = update m.next entry 0;
          free_pg_count = (m.free_pg_count + 2 ^ 32 - 1) % 2 ^ 32;
        };
        prev = f.prev;
      })
      else append_free (first && cnt + k == 0) entry
          (record { map_ = record m { map_count = update m.map_count entry 0 }; prev = f.prev })

  -- The inner loop, by the rounds left.
  pub fill_block : ℕ → Bool → ℕ → ℕ → ℕ → Filling → Option Filling
  fill_block zero first base cnt k f = some f
  fill_block (suc rounds) first base cnt k f = elim (fill_entry first base cnt k f) [
    | none ↦ none
    | some f' ↦ fill_block rounds first base cnt (k + 1) f'
  ]

  -- The outer loop.
  pub fill_blocks : List Smap → Bool → ℕ → Filling → Option Filling
  fill_blocks [] first cnt f = some f
  fill_blocks (s ∷ rest) first cnt f = elim (fill_block (size s) first s.base cnt 0 f) [
    | none ↦ none
    | some f' ↦ fill_blocks rest false (cnt + size s) f'
  ]

-- `memsetw` has cleared the array; the counts are set before the loops.
abbrev pub cleared : ℕ → Filling
cleared entries = record {
  map_ = record {
    base = λ _. 0;
    map_count = λ _. 0;
    next = λ _. 0;
    freelist_head = 0;
    free_pg_count = entries;
    entry_count = entries;
  };
  prev = 0;
}

-- `prev->next = 0;`
pub end_list : ℕ → Filling → Option (ℕ × Pmap)
end_list real f =
    if f.prev == 0
    then none
    else some (real, record (f.map_) { next = update (f.map_).next f.prev 0 })

-- The loops and the end of the list, over the blocks selected; `entries` is
-- `entry_count`.
pub fill_array : ℕ → ℕ → List Smap → ℕ → Option (ℕ × Pmap)
fill_array physbase physfree blocks entries =
    let real : ℕ = real_physfree physfree entries in
    elim (fill_blocks physbase real blocks true 0 (cleared entries)) [
      | none ↦ none
      | some f ↦ end_list real f
    ]

-- `if(!num)`: the state before stays when no memory is detected.
pub init_blocks : Pmap → ℕ → ℕ → List Smap → Option (ℕ × Pmap)
init_blocks m physbase physfree [] = some (0, m)
init_blocks m physbase physfree (s ∷ rest) =
    fill_array physbase physfree (s ∷ rest) (count_pages (s ∷ rest))

pub pmap_init : Pmap → List Smap → ℕ → ℕ → Option (ℕ × Pmap)
unfolding init_blocks
pmap_init m smaps physbase physfree = init_blocks m physbase physfree (select 0 smaps)
