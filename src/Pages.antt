-- ===== src/Pages.antt =====
-- Physical pages, sys/pmap.c: the array of page descriptors and its free list.
-- A pointer to `list_arr[i]` is `i + 1`, the null pointer 0. The array is three functions of such a
-- pointer, one for each field of `struct freelist_entry`.
pub mod Alloc
pub mod Release
pub mod Init
use os.Common.{
  ℕ, zero, suc, ◌+◌, ◌-◌, ◌*◌, ◌/◌, ◌%◌, ◌^◌, ◌≡◌, Bool, true, false, not, ◌&&◌, ◌||◌, Option, none,
  some, List, [], ◌∷◌, ◌++◌, ltb, leb, ◌==◌, if◌then◌else◌, length,
}
use os.Common.Links.{Links, update}

abbrev pub pgsize : ℕ
pgsize = 4096

-- The globals of pmap.c. `base`, `map_count` and `next` are the fields of the descriptors.
pub record Pmap : Type 0 where
  pub base : ℕ → ℕ
  pub map_count : ℕ → ℕ
  pub next : Links
  pub freelist_head : ℕ
  pub free_pg_count : ℕ
  pub entry_count : ℕ

-- `(void*)-1`
abbrev pub failed : ℕ
failed = 2 ^ 64 - 1

unfoldable pub get_free_page : Pmap → ℕ × Pmap
get_free_page m =
    let entry : ℕ = m.freelist_head in
    if entry == 0 then (failed, m) else if not (m.map_count entry == 0) then (failed, m) else (
      m.base entry,
      record m {
        map_count = update m.map_count entry 1;
        freelist_head = m.next entry;
        next = update m.next entry 0;
      },
    )

-- The loop of `walk_list` from index `i`, by the rounds left.
pub walk_from : (ℕ → ℕ) → ℕ → ℕ → ℕ → ℕ
walk_from base ptr zero i = 0
walk_from base ptr (suc rounds) i =
    let rest : ℕ = walk_from base ptr rounds (i + 1) in if base (i + 1) == ptr then i + 1 else rest

pub walk_list : Pmap → ℕ → ℕ
walk_list m ptr = walk_from m.base ptr m.entry_count 0

pub release_page : Pmap → ℕ → Pmap
release_page m ptr =
    let entry : ℕ = walk_list m ptr in
    if entry == 0
    then m
    else if m.map_count entry == 0
    then m
    else (let m' : Pmap = record m {
      map_count = update m.map_count entry (m.map_count entry - 1);
    } in
        if m'.map_count entry == 0
        then record m' { next = update m.next entry m.freelist_head; freelist_head = entry }
        else m')

-- `map_count` is a `uint32_t`.
pub inc_map_count : Pmap → ℕ → Pmap
inc_map_count m ptr =
    let entry : ℕ = walk_list m ptr in
    if entry == 0
    then m
    else if m.map_count entry == 0
    then m
    else record m { map_count = update m.map_count entry ((m.map_count entry + 1) % 2 ^ 32) }
