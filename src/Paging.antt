-- ===== src/Paging.antt =====
-- Page tables: sys/pging.c, sys/kmalloc.c and sys/mm.c. A table is the address of its frame; `entry`
-- gives the entries of the tables. The code reaches the entries through the slot 510 of the top table,
-- which leads back to that table; Paging/Slot is about those addresses. The window at
-- `kern_temp_addr`, which is mapped and unmapped again within a call, is left out.

pub mod Slot
pub mod Descent
pub mod Mapping
pub mod Init
pub mod Kernel
pub mod Steps
pub mod Boot
use Prim.Native.Nat.{bit_or}
use os.Common.{
  ℕ, zero, suc, ◌+◌, ◌-◌, ◌*◌, ◌/◌, ◌%◌, ◌^◌, Bool, true, false, not, ◌&&◌, Option, none, some,
  List, [], ◌∷◌, ltb, ◌==◌, if◌then◌else◌,
}
use os.Common.Int.{int_bits}
use os.Common.Links.{update}
use os.Pages.{Pmap, get_free_page, release_page}

-- The allocator, the entries, the table in cr3, that of the kernel, and `kern_free_addr`.
pub record Paging : Type 0 where
  pub pmap : Pmap
  pub entry : ℕ → ℕ → ℕ
  pub root : ℕ
  pub init_root : ℕ
  pub kern_free_addr : ℕ

-- IS_PRESENT
abbrev pub is_present : ℕ → Bool
is_present e = e % 2 == 1

-- The frame that an entry leads to: the bits of PA_MASK.
abbrev pub frame_of : ℕ → ℕ
frame_of e = e / 4096 % 2 ^ 36 * 4096

-- The indices of an address in the four levels, the top one first, and in the page.
abbrev pub pml4_index : ℕ → ℕ
pml4_index v = v / 2 ^ 39 % 512

abbrev pub pdpt_index : ℕ → ℕ
pdpt_index v = v / 2 ^ 30 % 512

abbrev pub pdt_index : ℕ → ℕ
pdt_index v = v / 2 ^ 21 % 512

abbrev pub pt_index : ℕ → ℕ
pt_index v = v / 2 ^ 12 % 512

-- `vaddr << 16 >> n << 3`, in 64 bits, and the bits of the reference.
abbrev pub slot_address : ℕ → ℕ → ℕ → ℕ
slot_address n reference vaddr = vaddr * 2 ^ 16 % 2 ^ 64 / 2 ^ n * 2 ^ 3 + reference

unfoldable pub get_phys : ℕ → ℕ
get_phys = slot_address 28 18446742974197923840

unfoldable pub get_pdt : ℕ → ℕ
get_pdt = slot_address 37 18446743521806254080

unfoldable pub get_pdpt : ℕ → ℕ
get_pdpt = slot_address 46 18446743522875801600

unfoldable pub get_pmlt : ℕ → ℕ
get_pmlt = slot_address 55 18446743522877890560

abbrev pub set_entry : ℕ → ℕ → ℕ → Paging → Paging
set_entry table i e p = record p { entry = update p.entry table (update (p.entry table) i e) }

-- The words of the page are 0.
unfoldable pub zero_page : ℕ → Paging → Paging
zero_page paddr p = record p { entry = update p.entry paddr (λ i. 0) }

-- The flags for the tables.
unfoldable pub high_flags : ℕ → ℕ
high_flags flags = if flags / 512 % 2 == 1 then bit_or (flags - 512) 2 else flags

-- One of the three conditionals that make a table where there is none.
unfoldable pub make_table : ℕ → ℕ → ℕ → Paging → Paging
make_table flags table i p =
    let (addr, pmap) = get_free_page p.pmap in
    if is_present (p.entry table i)
    then p
    else set_entry table i (bit_or addr flags) (zero_page addr (record p { pmap = pmap }))

-- Down the levels with these indices: the table reached, and the state.
unfoldable pub descend : ℕ → List ℕ → ℕ → Paging → ℕ × Paging
descend flags [] table p = (table, p)
descend flags (i ∷ is) table p =
    let p1 : Paging = make_table flags table i p in
    descend flags is (frame_of (p1.entry table i)) p1

abbrev pub upper_indices : ℕ → List ℕ
upper_indices v = pml4_index v ∷ pdpt_index v ∷ pdt_index v ∷ []

-- The last conditional of `map_page`, at the entry of the page.
unfoldable pub put_page : ℕ → ℕ → ℕ → ℕ × Paging → Paging
put_page paddr i flags (table, p) =
    if is_present (p.entry table i)
    then record p { pmap = release_page p.pmap paddr }
    else set_entry table i (bit_or paddr flags) p

unfoldable pub map_page : ℕ → ℕ → ℕ → Paging → Paging
map_page paddr vaddr flags p =
    put_page paddr (pt_index vaddr) flags
      (descend (high_flags flags) (upper_indices vaddr) p.root p)

-- Translation by the tables: the table of the last level, and the address.
unfoldable pub walk : (ℕ → ℕ → ℕ) → List ℕ → ℕ → Option ℕ
walk entry [] table = some table
walk entry (i ∷ is) table =
    let rest : Option ℕ = walk entry is (frame_of (entry table i)) in
    if is_present (entry table i) then rest else none

unfoldable pub page_at : (ℕ → ℕ → ℕ) → ℕ → Option ℕ → Option ℕ
page_at entry v none = none
page_at entry v (some table) =
    if is_present (entry table (pt_index v))
    then some (frame_of (entry table (pt_index v)) + v % 4096)
    else none

unfoldable pub translate : (ℕ → ℕ → ℕ) → ℕ → ℕ → Option ℕ
translate entry root v = page_at entry v (walk entry (upper_indices v) root)

-- `kmalloc`: the address, and the state. The message for a failure is never shown, since the test
-- is of an address below 0.
unfoldable pub kmalloc : Paging → ℕ × Paging
kmalloc p =
    let (paddr, pmap) = get_free_page p.pmap in
    let q : Paging = map_page paddr p.kern_free_addr 3 (record p { pmap = pmap }) in
    let cleared : Paging = elim (walk q.entry (upper_indices p.kern_free_addr) q.root) [
      | none ↦ q
      | some table ↦ zero_page (frame_of (q.entry table (pt_index p.kern_free_addr))) q
    ] in
    (p.kern_free_addr, record cleared { kern_free_addr = (p.kern_free_addr + 4096) % 2 ^ 64 })

-- The table of the last level for an address; none where the access faults.
unfoldable pub table_for : Paging → ℕ → Option ℕ
table_for p v = walk p.entry (upper_indices v) p.root

unfoldable pub kfree : ℕ → Paging → Option Paging
kfree vaddr p = if vaddr == 0 then some p else elim (table_for p vaddr) [
  | none ↦ none
  | some table ↦ some (
      set_entry table (pt_index vaddr) 0
        (record p { pmap = release_page p.pmap (frame_of (p.entry table (pt_index vaddr))) }))
]

-- The loop of `kmmap`, by the pages left.
unfoldable pub kmmap_pages : ℕ → ℕ → ℕ → Paging → Paging
kmmap_pages zero vaddr flags p = p
kmmap_pages (suc n) vaddr flags p =
    let (paddr, pmap) = get_free_page p.pmap in
    kmmap_pages n ((vaddr + 4096) % 2 ^ 64) flags
      (map_page paddr vaddr flags (zero_page paddr (record p { pmap = pmap })))

-- The loop counts up to `num_pages` as an `int`: a negative number is no turn.
unfoldable pub num_pages : ℕ → ℕ → ℕ
num_pages s_addr size =
    let n : ℕ =
      ((s_addr + int_bits size + 2 ^ 64 - 1) % 2 ^ 64 / 2 ^ 12 + 2 ^ 64 - s_addr / 2 ^ 12 + 1)
      % 2 ^ 32 in
    if ltb n (2 ^ 31) then n else 0

-- `size` is an `int`: its low 32 bits count.
unfoldable pub kmmap : ℕ → ℕ → ℕ → Paging → Paging
kmmap s_addr size flags p = kmmap_pages (num_pages s_addr size) (s_addr / 4096 * 4096) flags p

-- `alloc_pml4`: a table that shares the kernel's part and leads back to itself. `kern_free_addr` is a
-- pointer to words there, and moves on by as many words as a page has bytes.
unfoldable pub alloc_pml4 : Paging → ℕ × Paging
alloc_pml4 p =
    let (pml4, pmap) = get_free_page p.pmap in
    let q : Paging =
      map_page pml4 p.kern_free_addr 7 (record (zero_page pml4 (record p { pmap = pmap })) {
        kern_free_addr = (p.kern_free_addr + 8 * 4096) % 2 ^ 64;
      }) in
    let shared : Paging = set_entry pml4 511 (q.entry q.init_root 511) q in
    (pml4, set_entry pml4 510 (bit_or pml4 3) shared)
