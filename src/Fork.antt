-- ===== src/Fork.antt =====
-- The memory of a child: `fork_process` of sys/schedule.c, over the regions of os.Elf and the tables of
-- os.Paging. Loading cr3 is setting `root`; the window through which a page of the stack is copied is
-- left out, as in os.Paging.
pub mod Behind
pub mod Copy
pub mod Share
use Prim.Native.Nat.{bit_or}
use os.Common.{
  ℕ, zero, suc, ◌+◌, ◌-◌, ◌*◌, ◌/◌, ◌%◌, ◌^◌, Bool, true, false, Option, none, some, List, [], ◌∷◌,
  ltb, leb, ◌==◌, if◌then◌else◌,
}
use os.Common.Links.{update}
use os.Pages.{get_free_page, inc_map_count}
use os.Elf.{Space, stack}
use os.Paging.{
  Paging, is_present, frame_of, pt_index, set_entry, zero_page, table_for, map_page, alloc_pml4,
}
use os.Faults.{is_rw, copy_page}

-- `memmove` of a whole region, its link too.
abbrev pub copy_region : ℕ → ℕ → List ℕ → Space → Space
copy_region src dst free s = record s {
  free = free;
  next = update s.next dst (s.next src);
  vm_start = update s.vm_start dst (s.vm_start src);
  vm_end = update s.vm_end dst (s.vm_end src);
  type = update s.type dst (s.type src);
  flag = update s.flag dst (s.flag src);
}

-- The loop over the parent's regions: the child's first region, and the state. `none` is the panic of
-- an empty pool, or missing fuel.
unfoldable pub copy_regions : ℕ → ℕ → ℕ → ℕ → Space → Option (ℕ × Space)
copy_regions zero parent_cursor child_cursor vm s = none
copy_regions (suc fuel) parent_cursor child_cursor vm s =
    let rest : Option (ℕ × Space) = elim s.free [
      | [] ↦ none
      | new_vma ∷ free ↦
          let copied : Space = copy_region parent_cursor new_vma free s in
          let linked : Space =
            if child_cursor == 0
            then copied
            else record copied { next = update copied.next child_cursor new_vma } in
          copy_regions fuel (linked.next parent_cursor) new_vma
            (if child_cursor == 0 then new_vma else vm) linked
    ] in
    if parent_cursor == 0 then some (vm, s) else rest

abbrev pub on_table : ℕ → ℕ → (Paging → Paging) → Paging → Paging
on_table child root change p = record (change (record p { root = child })) { root = root }

-- `paddr &= ~PAGE_RW; paddr |= PAGE_COW`, where the entry is writable.
unfoldable pub shared_entry : ℕ → ℕ
shared_entry e = if is_rw e then bit_or (e - 2) 512 else e

-- A page that is present, in both address spaces.
unfoldable pub share_page : ℕ → ℕ → ℕ → Paging → Paging
share_page child table vaddr p =
    let paddr : ℕ = shared_entry (p.entry table (pt_index vaddr)) in
    let mapped : Paging =
      on_table child p.root (map_page paddr vaddr (paddr % 4096))
        (set_entry table (pt_index vaddr) paddr p) in
    record mapped { pmap = inc_map_count mapped.pmap (paddr / 4096 * 4096) }

-- The pages of a region from an address on. `none` is a fault of the handler, or missing fuel.
unfoldable pub share_pages : ℕ → ℕ → ℕ → ℕ → Paging → Option Paging
share_pages zero child vaddr vm_end p = none
share_pages (suc fuel) child vaddr vm_end p =
    let rest : Option Paging = elim (table_for p vaddr) [
      | none ↦ none
      | some table ↦ share_pages fuel child (vaddr + 4096) vm_end (
          if is_present (p.entry table (pt_index vaddr)) then share_page child table vaddr p else p)
    ] in
    if ltb vaddr vm_end then rest else some p

-- A page of the stack, with its contents, for the child.
unfoldable pub copy_stack_page : ℕ → ℕ → ℕ → Paging → Paging
copy_stack_page child table vaddr p =
    let (paddr, pmap) = get_free_page p.pmap in
    let copied : Paging =
      copy_page (frame_of (p.entry table (pt_index vaddr))) paddr
        (zero_page paddr (record p { pmap = pmap })) in
    on_table child p.root (map_page paddr vaddr 7) copied

-- The pages of the stack from its top down, to the first that is not present.
unfoldable pub copy_stack : ℕ → ℕ → ℕ → ℕ → Paging → Option Paging
copy_stack zero child vaddr vm_start p = none
copy_stack (suc fuel) child vaddr vm_start p =
    let rest : Option Paging = elim (table_for p vaddr) [
      | none ↦ none
      | some table ↦
          let further : Option Paging =
            copy_stack fuel child ((vaddr + 2 ^ 64 - 4096) % 2 ^ 64) vm_start
              (copy_stack_page child table vaddr p) in
          if is_present (p.entry table (pt_index vaddr)) then further else some p
    ] in
    if leb vm_start vaddr then rest else some p

unfoldable pub fork_region : ℕ → ℕ → Space → ℕ → Paging → Option Paging
fork_region fuel child s vma p =
    if s.type vma == stack
    then copy_stack fuel child ((s.vm_end vma / 4096 * 4096 + 2 ^ 64 - 4096) % 2 ^ 64)
        (s.vm_start vma) p
    else share_pages fuel child (s.vm_start vma / 4096 * 4096) (s.vm_end vma) p

-- The loop over the child's regions.
unfoldable pub fork_regions : ℕ → ℕ → Space → ℕ → Paging → Option Paging
fork_regions zero child s vma p = none
fork_regions (suc fuel) child s vma p =
    let rest : Option Paging = elim (fork_region fuel child s vma p) [
      | none ↦ none
      | some p1 ↦ fork_regions fuel child s (s.next vma) p1
    ] in
    if vma == 0 then some p else rest

-- The child's first region and its top table.
unfoldable pub fork_memory : ℕ → Space → Paging → Option (ℕ × ℕ × Space × Paging)
fork_memory fuel s p = elim (copy_regions fuel s.vm 0 0 s) [
  | none ↦ none
  | some (vm, s1) ↦
      let (child, p1) = alloc_pml4 p in
      elim (fork_regions fuel child s1 vm p1) [ none ↦ none | some p2 ↦ some (vm, child, s1, p2) ]
]
