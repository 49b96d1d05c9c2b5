-- ===== src/Faults.antt =====
-- Page faults: `handle_pg_fault` of sys/isr.c, over the tables of os.Paging and the regions of a
-- process. The contents of a page are its words, `entry`. The window through which the code copies a
-- page is left out, as in os.Paging.
pub mod Private
pub mod Search
use Prim.Native.Nat.{bit_or}
use os.Common.{
  ℕ, zero, suc, ◌+◌, ◌-◌, ◌*◌, ◌/◌, ◌%◌, ◌^◌, Bool, true, false, not, ◌&&◌, Option, none, some, ltb,
  leb, ◌==◌, if◌then◌else◌,
}
use os.Common.Links.{update}
use os.Pages.{get_free_page, release_page}
use os.Elf.{Space}
use os.Paging.{Paging, frame_of, pt_index, set_entry, zero_page, table_for, kmmap}

-- KERNBASE
abbrev pub kernbase : ℕ
kernbase = 18446744071564165120

-- IS_COW and IS_RW
abbrev pub is_cow : ℕ → Bool
is_cow e = e / 512 % 2 == 1

abbrev pub is_rw : ℕ → Bool
is_rw e = e / 2 % 2 == 1

-- `memmove` of a page.
abbrev pub copy_page : ℕ → ℕ → Paging → Paging
copy_page src dst p = record p { entry = update p.entry dst (p.entry src) }

-- A page of its own, with the contents of the one that the entry leads to.
unfoldable pub make_private : ℕ → ℕ → Paging → Paging
make_private table i p =
    let paddr : ℕ = p.entry table i in
    let (naddr, pmap) = get_free_page p.pmap in
    let copied : Paging =
      copy_page (frame_of paddr) naddr (zero_page naddr (record p { pmap = pmap })) in
    let mapped : Paging = set_entry table i (bit_or naddr 7) copied in
    record mapped { pmap = release_page mapped.pmap (frame_of paddr) }

-- The loop over the regions: one that the address is in, or 0. `none` is missing fuel.
unfoldable pub find_region : ℕ → Space → ℕ → ℕ → Option ℕ
find_region zero s addr vma = none
find_region (suc fuel) s addr vma =
    let rest : Option ℕ = find_region fuel s addr (s.next vma) in
    if vma == 0
    then some 0
    else if leb (s.vm_start vma) addr && ltb addr (s.vm_end vma)
    then some vma
    else rest

-- The handler waits for ever, `panic` halts the kernel for good, so that the `sys_exit` behind it is
-- not reached, or the process goes on.
pub data Outcome : Type 0 where
  hangs : Outcome
  halts : Outcome
  goes_on : Paging → Outcome

-- The branch of an access to a page that is present.
unfoldable pub on_protection : ℕ → Paging → ℕ → Outcome
on_protection fault_addr p table =
    let paddr : ℕ = p.entry table (pt_index fault_addr) in
    if is_cow paddr && not (is_rw paddr)
    then goes_on (make_private table (pt_index fault_addr) p)
    else halts

-- The branch of a page that is not present, after the loop.
unfoldable pub on_missing : Space → Paging → ℕ → Outcome
on_missing s p vma =
    if vma == 0 then halts else goes_on (kmmap (s.vm_start vma) (s.vm_end vma - s.vm_start vma) 7 p)

-- `none` is a fault of the handler itself, or missing fuel.
unfoldable pub handle_pg_fault : ℕ → ℕ → ℕ → Space → Paging → Option Outcome
handle_pg_fault fuel err fault_addr s p =
    let protection : Option Outcome = elim (table_for p fault_addr) [
      | none ↦ none
      | some table ↦ some (on_protection fault_addr p table)
    ] in
    let missing : Option Outcome = elim (find_region fuel s fault_addr s.vm) [
      | none ↦ none
      | some vma ↦ some (on_missing s p vma)
    ] in
    if leb kernbase fault_addr then some hangs else if err % 2 == 1 then protection else missing
