-- ===== src/Regions.antt =====
-- The end of the heap, `sys_brk` of sys/syscall_handler.c, over the list of regions of a process.
-- A region is its address, 0 the null pointer.
pub mod Break
use os.Common.{
  ℕ, zero, suc, ◌+◌, ◌-◌, ◌*◌, ◌/◌, ◌%◌, ◌^◌, Bool, true, false, Option, none, some, ltb, leb, ◌==◌,
  if◌then◌else◌,
}
use os.Common.Int.{ℤ, pos, negsuc, minus_one}
use os.Common.Links.{Links, update}

-- `mm->vm` and `mm->brk`, and the fields of the regions.
pub record Regions : Type 0 where
  pub vm : ℕ
  pub brk : ℕ
  pub next : Links
  pub type : ℕ → ℕ
  pub vm_end : ℕ → ℕ

-- HEAP of `enum vma_type`.
abbrev pub heap : ℕ
heap = 3

-- USER_STACK_TOP - USER_STACK_SIZE
abbrev pub stack_bottom : ℕ
stack_bottom = 1030792085504

-- An `int64_t`.
abbrev pub to_int64 : ℕ → ℤ
to_int64 a = if ltb a (2 ^ 63) then pos a else negsuc (2 ^ 64 - 1 - a)

abbrev pub align_up : ℕ → ℕ
align_up x = ((x + 2 ^ 64 - 1) % 2 ^ 64 / 4096 * 4096 + 4096) % 2 ^ 64

-- The loop of `sys_brk`, up to the first region of the heap, or 0.
pub find_heap : ℕ → Regions → ℕ → Option ℕ
find_heap zero r vma = none
find_heap (suc fuel) r vma =
    let rest : Option ℕ = find_heap fuel r (r.next vma) in
    if vma == 0 then some 0 else if r.type vma == heap then some vma else rest

-- The body of the loop at that region.
pub grow : ℕ → ℕ → Regions → ℤ × Regions
grow nbrk vma r =
    if vma == 0
    then (pos 0, r)
    else if ltb (r.vm_end vma) nbrk
    then (if leb stack_bottom nbrk
        then (minus_one, r)
        else (pos 0, record r { vm_end = update r.vm_end vma (align_up nbrk) }))
    else (pos 0, r)

-- `none` is missing fuel.
pub sys_brk : ℕ → ℕ → Regions → Option (ℤ × Regions)
sys_brk fuel nbrk r =
    let moved : Regions = record r { brk = nbrk } in
    if nbrk == 2 ^ 64 - 1
    then some (to_int64 r.brk, r)
    else if ltb r.brk nbrk
    then (if r.vm == 0 then some (minus_one, moved) else elim (find_heap fuel moved r.vm) [
      | none ↦ none
      | some vma ↦ some (grow nbrk vma moved)
    ])
    else some (minus_one, r)
