-- ===== src/Heap.antt =====
-- Allocation in a process: libc/memory.c, over `sys_brk` of os.Regions. The header of a block, the
-- `struct meta` of 24 bytes in front of it, is given by its fields.
pub mod Alloc
pub mod Layout
use os.Common.{
  ℕ, zero, suc, ◌+◌, ◌-◌, ◌*◌, ◌/◌, ◌%◌, ◌^◌, Bool, true, false, not, ◌&&◌, Option, none, some, ltb,
  leb, ◌==◌, if◌then◌else◌,
}
use os.Common.Int.{ℤ, pos, negsuc}
use os.Common.Links.{Links, update}
use os.Regions.{Regions, find_heap, sys_brk}

-- The global `head`, the fields of the headers, and the state that `brk` changes.
pub record Heap : Type 0 where
  pub head : ℕ
  pub size : ℕ → ℕ
  pub next : Links
  pub free : ℕ → Bool
  pub regions : Regions

abbrev pub sizeof_meta : ℕ
sizeof_meta = 24

abbrev pub malign_up : ℕ → ℕ
malign_up x = (x / 64 * 64 + 64) % 2 ^ 64

-- The result of the call as a pointer.
abbrev pub to_pointer : ℤ → ℕ
to_pointer (pos n) = n
to_pointer (negsuc n) = 2 ^ 64 - 1 - n

-- The test of the second call's result, of a pointer below 0, is never true. `none` is missing fuel.
unfoldable pub sbrk : ℕ → ℕ → Regions → Option (ℕ × Regions)
sbrk fuel inc r = elim (sys_brk fuel (2 ^ 64 - 1) r) [
  | none ↦ none
  | some (prev, r1) ↦
      if inc == 0
      then some (to_pointer prev, r1)
      else elim (sys_brk fuel (malign_up ((to_pointer prev + inc) % 2 ^ 64)) r1) [
        | none ↦ none
        | some (ret, r2) ↦ some (to_pointer prev, r2)
      ]
]

-- The fields of a new block.
abbrev pub set_meta : ℕ → ℕ → Heap → Heap
set_meta b size h = record h {
  size = update h.size b size;
  next = update h.next b 0;
  free = update h.free b false;
}

-- Where the loop of `malloc` stops: a block to use again, or the last one.
pub data Stop : Type 0 where
  again : ℕ → Stop
  last : ℕ → Stop

unfoldable pub search : ℕ → ℕ → Heap → ℕ → Option Stop
search zero size h ptr = none
search (suc fuel) size h ptr =
    let rest : Option Stop = search fuel size h (h.next ptr) in
    if h.free ptr && leb size (h.size ptr)
    then some (again ptr)
    else if h.next ptr == 0
    then some (last ptr)
    else rest

-- Does the heap's region hold the 24 bytes of a header at `p`?
unfoldable pub is_mapped : ℕ → ℕ → Regions → Bool
is_mapped fuel p r = elim (find_heap fuel r r.vm) [
  | none ↦ false
  | some vma ↦ not (vma == 0) && leb (p + sizeof_meta) (r.vm_end vma)
]

-- A block from `sbrk`; `none` is missing fuel, or the fault of writing a header where no memory is,
-- since a break that `brk` has refused is not noticed. `link` is the last block, where there is one.
unfoldable pub new_block : ℕ → ℕ → (ℕ → Heap → Heap) → Heap → Option (ℕ × Heap)
new_block fuel size link h = elim (sbrk fuel ((size + sizeof_meta) % 2 ^ 64) h.regions) [
  | none ↦ none
  | some (p, r) ↦
      if p == 2 ^ 64 - 1
      then some (0, record h { regions = r })
      else if not (is_mapped fuel p r)
      then none
      else some (p + sizeof_meta, link p (set_meta p size (record h { regions = r })))
]

abbrev pub as_head : ℕ → Heap → Heap
as_head p h = record h { head = p }

abbrev pub behind : ℕ → ℕ → Heap → Heap
behind ptr p h = record h { next = update h.next ptr p }

unfoldable pub malloc : ℕ → ℕ → Heap → Option (ℕ × Heap)
malloc fuel size h =
    let first : Option (ℕ × Heap) = new_block fuel size as_head h in
    let more : Option (ℕ × Heap) = elim (search fuel size h h.head) [
      | none ↦ none
      | some (again ptr) ↦ some (ptr + sizeof_meta, record h { free = update h.free ptr false })
      | some (last ptr) ↦ new_block fuel size (behind ptr) h
    ] in
    if h.head == 0 then first else more

-- `none` is the exit of the process, for a block that is free.
unfoldable pub free : ℕ → Heap → Option Heap
free ptr h =
    if ptr == 0
    then some h
    else if h.free (ptr - sizeof_meta)
    then none
    else some (record h { free = update h.free (ptr - sizeof_meta) true })
