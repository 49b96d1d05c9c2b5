-- ===== src/Elf.antt =====
-- Programs: sys/elf64.c. The memory holds the image, in the kernel's part, and the address space of
-- the new task, so that the switches of cr3 do not show. Mapping its pages is left to os.Paging.
pub mod Segments
pub mod Appending
pub mod Growth
pub mod Regions
pub mod Words
pub mod Stack
use os.Common.{
  ℕ, zero, suc, ◌+◌, ◌-◌, ◌*◌, ◌/◌, ◌%◌, ◌^◌, Bool, true, false, ◌&&◌, ◌||◌, Option, none, some,
  List, [], ◌∷◌, ltb, leb, ◌==◌, if◌then◌else◌, length,
}
use os.Common.Int.{ℤ, pos, negsuc, minus_one, int_bits}
use os.Common.Links.{Links, update, last_node}
use os.Strings.{Memory, memmove, memcmp}

-- The fields of `Elf64_Ehdr` that the loader reads.
pub record Ehdr : Type 0 where
  pub address : ℕ
  pub e_type : ℕ
  pub e_entry : ℕ

-- `magic` is the address of the four bytes of the magic number.
unfoldable pub validate_ehdr : Memory → ℕ → Ehdr → ℤ
validate_ehdr m magic ehdr =
    if ehdr.address == 0 then minus_one else elim (memcmp m ehdr.address magic 4) [
      | pos zero ↦ (if ehdr.e_type == 2 then pos 0 else minus_one)
      | pos (suc n) ↦ minus_one
      | negsuc n ↦ minus_one
    ]

-- `Elf64_Phdr`
pub record Phdr : Type 0 where
  pub p_type : ℕ
  pub p_flags : ℕ
  pub p_offset : ℕ
  pub p_vaddr : ℕ
  pub p_filesz : ℕ
  pub p_memsz : ℕ

-- The regions: `enum vma_type`, `enum vma_perm`, and the fields.
abbrev pub stack : ℕ
stack = 2

abbrev pub heap : ℕ
heap = 3

abbrev pub perm_x : ℕ
perm_x = 0

abbrev pub perm_rw : ℕ
perm_rw = 1

abbrev pub user_stack_top : ℕ
user_stack_top = 1030792151040

abbrev pub user_stack_size : ℕ
user_stack_size = 65536

-- The regions, the fields of the `mm_struct`, `top_vaddr`, and the regions that the pool hands out.
pub record Space : Type 0 where
  pub free : List ℕ
  pub next : Links
  pub vm_start : ℕ → ℕ
  pub vm_end : ℕ → ℕ
  pub type : ℕ → ℕ
  pub flag : ℕ → ℕ
  pub vm : ℕ
  pub vma_count : ℕ
  pub total_vm : ℕ
  pub top_vaddr : ℕ
  pub start_brk : ℕ
  pub brk : ℕ
  pub start_stack : ℕ

-- `none` is the panic of a pool that is empty.
unfoldable pub set_vma : ℕ → ℕ → ℕ → ℕ → Space → Option (ℕ × Space)
set_vma s_addr e_addr type flag s = elim s.free [
  | [] ↦ none
  | a ∷ free ↦ some (
    a,
    record s {
      free = free;
      next = update s.next a 0;
      vm_start = update s.vm_start a s_addr;
      vm_end = update s.vm_end a e_addr;
      type = update s.type a type;
      flag = update s.flag a flag;
    },
  )
]

unfoldable pub traverse_vmas : ℕ → Links → ℕ → Option ℕ
traverse_vmas = last_node

-- The new region behind the last one.
unfoldable pub append_vma : ℕ → ℕ → Space → Option Space
append_vma fuel a s = elim (traverse_vmas fuel s.next s.vm) [
  | none ↦ none
  | some end_vma ↦ some (record s { next = update s.next end_vma a; vma_count = s.vma_count + 1 })
]

-- `e_vaddr`: `size` is an `int`.
unfoldable pub segment_end : Phdr → ℕ
segment_end ph = (ph.p_vaddr + int_bits ph.p_memsz) % 2 ^ 64

-- The region of a segment, appended, or the first one.
unfoldable pub add_segment : ℕ → Phdr → Space → Option Space
add_segment fuel ph s =
    let e_vaddr : ℕ = segment_end ph in
    elim (set_vma ph.p_vaddr e_vaddr ph.p_type perm_x s) [
      | none ↦ none
      | some (a, s1) ↦
          let counted : Space = record s1 {
            total_vm = (s1.total_vm + int_bits ph.p_memsz) % 2 ^ 64;
            top_vaddr = if ltb s1.top_vaddr e_vaddr then e_vaddr else s1.top_vaddr;
          } in
          let appended : Option Space = append_vma fuel a counted in
          if s1.vm == 0
          then some (record counted { vm = a; vma_count = s1.vma_count + 1 })
          else appended
    ]

-- The loop over the program headers: those that are loadable.
unfoldable pub add_segments : ℕ → List Phdr → Space → Option Space
add_segments fuel [] s = some s
add_segments fuel (ph ∷ phs) s = elim (if ph.p_type == 1 then add_segment fuel ph s else some s) [
  | none ↦ none
  | some s1 ↦ add_segments fuel phs s1
]

-- A region of its own for the heap, and for the stack. `end_vma` is computed before the region.
unfoldable pub add_heap : ℕ → Space → Option Space
add_heap fuel s =
    let start : ℕ = ((s.top_vaddr + 2 ^ 64 - 1) % 2 ^ 64 / 4096 + 1) * 4096 % 2 ^ 64 in
    elim (set_vma start start heap perm_rw s) [
      | none ↦ none
      | some (a, s1) ↦ append_vma fuel a (record s1 { start_brk = start; brk = start })
    ]

unfoldable pub add_stack : ℕ → Space → Option Space
add_stack fuel s =
    elim (set_vma (user_stack_top - user_stack_size) user_stack_top stack perm_rw s) [
      | none ↦ none
      | some (a, s1) ↦
          append_vma fuel a (record s1 {
            total_vm = s1.total_vm + user_stack_size;
            start_stack = user_stack_top - 8;
          })
    ]

unfoldable pub add_regions : ℕ → List Phdr → Space → Option Space
add_regions fuel phs s = elim (add_segments fuel phs s) [
  | none ↦ none
  | some s1 ↦ elim (add_heap fuel s1) [ none ↦ none | some s2 ↦ add_stack fuel s2 ]
]

-- `memset` with the byte 0.
unfoldable pub clear : Memory → ℕ → ℕ → Memory
clear m addr count a = if leb addr a && ltb a (addr + count) then 0 else m a

-- The bytes of a segment: those of the file, and 0 for the rest. The counts of `memmove` and `memset`
-- are `unsigned int`s.
unfoldable pub copy_segment : ℕ → Phdr → Memory → Memory
copy_segment ehdr ph m =
    clear (memmove m (ehdr + ph.p_offset) ph.p_vaddr (ph.p_filesz % 2 ^ 32))
      (ph.p_vaddr + ph.p_filesz) ((int_bits ph.p_memsz + 2 ^ 64 - ph.p_filesz) % 2 ^ 32)

unfoldable pub copy_segments : ℕ → List Phdr → Memory → Memory
copy_segments ehdr [] m = m
copy_segments ehdr (ph ∷ phs) m =
    copy_segments ehdr phs (if ph.p_type == 1 then copy_segment ehdr ph m else m)

-- Eight bytes, the lowest first.
abbrev pub store64 : Memory → ℕ → ℕ → Memory
store64 m a v x = if leb a x && ltb x (a + 8) then v / 256 ^ (x - a) % 256 else m x

-- The string with its null byte.
abbrev pub put_string : Memory → ℕ → List ℕ → Memory
put_string m a [] = update m a 0
put_string m a (c ∷ cs) = put_string (update m a c) (suc a) cs

-- The two loops that store strings, from the last one on: the memory, `ss`, and the addresses.
unfoldable pub store_strings : List (List ℕ) → Memory × ℕ → Memory × ℕ × List ℕ
store_strings [] (m, ss) = (m, ss, [])
store_strings (s ∷ strings) (m, ss) =
    let (m1, ss1, ptrs) = store_strings strings (m, ss) in
    let ss2 : ℕ = ss1 - (length s + 1) in (put_string m1 ss2 s, ss2, ss2 ∷ ptrs)

-- `ss--; *ss = v;`
abbrev pub push : ℕ → Memory × ℕ → Memory × ℕ
push v (m, ss) = (store64 m (ss - 8) v, ss - 8)

-- The two loops that store a vector, from its last entry on.
unfoldable pub push_words : List ℕ → Memory × ℕ → Memory × ℕ
push_words [] st = st
push_words (v ∷ vs) st = push v (push_words vs st)

-- From the copies in the buffers to the stack.
unfoldable pub store_buffers : List (List ℕ) → List (List ℕ) → ℕ → Memory → Memory × ℕ
store_buffers args env start_stack m =
    let (m1, ss1, envp_ptr) = store_strings env (m, start_stack) in
    let (m2, ss2, args_ptr) = store_strings args (m1, ss1) in
    push (length args) (push_words args_ptr (push 0 (push_words envp_ptr (m2, ss2))))

-- `arg_buf` and `env_buf` are arrays of ten strings of 100 bytes, into which the strings are copied
-- first: do they have room, with the null bytes?
abbrev pub short : List (List ℕ) → Bool
short [] = true
short (s ∷ strings) = ltb (length s) 100 && short strings

abbrev pub fits_buffer : List (List ℕ) → Bool
fits_buffer strings = leb (length strings) 10 && short strings

-- The arguments and the environment on the stack: the memory, and the new `start_stack`. `none` is a
-- copy that runs past its array.
unfoldable pub store_arguments : List (List ℕ) → List (List ℕ) → ℕ → Memory → Option (Memory × ℕ)
store_arguments args env start_stack m =
    if fits_buffer args && fits_buffer env
    then some (store_buffers args env start_stack m)
    else none
