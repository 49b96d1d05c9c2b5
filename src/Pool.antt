-- ===== src/Pool.antt =====
-- The object pools of sys/task_pool.c: one free list for each kind of struct, linked through the
-- field `free` of the objects, and refilled by carving a page from `kmalloc` into objects.
-- The five pools have the same code at different sizes: `reload`, `get` and `release` are that
-- code, and the functions of the source are their instances.
pub mod Carve
pub mod Spaced
pub mod Live
pub mod Vmas
use os.Common.{
  ℕ, zero, suc, ◌+◌, ◌-◌, ◌*◌, ◌/◌, ◌%◌, ◌^◌, ◌≡◌, Bool, true, false, not, ◌&&◌, ◌||◌, Option, none,
  some, List, [], ◌∷◌, ◌++◌, ltb, leb, ◌==◌, if◌then◌else◌, length, get_or,
}
use os.Common.Int.{ℤ, pos, negsuc, minus_one}
use os.Common.Links.{Links, update}

abbrev pub pgsize : ℕ
pgsize = 4096

-- `free` is the field of that name of the object at an address, `bytes` its other bytes, and `head`
-- the global `free_..._struct`. Giving each object bytes of its own is right only for objects that
-- share none: Spaced says what that is.
pub record Pool : Type 0 where
  pub head : ℕ
  pub free : Links
  pub bytes : ℕ → ℕ → ℕ

-- The sizes of the structs, with the alignment of the ABI.
abbrev pub sizeof_file : ℕ
sizeof_file = 56

abbrev pub sizeof_dirent : ℕ
sizeof_dirent = 288

abbrev pub sizeof_task : ℕ
sizeof_task = 608

abbrev pub sizeof_mm : ℕ
sizeof_mm = 112

abbrev pub sizeof_vma : ℕ
sizeof_vma = 48

-- The loop of the `reload_*` functions: `num` runs up to `limit`, the end of the page. `none` is
-- missing fuel.
pub reload_loop : ℕ → ℕ → ℕ → ℕ → ℕ → Links → Option Links
reload_loop zero size limit prev num free = none
reload_loop (suc fuel) size limit prev num free =
    let rest : Option Links = reload_loop fuel size limit num (num + size) (update free prev num) in
    if ltb (num + size) limit then rest else some (update free prev 0)

-- `ptr` is the page that `kmalloc` returns.
pub reload : ℕ → ℕ → Pool → Option Pool
reload size ptr p = elim (reload_loop pgsize size (ptr + pgsize) ptr (ptr + size) p.free) [
  | none ↦ none
  | some free' ↦ some (record p { head = ptr; free = free' })
]

-- `memset(ret, 0, sizeof(...))`
abbrev pub clear : ℕ → Pool → Pool
clear a p = record p { free = update p.free a 0; bytes = update p.bytes a (λ _. 0) }

-- The object at the head, when there is one; `none` is the panic.
pub take_head : Pool → Option (ℕ × Pool)
take_head p =
    if p.head == 0
    then none
    else (let ret : ℕ = p.head in some (ret, clear ret (record p { head = p.free ret })))

pub get : ℕ → ℕ → Pool → Option (ℕ × Pool)
get size page p =
    let refilled : Option (ℕ × Pool) = elim (reload size page p) [
      | none ↦ none
      | some p' ↦ take_head p'
    ] in
    if p.head == 0 then refilled else take_head p

pub release : ℕ → Pool → Pool
release a p = let p' : Pool = clear a p in record p' { free = update p'.free a p.head; head = a }

pub reload_file_struct : ℕ → Pool → Option Pool
reload_file_struct = reload sizeof_file

pub reload_dirent_struct : ℕ → Pool → Option Pool
reload_dirent_struct = reload sizeof_dirent

pub reload_task_struct : ℕ → Pool → Option Pool
reload_task_struct = reload sizeof_task

pub reload_mm_struct : ℕ → Pool → Option Pool
reload_mm_struct = reload sizeof_mm

pub reload_vma_struct : ℕ → Pool → Option Pool
reload_vma_struct = reload sizeof_vma

pub get_file_struct : ℕ → Pool → Option (ℕ × Pool)
get_file_struct = get sizeof_file

pub get_dirent_struct : ℕ → Pool → Option (ℕ × Pool)
get_dirent_struct = get sizeof_dirent

pub get_task_struct : ℕ → Pool → Option (ℕ × Pool)
get_task_struct = get sizeof_task

pub get_mm_struct : ℕ → Pool → Option (ℕ × Pool)
get_mm_struct = get sizeof_mm

pub get_vma_struct : ℕ → Pool → Option (ℕ × Pool)
get_vma_struct = get sizeof_vma

pub release_file_struct : ℕ → Pool → Pool
release_file_struct = release

pub release_dirent_struct : ℕ → Pool → Pool
release_dirent_struct = release

pub release_task_struct : ℕ → Pool → Pool
release_task_struct = release

pub release_mm_struct : ℕ → Pool → Pool
release_mm_struct = release

pub release_vma_struct : ℕ → Pool → Pool
release_vma_struct = release

abbrev pub max_fd : ℕ
max_fd = 50

-- The loop of `get_free_fd` from `n`, by the rounds left; `fdarr` is that of the current task.
unfoldable pub free_fd_from : ℕ → ℕ → (ℕ → ℕ) → ℤ
free_fd_from zero n fdarr = minus_one
free_fd_from (suc rounds) n fdarr =
    let rest : ℤ = free_fd_from rounds (n + 1) fdarr in if fdarr n == 0 then pos n else rest

unfoldable pub get_free_fd : (ℕ → ℕ) → ℤ
get_free_fd = free_fd_from max_fd 0

-- The loop of `replace_task`: the last region of the list, 0 for an empty one.
pub last_vma : ℕ → Links → ℕ → ℕ → Option ℕ
last_vma zero next vma prev_vma = none
last_vma (suc fuel) next vma prev_vma =
    let rest : Option ℕ = last_vma fuel next (next vma) vma in
    if vma == 0 then some prev_vma else rest

-- What `replace_task` does with the regions of `mm->vm`: their links `next`, and the pool.
pub replace_task : ℕ → ℕ → Links → Pool → Option (Links × Pool)
replace_task fuel vm next p = elim (last_vma fuel next vm 0) [
  | none ↦ none
  | some prev_vma ↦
      if prev_vma == 0
      then some (next, p)
      else some (update next prev_vma p.head, record p { head = vm })
]
