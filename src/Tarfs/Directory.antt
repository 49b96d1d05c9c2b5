-- ===== src/Tarfs/Directory.antt =====
-- Opening files and reading directories, sys/tarfs.c. A path and a name are the characters before the
-- null byte; a pointer to a header is that of `root_hdr`, or the header's block.
use os.Common.{
  ℕ, zero, suc, ◌+◌, ◌%◌, ◌/◌, ◌^◌, Bool, true, false, not, ◌&&◌, ◌||◌, Option, none, some, List,
  [], ◌∷◌, ◌==◌, if◌then◌else◌, length, drop, has,
}
use os.Common.Int.{ℤ, pos, minus_one}
use os.Tarfs.{Archive, get_tfs_next, oct_to_bin, size_field}

-- The archive with the names and the type flags of its headers; `after_root` is what `get_tfs_next`
-- makes of `root_hdr`, behind which the program does not say what stands.
pub data Header : Type 0 where
  root_hdr : Header
  block : ℕ → Header

pub record Tree : Type 0 where
  pub archive : Archive
  pub first : Option ℕ
  pub name : ℕ → List ℕ
  pub typeflag : ℕ → ℕ
  pub after_root : Option Header

abbrev pub tfs_dir : ℕ
tfs_dir = b'5'

-- `memcmp(path, name, kstrlen(path)) == 0`
abbrev pub matches : List ℕ → List ℕ → Bool
matches [] name = true
matches (c ∷ path) [] = false
matches (c ∷ path) (d ∷ name) = (c == d) && matches path name

abbrev pub is_root : List ℕ → Bool
is_root [] = false
is_root (c ∷ []) = c == b'/'
is_root (c ∷ d ∷ path) = false

-- The loop of `check_tfs_dir`; `none` is missing fuel.
unfoldable pub check_from : ℕ → Tree → List ℕ → Option ℕ → Option ℤ
check_from zero t path hdr = none
check_from (suc fuel) t path none = some minus_one
check_from (suc fuel) t path (some hdr) =
    let rest : Option ℤ = check_from fuel t path (get_tfs_next t.archive (some hdr)) in
    if matches path (t.name hdr)
    then (if t.typeflag hdr == tfs_dir then some (pos 0) else some minus_one)
    else rest

unfoldable pub check_tfs_dir : ℕ → Tree → Option (List ℕ) → Option ℤ
check_tfs_dir fuel t none = some minus_one
check_tfs_dir fuel t (some path) =
    let rest : Option ℤ = check_from fuel t path t.first in
    if is_root path then some (pos 0) else rest

-- The fields of `struct file` that `tfs_open` sets.
pub record Opened : Type 0 where
  pub data_hdr : Header
  pub flags : ℕ
  pub offset : Option Header
  pub size : ℕ

-- O_WRONLY | O_RDWR, and O_DIRECTORY
abbrev pub writes : ℕ → Bool
writes flags = flags % 2 == 1 || flags / 16 % 2 == 1

abbrev pub o_directory : ℕ → Bool
o_directory flags = flags / 65536 % 2 == 1

abbrev pub to_block : Option ℕ → Option Header
to_block none = none
to_block (some hdr) = some (block hdr)

-- A file whose name matches.
unfoldable pub open_header : Tree → ℕ → ℕ → Option Opened
open_header t flags hdr =
    if not (t.typeflag hdr == tfs_dir) && o_directory flags
    then none
    else some record {
      data_hdr = block hdr;
      flags = flags;
      offset =
          if t.typeflag hdr == tfs_dir then to_block (get_tfs_next t.archive (some hdr)) else none;
      size = oct_to_bin (t.archive.size hdr) size_field;
    }

-- The outer `none` is missing fuel, the inner one the null pointer.
unfoldable pub open_from : ℕ → Tree → List ℕ → ℕ → Option ℕ → Option (Option Opened)
open_from zero t path flags hdr = none
open_from (suc fuel) t path flags none = some none
open_from (suc fuel) t path flags (some hdr) =
    let rest : Option (Option Opened) =
      open_from fuel t path flags (get_tfs_next t.archive (some hdr)) in
    if matches path (t.name hdr) then some (open_header t flags hdr) else rest

abbrev pub trim : List ℕ → List ℕ
trim [] = []
trim (c ∷ path) = if c == 32 then trim path else c ∷ path

-- `root_size` is the size that the root header, which no archive holds, comes to.
unfoldable pub tfs_open : ℕ → Tree → ℕ → Option (List ℕ) → ℕ → Option (Option Opened)
tfs_open fuel t root_size none flags = some none
tfs_open fuel t root_size (some path) flags =
    let found : Option (Option Opened) = open_from fuel t (trim path) flags t.first in
    if writes flags
    then some none
    else if is_root path
    then some (
        some
          record { data_hdr = root_hdr; flags = flags; offset = some root_hdr; size = root_size })
    else found

-- `struct linux_dirent`
pub data Kind : Type 0 where
  dt_dir : Kind
  dt_reg : Kind
  dt_unknown : Kind

pub record Dirent : Type 0 where
  pub d_name : List ℕ
  pub d_off : ℕ
  pub d_reclen : ℕ
  pub d_type : Kind

unfoldable pub set_dirent : List ℕ → ℕ → ℕ → Dirent
set_dirent dname typeflag size = record {
  d_name = dname;
  d_off = 0;
  d_reclen = size % 2 ^ 16;
  d_type =
      if typeflag == tfs_dir
      then dt_dir
      else if typeflag == b'0' || typeflag == 0
      then dt_reg
      else dt_unknown;
}

-- `(size_t)&(((struct linux_dirent *)0)->d_name)`
abbrev pub d_name_at : ℕ
d_name_at = 32

abbrev pub name_of : Tree → Header → List ℕ
name_of t root_hdr = b'/' ∷ []
name_of t (block hdr) = t.name hdr

abbrev pub typeflag_of : Tree → Header → ℕ
typeflag_of t root_hdr = tfs_dir
typeflag_of t (block hdr) = t.typeflag hdr

abbrev pub next_of : Tree → Header → Option Header
next_of t root_hdr = t.after_root
next_of t (block hdr) = to_block (get_tfs_next t.archive (some hdr))

abbrev pub is_block : Header → Bool
is_block root_hdr = false
is_block (block hdr) = true

-- The loop of `tfs_readdir`: the result, the entry, and the new offset. The branch for an entry that is
-- too large is never taken, since its test is of an unsigned number below 0. `none` is missing fuel.
unfoldable pub readdir_loop :
    ℕ → Tree → Header → Option Header → Option (ℕ × Option Dirent × Option Header)
readdir_loop zero t dir next_hdr = none
readdir_loop (suc fuel) t dir none = some (0, none, none)
readdir_loop (suc fuel) t dir (some next_hdr) =
    let again : Option (ℕ × Option Dirent × Option Header) =
      readdir_loop fuel t dir (some next_hdr) in
    let dname : List ℕ = drop (length (name_of t dir)) (name_of t next_hdr) in
    let size : ℕ = d_name_at + length dname in
    if is_block dir && not (matches (name_of t dir) (name_of t next_hdr))
    then some (0, none, none)
    else if has b'/' dname
    then again
    else some (size, some (set_dirent dname (typeflag_of t next_hdr) size), next_of t next_hdr)

unfoldable pub tfs_readdir : ℕ → Tree → Opened → Option (ℕ × Option Dirent × Opened)
tfs_readdir fuel t filep = elim (readdir_loop fuel t filep.data_hdr filep.offset) [
  | none ↦ none
  | some r ↦ some (r.0, r.1, record filep { offset = r.2 })
]

-- `close` is `tfs_close`.
unfoldable pub tfs_closedir : {A : Type 0} → (A → ℤ × A) → Tree → Opened → A → ℤ × A
tfs_closedir close t filep a =
    if typeflag_of t filep.data_hdr == tfs_dir then close a else (minus_one, a)
