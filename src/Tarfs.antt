-- ===== src/Tarfs.antt =====
-- The archive in memory, sys/tarfs.c: the headers, each followed by its file in blocks of 512 bytes,
-- and reading. A pointer to a header is its block, `none` the null pointer.
pub mod Directory
pub mod Lookup
pub mod Octal
pub mod Reading
pub mod Walk
use os.Common.{
  ℕ, zero, suc, ◌+◌, ◌-◌, ◌*◌, ◌/◌, ◌%◌, ◌^◌, Bool, true, false, Option, none, some, List, [], ◌∷◌,
  ltb, ◌==◌, if◌then◌else◌,
}
use os.Common.Int.{ℤ, pos, minus_one}

-- The loop of `oct_to_bin` from index `i` on, by the rounds left; `num` is an `int`, given by its bits.
unfoldable pub oct_from : ℕ → (ℕ → ℕ) → ℕ → ℕ → ℕ
oct_from zero ostr i num = num
oct_from (suc rounds) ostr i num =
    oct_from rounds ostr (suc i) ((num * 8 + (ostr i + 2 ^ 32 - b'0')) % 2 ^ 32)

-- The `int` as a `uint64_t`, for a field of `length` characters, at least one.
unfoldable pub oct_to_bin : (ℕ → ℕ) → ℕ → ℕ
oct_to_bin ostr length =
    let num = oct_from (length - 1) ostr 0 0 in
    if ltb num (2 ^ 31) then num else num + 2 ^ 64 - 2 ^ 32

-- The archive: the fields of the header in each block.
pub record Archive : Type 0 where
  pub name : ℕ → ℕ → ℕ
  pub size : ℕ → ℕ → ℕ

-- `sizeof(hdr->size)`
abbrev pub size_field : ℕ
size_field = 12

-- The header behind `hdr`, before its name is looked at.
unfoldable pub skip : Archive → ℕ → ℕ
skip a hdr =
    let size = oct_to_bin (a.size hdr) size_field in
    if ltb 0 size then hdr + ((511 + size) / 512 + 1) else hdr + 1

unfoldable pub get_tfs_next : Archive → Option ℕ → Option ℕ
get_tfs_next a none = none
get_tfs_next a (some hdr) =
    if a.name hdr 0 == 0
    then none
    else if a.name (skip a hdr) 0 == 0
    then none
    else some (skip a hdr)

-- `while(hdr) hdr = get_tfs_next(hdr);`: the headers visited. The outer `none` is missing fuel.
unfoldable pub visit : ℕ → Archive → Option ℕ → Option (List ℕ)
visit zero a hdr = none
visit (suc fuel) a none = some []
visit (suc fuel) a (some hdr) = elim (visit fuel a (get_tfs_next a (some hdr))) [
  | none ↦ none
  | some rest ↦ some (hdr ∷ rest)
]

-- The fields of `struct file` that `tfs_read` and `tfs_close` use.
pub record File : Type 0 where
  pub size : ℕ
  pub offset : ℕ
  pub count : ℕ

-- The bytes of a file from an offset on.
abbrev pub slice : (ℕ → ℕ) → ℕ → ℕ → List ℕ
slice content off zero = []
slice content off (suc n) = content off ∷ slice content (suc off) n

-- `memmove` takes an `unsigned int`. `offset` is the argument of that name, which the caller takes from the file; `content` is the file
-- behind the header. The result, the bytes moved to the buffer, and the file.
unfoldable pub tfs_read : (ℕ → ℕ) → File → ℕ → ℕ → ℕ × List ℕ × File
tfs_read content filep count offset =
    let size = (filep.size + 2 ^ 64 - offset) % 2 ^ 64 in
    let acount = if ltb count size then count else size in
    (
      acount,
      slice content offset (acount % 2 ^ 32),
      record filep { offset = (offset + acount) % 2 ^ 64 },
    )

-- The file is freed with its last reference.
unfoldable pub tfs_close : Option File → ℤ × Option File
tfs_close none = (minus_one, none)
tfs_close (some filep) =
    let count = (filep.count + (2 ^ 64 - 1)) % 2 ^ 64 in
    if count == 0 then (pos 0, none) else (pos 0, some record filep { count = count })
