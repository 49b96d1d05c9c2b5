-- ===== src/Libc/Dir.antt =====
-- Directory streams, libc/dir.c. A stream is its address, 0 the null pointer; the system calls and
-- `malloc` and `free` are parameters over a state of their own.
use os.Common.{ℕ, zero, suc, ◌+◌, ◌%◌, ◌^◌, Option, none, some, leb, ◌==◌, if◌then◌else◌}
use os.Common.Int.{ℤ, pos, negsuc, minus_one}

-- `struct dstream`; of `buff`, `reclen` is the field `d_reclen` of an entry at an offset.
pub record Dstream : Type 0 where
  pub fd : ℕ
  pub size : ℕ
  pub offset : ℕ
  pub reclen : ℕ → ℕ

-- `opendir` behind its test of the name: the result of `open`, and the block that `malloc` returns.
unfoldable pub opendir : ℤ → ℕ → (ℕ → ℕ) → Option (ℕ × Dstream)
opendir (negsuc n) block reclen = none
opendir (pos fd) block reclen =
    if block == 0
    then none
    else some (block, record { fd = fd; size = 0; offset = 0; reclen = reclen })

-- The entry that is handed out, by its offset, and the stream behind it.
abbrev pub hand_out : Dstream → Option ℕ × Dstream
hand_out d = (some d.offset, record d { offset = (d.offset + d.reclen d.offset) % 2 ^ 64 })

-- What `getdents` returns: the number of bytes, and the entries in the buffer.
abbrev pub Filled : Type 0
Filled = ℤ × (ℕ → ℕ)

unfoldable pub refill : Dstream → Filled → Option ℕ × Dstream
refill d (negsuc n, reclen) = (none, record d { reclen = reclen })
refill d (pos zero, reclen) = (none, record d { reclen = reclen })
refill d (pos (suc n), reclen) = hand_out (record d { size = suc n; offset = 0; reclen = reclen })

-- `readdir` of a stream, for the answer that `getdents` would give.
unfoldable pub readdir : Filled → Dstream → Option ℕ × Dstream
readdir filled d = if leb d.size d.offset then refill d filled else hand_out d

-- `closedir`, for the results of `free` and `close` on a state.
unfoldable pub closedir : {S : Type 0} → (ℕ → S → S) → (ℕ → S → ℤ × S) → ℕ → Dstream → S → ℤ × S
closedir free close dirp d s = if dirp == 0 then (minus_one, s) else close d.fd (free dirp s)
