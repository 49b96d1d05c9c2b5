-- ===== src/Files.antt =====
-- Descriptors: `sys_open`, `sys_close`, `sys_read` and `sys_write` of sys/syscall_handler.c over the
-- table `fdarr` of the current task. A file is its address, 0 the null pointer. What the files do is
-- the state `S` of the system, which the functions behind `fop` change: they are parameters.
pub mod Table
use os.Common.{
  ℕ, zero, suc, ◌+◌, Bool, true, false, Option, none, some, List, [], ◌∷◌, ltb, leb, ◌==◌,
  if◌then◌else◌,
}
use os.Common.Int.{ℤ, pos, negsuc, minus_one}
use os.Common.Links.{update}
use os.Pool.{get_free_fd, max_fd}

abbrev pub Table : Type 0
Table = ℕ → ℕ

-- `name[kstrlen(name)-1] = '\0'`, for a name that is not empty.
abbrev pub cut_last : List ℕ → List ℕ
cut_last [] = []
cut_last (c ∷ []) = []
cut_last (c ∷ d ∷ cs) = c ∷ cut_last (d ∷ cs)

module _ {S : Type 0} where
  -- `filep` is what `tfs_open` returns.
  unfoldable pub put_open : ℕ → Table → ℕ × S → ℤ × Table × S
  put_open fd fdarr (filep, s) =
      if filep == 0 then (minus_one, fdarr, s) else (pos fd, update fdarr fd filep, s)

  unfoldable pub open_at : (List ℕ → S → ℕ × S) → ℤ → List ℕ → Table → S → ℤ × Table × S
  open_at tfs_open (negsuc n) name fdarr s = (minus_one, fdarr, s)
  open_at tfs_open (pos fd) name fdarr s = put_open fd fdarr (tfs_open (cut_last name) s)

  -- `tfs_open` is given the flags of the call.
  unfoldable pub sys_open : (List ℕ → S → ℕ × S) → Option (List ℕ) → Table → S → ℤ × Table × S
  sys_open tfs_open none fdarr s = (minus_one, fdarr, s)
  sys_open tfs_open (some name) fdarr s = open_at tfs_open (get_free_fd fdarr) name fdarr s

  -- `close filep` is `filep->fop->close(filep)`.
  unfoldable pub sys_close : (ℕ → S → ℤ × S) → ℕ → Table → S → ℤ × Table × S
  sys_close close fd fdarr s =
      let (ret, s1) = close (fdarr fd) s in
      if fdarr fd == 0 then (minus_one, fdarr, s) else (ret, update fdarr fd 0, s1)

  unfoldable pub sys_write : (ℕ → ℕ → S → ℤ × S) → ℕ → ℕ → Table → S → ℤ × S
  sys_write write fd count fdarr s =
      if leb max_fd fd
      then (minus_one, s)
      else if count == 0
      then (pos 0, s)
      else if fdarr fd == 0
      then (minus_one, s)
      else write (fdarr fd) count s

  -- The loop of `sys_read`: `halt` is what the interrupts do until the task goes on. `none` is missing
  -- fuel, one for each attempt.
  unfoldable pub read_until : ℕ → (S → ℤ × S) → (S → S) → S → Option (ℤ × S)
  read_until zero read halt s = none
  read_until (suc fuel) read halt s = elim (read s).0 [
    | pos n ↦ some (pos n, (read s).1)
    | negsuc n ↦ read_until fuel read halt (halt (read s).1)
  ]

  unfoldable pub sys_read :
      ℕ → (ℕ → ℕ → S → ℤ × S) → (S → S) → ℕ → Bool → ℕ → Table → S → Option (ℤ × S)
  sys_read fuel read halt fd buf count fdarr s =
      if leb max_fd fd
      then some (minus_one, s)
      else if count == 0
      then some (pos 0, s)
      else if fdarr fd == 0
      then some (minus_one, s)
      else if buf
      then read_until fuel (read (fdarr fd) count) halt s
      else some (minus_one, s)
