-- ===== src/Calls.antt =====
-- The table of system calls and the calls that hand on to the files and the archive,
-- sys/syscall_handler.c. The functions of the table and those behind `fop` are parameters.
use os.Common.{
  ℕ, zero, suc, Bool, false, Option, none, some, List, [], ◌∷◌, ltb, leb, ◌==◌, if◌then◌else◌,
  length,
}
use os.Common.Int.{ℤ, pos, negsuc, minus_one}
use os.Pool.{max_fd}
use os.Tarfs.Directory.{Tree, check_tfs_dir}

-- `functionWithArg`: the number of arguments, and the function.
abbrev pub Entry : Type 0 → Type 0
Entry S = ℕ × (List ℕ → S → ℕ × S)

abbrev pub first_of : ℕ → List ℕ → List ℕ
first_of zero args = []
first_of (suc n) [] = []
first_of (suc n) (a ∷ args) = a ∷ first_of n args

-- `memcmp(path, ".", 1) == 0`
abbrev pub is_dot : List ℕ → Bool
is_dot [] = false
is_dot (c ∷ path) = c == b'.'

-- `buf` is null or takes the directory.
unfoldable pub getcwd : ℕ → List ℕ → ℤ × Option (List ℕ)
getcwd buf cwd = if buf == 0 then (minus_one, none) else (pos 0, some cwd)

module _ {S : Type 0} where
  -- The switch over the count: with more than five arguments no function is called.
  unfoldable pub call : Entry S → List ℕ → S → ℕ × S
  call (count, func) args s = if leb count 5 then func (first_of count args) s else (0, s)

  -- `table` is `syscalls`; `args` are the five registers.
  unfoldable pub syscall_handler : (ℕ → Entry S) → ℕ → List ℕ → S → ℕ × S
  syscall_handler table num args s = call (table num) args s

  -- `readdir filep` is `filep->fop->readdir(filep, dirp, count)`.
  unfoldable pub sys_getdents : (ℕ → S → ℤ × S) → ℕ → ℕ → ℕ → (ℕ → ℕ) → S → ℤ × S
  sys_getdents readdir fd dirp count fdarr s =
      if dirp == 0
      then (minus_one, s)
      else if count == 0
      then (minus_one, s)
      else if leb max_fd fd
      then (minus_one, s)
      else if fdarr fd == 0
      then (minus_one, s)
      else readdir (fdarr fd) s

  -- `kfree_path` is the `kfree` of the path at the end.
  unfoldable pub sys_chdir :
      ℕ → Tree → (S → S) → Option (List ℕ) → List ℕ → S → Option (ℤ × List ℕ × S)
  sys_chdir fuel t kfree_path none cwd s = some (minus_one, cwd, s)
  sys_chdir fuel t kfree_path (some path) cwd s =
      let checked : Option (ℤ × List ℕ × S) = elim (check_tfs_dir fuel t (some path)) [
        | none ↦ none
        | some (pos n) ↦ some (pos 0, path, kfree_path s)
        | some (negsuc n) ↦ some (minus_one, cwd, s)
      ] in
      if is_dot path
      then some (pos 0, cwd, s)
      else if ltb 49 (length path)
      then some (minus_one, cwd, s)
      else checked
