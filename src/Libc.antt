-- ===== src/Libc.antt =====
-- Parts of the C library that programs call: libc/stdio.c, libc/puts.c, libc/putchar.c, libc/dir.c,
-- libc/wait.c, libc/env.c and libc/execvpe.c. The system calls are parameters.
pub mod Environ
pub mod Missed
pub mod Dir
pub mod Stream
use os.Common.{ℕ, Option, none, some, List, [], ◌∷◌, map}
use os.Common.Int.{ℤ, pos, minus_one}
use os.Screen.{Arg, convert, format}

-- A call `write(fd, buf, count)`, as the descriptor and the bytes.
abbrev pub Write : Type 0
Write = ℕ × List ℕ

-- `putchar`: the call, for the character's byte. It returns the character whatever `write` does.
unfoldable pub putchar : ℕ → Write
putchar c = (1, c ∷ [])

-- `puts`: the calls, and the result, which is EOF on both ways out.
unfoldable pub puts : List ℕ → List Write × ℤ
puts s = (map putchar s, minus_one)

-- `convert`: the digits are put at once.
unfoldable pub put_number : ℕ → ℕ → Option (List Write)
put_number i base = elim (convert i base) [ none ↦ none | some digits ↦ some (puts digits).0 ]

-- `printf`: its loop over the format and its conversions are those of `kprintf`; each character is
-- a call, and `num_char` stays 0. `none` is a format that ends in `%`.
unfoldable pub printf : List ℕ → List Arg → Option (List Write × ℤ)
printf fmt args = elim (format fmt args) [ none ↦ none | some out ↦ some (map putchar out, pos 0) ]

-- `wait`, for the system call `waitpid` of a process and a status pointer.
unfoldable pub wait : {S : Type 0} → (ℤ → ℕ → S → ℤ × S) → ℕ → S → ℤ × S
wait waitpid status s = waitpid minus_one status s
