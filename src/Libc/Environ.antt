-- ===== src/Libc/Environ.antt =====
-- The environment: `extract_from_environ` and `get_value` of libc/env.c, `getenvval` and `concat` of
-- libc/execvpe.c. `environ` gives the address of each string; the array ends with an empty string.
-- A loop, the string functions it calls included, takes fuel.
use os.Common.{ℕ, zero, suc, ◌+◌, Option, none, some, ◌==◌, if◌then◌else◌}
use os.Common.Int.{ℤ, pos, minus_one}
use os.Strings.{Memory, strcmp, strncmp, strlen, strcpy}

-- The pointer to the value, 0 where no string begins with the name.
unfoldable pub extract_from_environ : ℕ → Memory → (ℕ → ℕ) → ℕ → ℕ → Option ℕ
extract_from_environ zero m environ var c = none
extract_from_environ (suc fuel) m environ var c =
    let found : Option ℕ = elim (strlen fuel m var) [
      | none ↦ none
      | some n ↦ elim (strncmp fuel m (environ c) var 0 n) [
        | none ↦ none
        | some (pos zero) ↦ some (environ c + n + 1)
        | some _ ↦ extract_from_environ fuel m environ var (c + 1)
      ]
    ] in
    if m (environ c) == 0 then some 0 else found

-- The same for `execvpe`, by the whole string.
unfoldable pub getenvval : ℕ → Memory → (ℕ → ℕ) → ℕ → ℕ → Option ℕ
getenvval zero m environ name c = none
getenvval (suc fuel) m environ name c =
    let found : Option ℕ = elim (strcmp fuel m (environ c) name) [
      | none ↦ none
      | some (pos zero) ↦ elim (strlen fuel m name) [
        | none ↦ none
        | some n ↦ some (environ c + n + 1)
      ]
      | some _ ↦ getenvval fuel m environ name (c + 1)
    ] in
    if m (environ c) == 0 then some 0 else found

-- The loop of `get_value`, from `idx` on, and its test for a null pointer.
unfoldable pub get_value_from : ℕ → Memory → ℕ → ℕ → Option ℤ
get_value_from zero m cmd idx = none
get_value_from (suc fuel) m cmd idx =
    let rest : Option ℤ = get_value_from fuel m cmd (idx + 1) in
    if m (cmd + idx) == b'='
    then some (pos idx)
    else (if m (cmd + idx + 1) == 0 then some minus_one else rest)

unfoldable pub get_value : ℕ → Memory → ℕ → Option ℤ
get_value fuel m cmd = if cmd == 0 then some minus_one else get_value_from fuel m cmd 0

-- `concat`, at the address that `malloc` returns.
unfoldable pub concat : ℕ → Memory → ℕ → ℕ → ℕ → Option Memory
concat fuel m result s1 s2 = elim (strcpy fuel m result s1) [
  | none ↦ none
  | some m1 ↦ elim (strlen fuel m1 s1) [ none ↦ none | some n ↦ strcpy fuel m1 (result + n) s2 ]
]
