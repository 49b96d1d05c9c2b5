-- ===== src/Shell.antt =====
-- The command lines of the shell: bin/sbush/sbush.c. The line is bytes in memory, which the parser
-- cuts into strings where it stands. A loop takes fuel, and one step for each turn; `none` is a loop
-- still going.
pub mod Tokens
pub mod Ends
pub mod Words
use os.Common.{
  ℕ, zero, suc, ◌+◌, Bool, true, false, ◌&&◌, ◌||◌, Option, none, some, List, [], ◌∷◌, ltb, leb,
  length, ◌==◌, if◌then◌else◌, get_or,
}
use os.Common.Int.{ℤ, pos, negsuc}
use os.Common.Links.{update}
use os.Strings.{Memory, strlen, strncmp}

-- `struct cmd` with the records that it heads. `overrun` is a command of more than ten words: the
-- parser has written the others behind its `argv`, and what they overwrite is not modelled.
pub data Cmd : Type 0 where
  ecmd : List ℕ → Cmd
  overrun : Cmd
  pcmd : Cmd → Cmd → Cmd
  bcmd : Cmd → Cmd

-- `while (*q == ' ') q++;`
unfoldable pub skip_blanks : ℕ → Memory → ℕ → Option ℕ
skip_blanks zero m q = none
skip_blanks (suc fuel) m q =
    let rest = skip_blanks fuel m (suc q) in if m q == 32 then rest else some q

-- The characters `|`, `&` and null.
abbrev pub is_end : ℕ → Bool
is_end c = c == 124 || (c == 38 || c == 0)

unfoldable pub skip_word : ℕ → Memory → ℕ → Option ℕ
skip_word zero m q = none
skip_word (suc fuel) m q =
    let rest = skip_word fuel m (suc q) in if is_end (m q) || m q == 32 then some q else rest

-- Null for a blank at the end of the token, and the address behind it.
unfoldable pub cut : Memory → ℕ → Memory × ℕ
cut m q = ((if m q == 32 then update m q 0 else m), suc q)

unfoldable pub fetchtoken : ℕ → Memory → ℕ → Option (Memory × ℕ)
fetchtoken fuel m ps = elim (skip_blanks fuel m ps) [
  | none ↦ none
  | some q ↦ elim (skip_word fuel m q) [ none ↦ none | some r ↦ some (cut m r) ]
]

-- The state with one more entry in front.
abbrev pub add_entry : ℕ → Option (Memory × ℕ × List ℕ) → Option (Memory × ℕ × List ℕ)
add_entry a none = none
add_entry a (some (m, src, args)) = some (m, src, a ∷ args)

-- The loop of `getexec`: the memory, the place in the line, and the entries of `argv` from there on.
unfoldable pub getexec_loop : ℕ → Memory → ℕ → Option (Memory × ℕ × List ℕ)
getexec_loop zero m ps = none
getexec_loop (suc fuel) m ps =
    let rest : Option (Memory × ℕ × List ℕ) = elim (fetchtoken (suc fuel) m ps) [
      | none ↦ none
      | some t ↦ add_entry ps (getexec_loop fuel t.0 t.1)
    ] in
    if is_end (m ps) then some (m, ps, []) else rest

-- MAX_ARGS
abbrev pub max_args : ℕ
max_args = 10

-- The command that `getexec` fills with these entries, in order.
unfoldable pub with_entries : List ℕ → Cmd
with_entries argv = if leb (length argv) max_args then ecmd argv else overrun

-- What `getpipe` makes of the command to the left and of the one to the right.
abbrev pub join : Cmd → Option (Memory × ℕ × Cmd) → Option (Memory × ℕ × Cmd)
join left none = none
join left (some (m, src, right)) = some (m, src, pcmd left right)

unfoldable pub getpipe : ℕ → Memory → ℕ → Option (Memory × ℕ × Cmd)
getpipe zero m src = none
getpipe (suc fuel) m src = elim (skip_blanks (suc fuel) m src) [
  | none ↦ none
  | some ps ↦ elim (getexec_loop (suc fuel) m ps) [
    | none ↦ none
    | some (m1, src1, argv) ↦
        let rest : Option (Memory × ℕ × Cmd) =
          join (with_entries argv) (getpipe fuel (update m1 src1 0) (suc src1)) in
        if m1 src1 == 124 then rest else some (m1, src1, with_entries argv)
  ]
]

-- The last step of `parsecmd`, for a command in the background.
unfoldable pub background : Memory × ℕ × Cmd → Memory × ℕ × Cmd
background (m, src, command) =
    if m src == 38 then (update m src 0, src, bcmd command) else (m, src, command)

-- The address of the end of the line, `dst`, is computed but not used.
unfoldable pub parsecmd : ℕ → Memory → ℕ → Option (Memory × ℕ × Cmd)
parsecmd fuel m buf = elim (strlen fuel m buf) [
  | none ↦ none
  | some n ↦ elim (getpipe fuel m buf) [ none ↦ none | some r ↦ some (background r) ]
]

-- What a process does with a command: `execvpe` with these entries, the message, or what no one can
-- tell, behind an `argv` that is overrun.
pub data Run : Type 0 where
  execvpe : ℕ → List ℕ → Run
  unknown : Run
  undefined : Run

unfoldable pub runcmd : Cmd → Run
runcmd (ecmd argv) = execvpe (get_or argv 0 0) argv
runcmd overrun = undefined
runcmd (pcmd left right) = unknown
runcmd (bcmd command) = unknown

-- A turn of the loop of `main`: the shell leaves, on `exit` or where `fork` fails, a child runs a
-- command, or the parent waits for it.
pub data Turn : Type 0 where
  leaves : Turn
  runs : Run → Turn
  waits : Turn

unfoldable pub child : ℕ → Memory → ℕ → Option Turn
child fuel m buf = elim (parsecmd fuel m buf) [ none ↦ none | some r ↦ some (runs (runcmd r.2)) ]

abbrev pub by_pid : Option Turn → ℤ → Option Turn
by_pid in_child (pos zero) = in_child
by_pid in_child (pos (suc pid)) = some waits
by_pid in_child (negsuc n) = some leaves

-- `exit_cmd` is the address of the text `exit`, and `pid` is what `fork` returns.
unfoldable pub turn : ℕ → Memory → ℕ → ℕ → ℤ → Option Turn
turn fuel m buf exit_cmd pid = elim (skip_blanks fuel m buf) [
  | none ↦ none
  | some ptr ↦ elim (strncmp fuel m ptr exit_cmd 0 4) [
    | none ↦ none
    | some (pos zero) ↦ some leaves
    | some (pos (suc n)) ↦ by_pid (child fuel m buf) pid
    | some (negsuc n) ↦ by_pid (child fuel m buf) pid
  ]
]
