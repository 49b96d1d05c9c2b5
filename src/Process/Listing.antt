-- ===== src/Process/Listing.antt =====
-- `sys_ps` of sys/syscall_handler.c. The strings stand in a memory: the two arrays of the call, the
-- names of the tasks and the string literals, whose addresses are parameters. The numbers are taken as
-- an `int` that is not negative.
use os.Common.{
  ℕ, zero, suc, ◌+◌, ◌-◌, ◌%◌, ◌^◌, Option, none, some, List, [], ◌∷◌, ◌==◌, if◌then◌else◌, length,
  ◌>>=◌,
}
use os.Common.Links.{update}
use os.Sched.{Sched}
use os.Strings.{Memory, kstrcat, kint_to_str, memmove}

-- Where the strings are.
pub record Texts : Type 0 where
  pub ps_buf : ℕ
  pub int_buf : ℕ
  pub header : ℕ
  pub blanks : ℕ
  pub line_end : ℕ
  pub empty : ℕ
  pub name : ℕ → ℕ

unfoldable pub put_digits : List ℕ → ℕ → Memory → Memory
put_digits [] p m = m
put_digits (d ∷ ds) p m = put_digits ds (suc p) (update m p d)

-- `kint_to_str` into `int_buf`: the pointer it returns, and the memory.
unfoldable pub number_text : Texts → ℕ → Memory → Option (ℕ × Memory)
number_text t i m = elim (kint_to_str i 10) [
  | none ↦ none
  | some ds ↦
      (let start = t.int_buf + 49 - length ds in
        some (start, put_digits ds start (update m (t.int_buf + 49) 0)))
]

-- `kint_to_str` and `kstrcat` of its result.
unfoldable pub add_number : ℕ → Texts → ℕ → Memory → Option Memory
add_number fuel t i m = do (start, m1) ← number_text t i m; kstrcat fuel m1 t.ps_buf start

-- The line of one task: its id, its name and how long it has been running.
unfoldable pub add_task : ℕ → Texts → Sched → ℕ → Memory → Option Memory
add_task fuel t s task m = do
  m1 ← add_number fuel t (s.pid task) m
  m2 ← kstrcat fuel m1 t.ps_buf t.blanks
  m3 ← kstrcat fuel m2 t.ps_buf (t.name task)
  m4 ← kstrcat fuel m3 t.ps_buf t.blanks
  m5 ← add_number fuel t ((s.ms + 2 ^ 64 - s.start_ms task) % 2 ^ 32) m4
  kstrcat fuel m5 t.ps_buf t.line_end

-- The lines of a queue; the first fuel is for its length, the second one for the texts.
unfoldable pub add_queue : ℕ → ℕ → Texts → Sched → ℕ → Memory → Option Memory
add_queue zero fuel t s cursor m = none
add_queue (suc turns) fuel t s cursor m =
    if cursor == 0
    then some m
    else add_task fuel t s cursor m >>= (λ m1. add_queue turns fuel t s (s.next cursor) m1)

-- The line of the running task, if there is one.
unfoldable pub add_current : ℕ → Texts → Sched → Memory → Option Memory
add_current fuel t s m = if s.current == 0 then some m else add_task fuel t s s.current m

-- The call returns 0; the caller finds the text at `buf`.
unfoldable pub sys_ps : ℕ → ℕ → Texts → ℕ → Sched → Memory → Option Memory
sys_ps turns fuel t buf s m = do
  m1 ← kstrcat fuel m t.ps_buf t.header
  m2 ← add_current fuel t s m1
  m3 ← add_queue turns fuel t s s.available_tasks m2
  m4 ← add_queue turns fuel t s s.waiting_tasks m3
  m5 ← add_queue turns fuel t s s.sleeping_tasks m4
  m6 ← kstrcat fuel m5 t.ps_buf t.empty
  some (memmove m6 t.ps_buf buf 1024)
