-- ===== src/Examples/Kernel.antt =====
-- The first address space, a fork, and the search of the environment.
use os.Common.{ℕ, ◌≡◌, refl, arith, true, false, some, [], ◌∷◌, ◌==◌, if◌then◌else◌}
use os.Common.Links.{Chain}
use os.Pages.{Pmap}
use os.Paging.{Paging}
use os.Sched.{Sched, sign_extend}
use os.Sched.Spawn.{sys_fork}
use os.Sched.Forked.{sys_fork-Chain}
use os.Strings.{Memory}
use os.Libc.Environ.{getenvval}
use os.Libc.Missed.{getenvval_missed}

-- Entry 1 of the allocator is the free page at 0, as after `pmap_init`.
abbrev pages : Pmap
pages = record {
  base = λ e. 0;
  map_count = λ e. 0;
  next = λ e. 0;
  freelist_head = 1;
  free_pg_count = 1;
  entry_count = 2;
}

abbrev unpaged : Paging
unpaged = record { pmap = pages; entry = λ t i. 0; root = 0; init_root = 0; kern_free_addr = 0 }

-- Task 9 runs, and tasks 1 and 2 are available.
abbrev running : Sched
running = record {
  next = λ t. if t == 1 then 2 else 0;
  prev = λ t. if t == 2 then 1 else 0;
  parent = λ t. 0;
  runnable = λ t. true;
  waiting = λ t. false;
  userp = λ t. true;
  first_run = λ t. false;
  sleep_time = λ t. 0;
  start_ms = λ t. 0;
  pid = λ t. t;
  wait_pid = λ t. 0;
  rax = λ t. 0;
  num_children = λ t. 0;
  entry = λ t. 0;
  rsp = λ t. 0;
  kstack = λ t. 0;
  stack = λ t i. 0;
  current = 9;
  idle = 0;
  available_tasks = 1;
  sleeping_tasks = 0;
  waiting_tasks = 0;
  ms = 40;
  next_pid = 12;
}

sys_fork-Chain_example :
    (s : Sched) × (sys_fork 5 7 0x5000 0x6000 running ≡ some (sign_extend 12, s))
    × Chain s.next s.available_tasks (1 ∷ 2 ∷ 7 ∷ [])
    × (s.pid 7 ≡ 12)
    × (s.parent 7 ≡ 9)
    × (s.rax 7 ≡ 0)
    × (s.runnable 7 ≡ true)
    × (s.num_children 7 ≡ 0)
    × (s.num_children 9 ≡ 1)
sys_fork-Chain_example =
    sys_fork-Chain 5 7 0x5000 0x6000 1 (2 ∷ []) running (omega arith) refl (omega arith)
      (omega arith) (omega arith) refl (omega arith)

-- "PATH" at 10; the setting "PATH=/" at 20; an empty string at 30.
abbrev texts : Memory
texts = λ a.
    if a == 10
    then b'P'
    else if a == 11
    then b'A'
    else if a == 12
    then b'T'
    else if a == 13
    then b'H'
    else if a == 20
    then b'P'
    else if a == 21
    then b'A'
    else if a == 22
    then b'T'
    else if a == 23
    then b'H'
    else if a == 24
    then b'='
    else if a == 25
    then b'/'
    else 0

abbrev strings : ℕ → ℕ
strings c = if c == 0 then 20 else 30

getenvval_missed_example : getenvval 20 texts strings 10 0 ≡ some 0
getenvval_missed_example =
    getenvval_missed ((b'P' ∷ b'A' ∷ b'T' ∷ b'H' ∷ b'=' ∷ b'/' ∷ []) ∷ []) 20 7 texts strings 0 10
      (b'P' ∷ b'A' ∷ b'T' ∷ b'H' ∷ []) (ground arith) (ground arith) (ground arith) (ground arith)
      refl (omega arith)
