-- ===== src/Examples/Scheduling.antt =====
-- The scheduler and the system calls over it, on a few tasks.
use os.Common.{◌+◌, ◌≡◌, refl, arith, true, some, [], ◌∷◌, ◌==◌, if◌then◌else◌}
use os.Sched.{Sched, run_next_task, get_next_task, sign_extend}
use os.Sched.Next.{Queues, get_next_task-choice}
use os.Sched.RoundRobin.{Rotating, run_next_task-Rotating, switches, switches-fair}
use os.Process.{switched, sys_exit}
use os.Process.Wake.{sys_exit_runs_parent}

-- Task 1 runs; 2, 3 and 4 are available; the idle task is 9.
abbrev rotating : Sched
rotating = record {
  next = λ t. if t == 2 then 3 else if t == 3 then 4 else 0;
  prev = λ t. if t == 3 then 2 else if t == 4 then 3 else 0;
  parent = λ t. if t == 1 then 5 else 0;
  runnable = λ t. true;
  waiting = λ t. t == 5;
  userp = λ t. true;
  first_run = λ t. true;
  sleep_time = λ t. if t == 6 then 50 else 0;
  start_ms = λ t. 0;
  pid = λ t. t + 100;
  wait_pid = λ t. 4294967295;
  rax = λ t. 0;
  num_children = λ t. if t == 5 then 1 else 0;
  entry = λ t. 0;
  rsp = λ t. 0;
  kstack = λ t. 0;
  stack = λ t i. 0;
  current = 1;
  idle = 9;
  available_tasks = 2;
  sleeping_tasks = 0;
  waiting_tasks = 0;
  ms = 40;
  next_pid = 110;
}

rotating-Rotating : Rotating rotating 1 (2 ∷ 3 ∷ 4 ∷ [])
rotating-Rotating = record {
  running = refl;
  live = omega arith;
  chain = (refl, omega arith, (refl, omega arith, (refl, omega arith, refl)));
  once = refl;
  eligible = λ t h. ground arith;
  nobody_sleeps = refl;
  nobody_waits = refl;
}

run_next_task-Rotating_example :
    (s' : Sched) × (run_next_task 5 rotating ≡ some s') × Rotating s' 2 (3 ∷ 4 ∷ 1 ∷ [])
run_next_task-Rotating_example =
    run_next_task-Rotating 5 1 2 3 rotating (4 ∷ []) rotating-Rotating (omega arith)

switches-fair_example : (s' : Sched) × (switches 5 3 rotating ≡ some s') × (s'.current ≡ 4)
switches-fair_example =
    switches-fair 5 2 1 rotating (2 ∷ 3 ∷ 4 ∷ []) rotating-Rotating (omega arith) (omega arith)
      (omega arith)

-- Task 5 waits for a child, task 6 sleeps, and 2, 3 and 4 are available.
abbrev queued : Sched
queued = record rotating { sleeping_tasks = 6; waiting_tasks = 5 }

queued-Queues : Queues queued (6 ∷ []) (5 ∷ []) (2 ∷ 3 ∷ 4 ∷ [])
queued-Queues = record {
  asleep = (refl, omega arith, refl);
  blocked = (refl, omega arith, refl);
  ready = (refl, omega arith, (refl, omega arith, (refl, omega arith, refl)));
}

get_next_task-choice_example : (s' : Sched) × (get_next_task 5 queued ≡ some (2, s'))
get_next_task-choice_example =
    get_next_task-choice 5 queued (6 ∷ []) (5 ∷ []) (2 ∷ 3 ∷ 4 ∷ []) queued-Queues (omega arith)
      (omega arith) (omega arith)

-- Nobody sleeps.
abbrev awake : Sched
awake = record rotating { waiting_tasks = 5 }

sys_exit_runs_parent_example :
    (s' : Sched) × (sys_exit 5 awake ≡ some (switched s'))
    × (s'.current ≡ 5)
    × (s'.rax 5 ≡ sign_extend 101)
sys_exit_runs_parent_example =
    sys_exit_runs_parent 5 awake (5 ∷ []) (2 ∷ 3 ∷ 4 ∷ [])
      (record {
        asleep = refl;
        blocked = (refl, omega arith, refl);
        ready = (refl, omega arith, (refl, omega arith, (refl, omega arith, refl)));
      })
      (omega arith) (omega arith) (omega arith) (omega arith) (omega arith) refl refl
      (λ q ne i. ground arith) refl refl refl (omega arith)

-- Task 2 runs, and its link leads to the first available task, 3.
abbrev linked : Sched
linked = record rotating { current = 2; available_tasks = 3 }
