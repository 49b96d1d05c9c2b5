-- ===== src/Sched.antt =====
-- The scheduler of sys/schedule.c: the task records, the three queues, and the choice of the next
-- task. A task is its address, 0 the null pointer; each field of `task_struct` is a function of it.
-- Every walk along a queue takes fuel, the same for all; `none` is missing fuel, which a queue
-- that leads round in a circle also shows.
pub mod Queue
pub mod Next
pub mod RoundRobin
pub mod Spawn
pub mod Forked
pub mod Taken
use os.Common.{
  ℕ, zero, suc, ◌+◌, ◌-◌, ◌*◌, ◌/◌, ◌%◌, ◌^◌, ◌≡◌, Bool, true, false, not, ◌&&◌, ◌||◌, Option, none,
  some, List, [], ◌∷◌, ◌++◌, ltb, leb, ◌==◌, if◌then◌else◌, length,
}
use os.Common.Links.{Links, update, last_node}

-- The fields of `task_struct` that the scheduler and the system calls use, and the globals.
-- `stack` is what the kernel stack of a task holds, by index. `pid` and `wait_pid` are bit patterns.
pub record Sched : Type 0 where
  pub next : Links
  pub prev : Links
  pub parent : Links
  pub runnable : ℕ → Bool
  pub waiting : ℕ → Bool
  pub userp : ℕ → Bool
  pub first_run : ℕ → Bool
  pub sleep_time : ℕ → ℕ
  pub start_ms : ℕ → ℕ
  pub pid : ℕ → ℕ
  pub wait_pid : ℕ → ℕ
  pub rax : ℕ → ℕ
  pub num_children : ℕ → ℕ
  pub entry : ℕ → ℕ
  pub rsp : ℕ → ℕ
  pub kstack : ℕ → ℕ
  pub stack : ℕ → ℕ → ℕ
  pub current : ℕ
  pub idle : ℕ
  pub available_tasks : ℕ
  pub sleeping_tasks : ℕ
  pub waiting_tasks : ℕ
  pub ms : ℕ
  pub next_pid : ℕ

-- The end of `reschedule`, `add_waiting_task` and `add_sleeping_task` behind an occupied queue.
pub link_behind : ℕ → ℕ → Sched → Sched
link_behind cursor task s = record s {
  next = update (update s.next cursor task) task 0;
  prev = update s.prev task cursor;
}

abbrev pub append_to : ℕ → ℕ → ℕ → Sched → Option Sched
append_to fuel head task s = elim (last_node fuel s.next head) [
  | none ↦ none
  | some cursor ↦ some (link_behind cursor task s)
]

pub reschedule : ℕ → ℕ → Sched → Option Sched
reschedule fuel task s =
    if s.waiting task || ltb s.ms (s.sleep_time task)
    then some s
    else if s.available_tasks == 0
    then some (record s { available_tasks = task })
    else append_to fuel s.available_tasks task s

pub add_waiting_task : ℕ → ℕ → Sched → Option Sched
add_waiting_task fuel task s =
    if s.waiting_tasks == 0
    then some (record s { waiting_tasks = task })
    else append_to fuel s.waiting_tasks task s

pub add_sleeping_task : ℕ → ℕ → Sched → Option Sched
add_sleeping_task fuel task s =
    if s.sleeping_tasks == 0
    then some (record s { sleeping_tasks = task })
    else append_to fuel s.sleeping_tasks task s

-- IP_REG
abbrev pub ip_reg : ℕ
ip_reg = 507

-- An `int32_t` widened to 64 bits.
abbrev pub sign_extend : ℕ → ℕ
sign_extend a = if ltb a (2 ^ 31) then a else a + 2 ^ 64 - 2 ^ 32

-- The part of `schedule` before the queue.
pub prepare : ℕ → ℕ → Sched → Sched
prepare task e_entry s =
    let s' : Sched =
      if s.userp task
      then record s {
        entry = update s.entry task e_entry;
        first_run = update s.first_run task true;
      }
      else record s {
        stack = update s.stack task (update (s.stack task) ip_reg e_entry);
        rsp = update s.rsp task ((s.kstack task + 8 * ip_reg) % 2 ^ 64);
      } in
    record s' { rax = update s'.rax task (sign_extend (s'.pid task)) }

pub schedule : ℕ → ℕ → ℕ → Sched → Option Sched
schedule fuel task e_entry s =
    let s' : Sched = prepare task e_entry s in
    if s'.runnable task then reschedule fuel task s' else some s'

-- `while (p && !wanted) p = p->next;`
pub find_task : ℕ → (ℕ → Bool) → Links → ℕ → Option ℕ
find_task zero wanted next p = none
find_task (suc f) wanted next p =
    let rest : Option ℕ = find_task f wanted next (next p) in
    if p == 0 || wanted p then some p else rest

-- A task leaves the doubly linked queue it stands in; its own links stay.
pub unlink : ℕ → Sched → Sched
unlink t s =
    let s1 : Sched =
      if s.prev t == 0 then s else record s { next = update s.next (s.prev t) (s.next t) } in
    if s1.next t == 0 then s1 else record s1 { prev = update s1.prev (s1.next t) (s1.prev t) }

abbrev pub is_awake : Sched → ℕ → Bool
is_awake s t = leb (s.sleep_time t) s.ms

-- The tests on the available tasks.
abbrev pub is_eligible : Sched → ℕ → Bool
is_eligible s t = s.runnable t && is_awake s t && not (s.waiting t)

abbrev pub take_sleeping : ℕ → Sched → ℕ × Sched
take_sleeping t s =
    let s1 : Sched = unlink t s in
    (
      t,
      if t == s1.sleeping_tasks
          then record s1 { sleeping_tasks = s1.next s1.sleeping_tasks }
          else s1,
    )

abbrev pub take_waiting : ℕ → Sched → ℕ × Sched
take_waiting t s =
    let s1 : Sched = unlink t s in
    (
      t,
      if t == s1.waiting_tasks then record s1 { waiting_tasks = s1.next s1.waiting_tasks } else s1,
    )

pub next_available : ℕ → Sched → Option (ℕ × Sched)
next_available fuel s = elim (find_task fuel (is_eligible s) s.next s.available_tasks) [
  | none ↦ none
  | some t ↦
      if t == 0
      then some (s.idle, record s { available_tasks = 0 })
      else some (t, record s { available_tasks = s.next t })
]

pub next_waiting : ℕ → Sched → Option (ℕ × Sched)
next_waiting fuel s = elim (find_task fuel (λ t. not (s.waiting t)) s.next s.waiting_tasks) [
  | none ↦ none
  | some t ↦ if t == 0 then next_available fuel s else some (take_waiting t s)
]

pub get_next_task : ℕ → Sched → Option (ℕ × Sched)
get_next_task fuel s = elim (find_task fuel (is_awake s) s.next s.sleeping_tasks) [
  | none ↦ none
  | some t ↦ if t == 0 then next_waiting fuel s else some (take_sleeping t s)
]

-- `switch_to`, less the registers and the address space: the previous task goes back to its queue
-- unless it sleeps, and the next one has had its first run.
pub switch_to : ℕ → ℕ → ℕ → Sched → Option Sched
switch_to fuel me next s =
    let started : Sched → Sched = λ (u : Sched).
      if u.userp next && u.first_run next
      then record u { first_run = update u.first_run next false }
      else u in
    if not (me == 0) && leb (s.sleep_time me) s.ms
    then elim (reschedule fuel me s) [ none ↦ none | some u ↦ some (started u) ]
    else some (started s)

pub run_next_task : ℕ → Sched → Option Sched
run_next_task fuel s = elim (get_next_task fuel s) [
  | none ↦ none
  | some (t, u) ↦ switch_to fuel s.current t (record u { current = t })
]

-- `pid_t` is an `int32_t`.
pub get_next_pid : Sched → ℕ × Sched
get_next_pid s = (s.next_pid, record s { next_pid = (s.next_pid + 1) % 2 ^ 32 })
