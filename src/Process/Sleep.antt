-- ===== src/Process/Sleep.antt =====
-- `sys_sleep` of sys/syscall_handler.c, and what the scheduler does with a sleeper.
use mathlib.Core.Path.{subst}
use os.Common.{
  ℕ, ◌+◌, ◌%◌, ◌^◌, ◌≤◌, ◌<◌, ◌≡◌, refl, ◌≢◌, ◌∙◌, ap, arith, true, false, not, some, List, ◌∷◌,
  ◌==◌, length, Bool-cases, inl, inr, ◌⊎◌,
}
use os.Common.Int.{pos}
use os.Common.Links.{update, Chain}
use os.Sched.{Sched, get_next_task, find_task, take_sleeping, is_awake, is_eligible}
use os.Sched.Next.{
  Queues, choice, first_of_queue, first_of_queue-wanted, find_task-first, get_next_task-choice,
  get_next_task-sleeper, take_sleeping_keeps,
}
use os.Sched.Queue.{add_sleeping_task_empty}
use os.Process.{returned, sys_sleep}

-- What the scheduler chooses may run: the idle task, a sleeper whose time has come, a waiting task
-- that has been woken, or an available task that is runnable, awake and not waiting.
pub choice-may_run :
    (s : Sched) (sleeping waiting available : List ℕ)
    → let t = choice s sleeping waiting available in
      (t ≡ s.idle) ⊎ (is_awake s t ≡ true) ⊎ (s.waiting t ≡ false)
choice-may_run s sleeping waiting available =
    let a : ℕ = first_of_queue (is_awake s) sleeping in
    let b : ℕ = first_of_queue (λ t. not (s.waiting t)) waiting in
    let c : ℕ = first_of_queue (is_eligible s) available in
    elim (Bool-cases (a == 0)) [
      | inl za ↦ elim (Bool-cases (b == 0)) [
        | inl zb ↦ elim (Bool-cases (c == 0)) [
          | inl zc ↦ rw (za, zb, zc) (inl refl)
          | inr zc ↦
              let w : is_eligible s c ≡ true =
                first_of_queue-wanted (is_eligible s) s.next available (ground arith) in
              rw (za, zb, zc) (inr (inl (ground arith)))
        ]
        | inr zb ↦
            let w : not (s.waiting b) ≡ true =
              first_of_queue-wanted (λ t. not (s.waiting t)) s.next waiting (ground arith) in
            rw (za, zb) (inr (inr (ground arith)))
      ]
      | inr za ↦
          let w : is_awake s a ≡ true =
            first_of_queue-wanted (is_awake s) s.next sleeping (ground arith) in
          rw za (inr (inl w))
    ]

-- `get_next_task` ends, and the task that it chooses may run: it is the idle task, or its time has
-- come, or it does not wait.
pub get_next_task_may_run :
    (fuel : ℕ) (s : Sched) (sleeping waiting available : List ℕ)
    → Queues s sleeping waiting available
    → length sleeping < fuel
    → length waiting < fuel
    → length available < fuel
    → (t : ℕ) × (s' : Sched) × (get_next_task fuel s ≡ some (t, s'))
      × ((t ≡ s.idle) ⊎ (is_awake s t ≡ true) ⊎ (s.waiting t ≡ false))
get_next_task_may_run fuel s sleeping waiting available q f1 f2 f3 =
    let (s', e) = get_next_task-choice fuel s sleeping waiting available q f1 f2 f3 in
    (choice s sleeping waiting available, s', e, choice-may_run s sleeping waiting available)

-- A task that sleeps while the sleeping queue is empty takes the available tasks with it, since its
-- own link still leads to them: the scheduler then picks the first available task as if it had
-- slept, and leaves it at the head of the available queue while it runs.
pub sys_sleep_shares_queue :
    (fuel msec t : ℕ) (s : Sched) (rest : List ℕ)
    → s.sleeping_tasks ≡ 0
    → s.current ≢ 0
    → s.available_tasks ≡ s.next s.current
    → Chain s.next s.available_tasks (t ∷ rest)
    → t ≢ s.current
    → s.sleep_time t ≤ s.ms
    → 0 < msec
    → s.ms + msec < 2 ^ 64
    → length rest + 2 < fuel
    → (s1 s2 : Sched) × (sys_sleep fuel msec s ≡ some (returned (pos 0) s1))
      × (get_next_task fuel s1 ≡ some (t, s2))
      × (s2.available_tasks ≡ t)
unfolding sys_sleep
sys_sleep_shares_queue fuel msec t s rest empty live link c ne awake pos_ small enough =
    let s0 : Sched = record s {
      sleep_time = update s.sleep_time s.current ((s.ms + msec) % 2 ^ 64);
    } in
    let s1 : Sched = record s0 { sleeping_tasks = s.current } in
    let chain : Chain s.next s.current (s.current ∷ t ∷ rest) =
      (refl, live, subst (λ k. Chain s.next k (t ∷ rest)) link c) in
    let late : is_awake s1 s.current ≡ false = ground arith in
    let early : is_awake s1 t ≡ true = ground arith in
    let found : find_task fuel (is_awake s1) s.next s.current ≡ some t =
      find_task-first (is_awake s1) s.next (s.current ∷ t ∷ rest) fuel s.current chain (omega arith)
      ∙ ap some (rw (late, early) refl) in
    (
      s1,
      (take_sleeping t s1).1,
      rw (sys_sleep, add_sleeping_task_empty fuel s.current s0 empty) refl,
      get_next_task-sleeper fuel t s1 found c.1,
      take_sleeping_keeps t s1 ∙ c.0,
    )
