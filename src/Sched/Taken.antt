-- ===== src/Sched/Taken.antt =====
-- What the scheduler leaves when it takes a task that waited, `get_next_task` and `switch_to` of
-- sys/schedule.c.
use os.Common.{
  ℕ, Bool, ◌≤◌, ◌<◌, ◌≡◌, refl, ◌≢◌, ◌∙◌, ap, sym, arith, true, false, not, ◌&&◌, some, List, [],
  ◌∷◌, leb, ltb, ◌==◌, length, has, Bool-cases, inl, inr,
}
use mathlib.Core.Path.{subst}
use os.Common.Links.{update, Chain, distinct, Chain-update}
use os.Sched.{
  Sched, find_task, get_next_task, next_waiting, unlink, take_waiting, is_awake, reschedule,
  link_behind, switch_to, run_next_task,
}
use os.Sched.Queue.{reschedule-Behind}
use os.Sched.RoundRobin.{after_switch}

-- The fields that taking the task `t` from its queue leaves, and the queues that it leaves.
pub record Left (s : Sched) (t : ℕ) (u : Sched) : Type 0 where
  pub rax : u.rax ≡ s.rax
  pub waiting : u.waiting ≡ s.waiting
  pub sleep_time : u.sleep_time ≡ s.sleep_time
  pub ms : u.ms ≡ s.ms
  pub available : u.available_tasks ≡ s.available_tasks
  pub chains :
      (xs : List ℕ) (p : ℕ) → has (s.prev t) xs ≡ false → Chain s.next p xs → Chain u.next p xs

unlink-Left : (t : ℕ) (s : Sched) → Left s t (unlink t s)
unfolding unlink
unlink-Left t s = elim (Bool-cases (s.prev t == 0)) [
  | inl a ↦ elim (Bool-cases (s.next t == 0)) [
    | inl b ↦
        rw (a, b)
          (record {
            rax = refl;
            waiting = refl;
            sleep_time = refl;
            ms = refl;
            available = refl;
            chains = λ xs p h c. c;
          })
    | inr b ↦
        rw (a, b)
          (record {
            rax = refl;
            waiting = refl;
            sleep_time = refl;
            ms = refl;
            available = refl;
            chains = λ xs p h c. c;
          })
  ]
  | inr a ↦
      rw a
        (elim (Bool-cases ((record s { next = update s.next (s.prev t) (s.next t) }).next t == 0)) [
          | inl b ↦ rw b (record {
            rax = refl;
            waiting = refl;
            sleep_time = refl;
            ms = refl;
            available = refl;
            chains = λ xs p h c. Chain-update s.next xs p (s.prev t) (s.next t) h c;
          })
          | inr b ↦ rw b (record {
            rax = refl;
            waiting = refl;
            sleep_time = refl;
            ms = refl;
            available = refl;
            chains = λ xs p h c. Chain-update s.next xs p (s.prev t) (s.next t) h c;
          })
        ])
]

pub take_waiting-Left : (t : ℕ) (s : Sched) → Left s t (take_waiting t s).1
take_waiting-Left t s =
    let l = unlink-Left t s in
    elim (Bool-cases (t == (unlink t s).waiting_tasks)) [
      | inl a ↦ rw a (record {
        rax = l.rax;
        waiting = l.waiting;
        sleep_time = l.sleep_time;
        ms = l.ms;
        available = l.available;
        chains = l.chains;
      })
      | inr a ↦ rw a l
    ]

-- A waiting task that is found is taken, when no sleeper is.
pub get_next_task_waiting :
    (fuel t : ℕ) (s : Sched)
    → find_task fuel (is_awake s) s.next s.sleeping_tasks ≡ some 0
    → find_task fuel (λ u. not (s.waiting u)) s.next s.waiting_tasks ≡ some t
    → t ≢ 0
    → get_next_task fuel s ≡ some (t, (take_waiting t s).1)
unfolding get_next_task next_waiting
get_next_task_waiting fuel t s e1 e2 live =
    let nz : (t == 0) ≡ false = ground (arith, live) in
    rw (get_next_task, e1, next_waiting, e2, nz) refl

-- The task `t` runs, with the results as they were.
pub record Runs (t : ℕ) (u : Sched) (s' : Sched) : Type 0 where
  pub current : s'.current ≡ t
  pub rax : s'.rax ≡ u.rax

after_switch-Runs : (t : ℕ) (u v : Sched) → Runs t u v → Runs t u (after_switch v t)
after_switch-Runs t u v r = elim (Bool-cases (v.userp t && v.first_run t)) [
  | inl e ↦ rw e (record { current = r.current; rax = r.rax })
  | inr e ↦ rw e r
]

-- Putting a task that is awake behind the available ones.
reschedule-Runs :
    (fuel me t : ℕ) (u : Sched) (xs : List ℕ)
    → u.current ≡ t
    → Chain u.next u.available_tasks xs
    → distinct (me ∷ xs) ≡ true
    → length xs < fuel
    → me ≢ 0
    → u.waiting me ≡ false
    → u.sleep_time me ≤ u.ms
    → (v : Sched) × (reschedule fuel me u ≡ some v) × Runs t u v
unfolding reschedule link_behind
reschedule-Runs fuel me t u [] cur c d enough live w awake =
    let late : ltb u.ms (u.sleep_time me) ≡ false = ground arith in
    let none_ : (u.available_tasks == 0) ≡ true = ground (arith, c) in
    (
      record u { available_tasks = me },
      rw (w, late, none_) refl,
      record { current = cur; rax = refl },
    )
reschedule-Runs fuel me t u (x ∷ xs) cur c d enough live w awake =
    let (y, e, b) = reschedule-Behind fuel me u x xs c d live (omega arith) w awake in
    (link_behind y me u, e, record { current = cur; rax = refl })

-- The switch to a task that has been taken from its queue ends: it runs, with the results as they
-- were.
pub run_next_task-Runs :
    (fuel t : ℕ) (s u : Sched) (xs : List ℕ)
    → get_next_task fuel s ≡ some (t, u)
    → Left s t u
    → s.current ≢ 0
    → Chain s.next s.available_tasks xs
    → has (s.prev t) xs ≡ false
    → distinct (s.current ∷ xs) ≡ true
    → length xs < fuel
    → s.waiting s.current ≡ false
    → s.sleep_time s.current ≤ s.ms
    → (s' : Sched) × (run_next_task fuel s ≡ some s') × Runs t s s'
unfolding run_next_task switch_to
run_next_task-Runs fuel t s u xs e l live c out d enough w awake =
    let me = s.current in
    let (v, e1, r) =
      reschedule-Runs fuel me t (record u { current = t }) xs refl
        (subst (λ p. Chain u.next p xs) (sym l.available) (l.chains xs s.available_tasks out c)) d
        enough live (ap (λ (f : ℕ → Bool). f me) l.waiting ∙ w)
        (omega (arith, awake, ap (λ (f : ℕ → ℕ). f me) l.sleep_time, l.ms)) in
    let r' : Runs t s v = record { current = r.current; rax = r.rax ∙ l.rax } in
    let on : (not (me == 0) && leb (u.sleep_time me) u.ms) ≡ true =
      ground (arith, live, awake, ap (λ (f : ℕ → ℕ). f me) l.sleep_time, l.ms) in
    (after_switch v t, rw (run_next_task, e, switch_to, on, e1) refl, after_switch-Runs t s v r')
