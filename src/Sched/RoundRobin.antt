-- ===== src/Sched/RoundRobin.antt =====
-- Switching among available tasks, `run_next_task` of sys/schedule.c.
use os.Common.{
  ℕ, zero, suc, ◌<◌, ◌≡◌, refl, ◌≢◌, ◌∙◌, ap, arith, Bool, true, false, not, ◌&&◌, Option, none,
  some, List, [], ◌∷◌, ◌++◌, leb, ◌==◌, if◌then◌else◌, length, length-append, get_or, has,
  has-append, Bool-cases, inl, inr,
}
use os.Common.Links.{Links, update, Chain, distinct, distinct-snoc}
use os.Sched.{
  Sched, link_behind, find_task, get_next_task, next_waiting, next_available, switch_to,
  run_next_task, is_awake, is_eligible,
}
use os.Sched.Queue.{reschedule-Behind}
use os.Sched.Next.{find_task-first}

-- The current task and the available ones may all run, nobody sleeps or waits, and the queue is
-- well formed.
pub record Rotating (s : Sched) (c : ℕ) (xs : List ℕ) : Type 0 where
  pub running : s.current ≡ c
  pub live : c ≢ 0
  pub chain : Chain s.next s.available_tasks xs
  pub once : distinct (c ∷ xs) ≡ true
  pub eligible : (t : ℕ) → has t (c ∷ xs) ≡ true → is_eligible s t ≡ true
  pub nobody_sleeps : s.sleeping_tasks ≡ 0
  pub nobody_waits : s.waiting_tasks ≡ 0

find_task-null :
    (fuel : ℕ) (wanted : ℕ → Bool) (next : Links) → 0 < fuel → find_task fuel wanted next 0 ≡ some 0
find_task-null fuel wanted next h = find_task-first wanted next [] fuel 0 refl h

-- The choice, when nobody sleeps or waits.
get_next_task-head :
    (fuel c t : ℕ) (s : Sched) (xs : List ℕ)
    → Rotating s c (t ∷ xs)
    → length (t ∷ xs) < fuel
    → get_next_task fuel s ≡ some (t, record s { available_tasks = s.next t })
unfolding get_next_task next_waiting next_available
get_next_task-head fuel c t s xs r h =
    let e1 : find_task fuel (is_awake s) s.next s.sleeping_tasks ≡ some 0 =
      ap (find_task fuel (is_awake s) s.next) r.nobody_sleeps
      ∙ find_task-null fuel (is_awake s) s.next (omega arith) in
    let e2 : find_task fuel (λ u. not (s.waiting u)) s.next s.waiting_tasks ≡ some 0 =
      ap (find_task fuel (λ u. not (s.waiting u)) s.next) r.nobody_waits
      ∙ find_task-null fuel (λ u. not (s.waiting u)) s.next (omega arith) in
    let ok : is_eligible s t ≡ true = r.eligible t (ground arith) in
    let e3 : find_task fuel (is_eligible s) s.next s.available_tasks ≡ some t =
      find_task-first (is_eligible s) s.next (t ∷ xs) fuel s.available_tasks r.chain h
      ∙ ap some (rw ok) in
    let nz : (t == 0) ≡ false = ground (arith, r.chain.1) in
    rw (get_next_task, e1, next_waiting, e2, next_available, e3, nz)

abbrev pub after_switch : Sched → ℕ → Sched
after_switch u t =
    if u.userp t && u.first_run t then record u { first_run = update u.first_run t false } else u

after_switch-Rotating :
    (s : Sched) (t : ℕ) (xs : List ℕ) → Rotating s t xs → Rotating (after_switch s t) t xs
after_switch-Rotating s t xs r = elim (Bool-cases (s.userp t && s.first_run t)) [
  | inl e ↦ rw e (record {
    running = r.running;
    live = r.live;
    chain = r.chain;
    once = r.once;
    eligible = r.eligible;
    nobody_sleeps = r.nobody_sleeps;
    nobody_waits = r.nobody_waits;
  })
  | inr e ↦ rw e r
]

-- With at least two other tasks, a switch runs the first of them, and the task that ran goes behind
-- the others: plain round robin.
pub run_next_task-Rotating :
    (fuel c t u : ℕ) (s : Sched) (xs : List ℕ)
    → Rotating s c (t ∷ u ∷ xs)
    → length (t ∷ u ∷ xs) < fuel
    → (s' : Sched) × (run_next_task fuel s ≡ some s') × Rotating s' t ((u ∷ xs) ++ c ∷ [])
unfolding run_next_task switch_to link_behind
run_next_task-Rotating fuel c t u s xs r h =
    let s1 : Sched = record s { available_tasks = s.next t; current = t } in
    let g = get_next_task-head fuel c t s (u ∷ xs) r h in
    let cur : s.current ≡ c = r.running in
    let ok : is_eligible s c ≡ true = r.eligible c (ground arith) in
    let nz : (c == 0) ≡ false = ground (arith, r.live) in
    let awake : leb (s.sleep_time c) s.ms ≡ true = ground arith in
    let (y, e, b) =
      reschedule-Behind fuel c s1 u xs r.chain.2 (ground (arith, r.once)) r.live (omega arith)
        (ground arith) (ground arith) in
    let s2 : Sched = link_behind y c s1 in
    (
      after_switch s2 t,
      rw (run_next_task, g)
          (ap (λ k. switch_to fuel k t s1) cur ∙ rw (switch_to, nz, awake, e) refl),
      after_switch-Rotating s2 t ((u ∷ xs) ++ c ∷ []) (record {
        running = refl;
        live = r.chain.1;
        chain = b.chain;
        once = ground (arith, r.once, distinct-snoc (t ∷ u ∷ xs) c);
        eligible = λ k i. r.eligible k (ground (arith, has-append k (u ∷ xs) (c ∷ [])));
        nobody_sleeps = r.nobody_sleeps;
        nobody_waits = r.nobody_waits;
      }),
    )

-- A number of switches in turn.
pub switches : ℕ → ℕ → Sched → Option Sched
switches fuel zero s = some s
switches fuel (suc k) s = elim (run_next_task fuel s) [ none ↦ none | some s' ↦ switches fuel k s' ]

get_or-append : (xs ys : List ℕ) (k : ℕ) → k < length xs → get_or (xs ++ ys) k 0 ≡ get_or xs k 0
get_or-append [] ys k h = absurd (omega arith)
get_or-append (x ∷ xs) ys zero h = refl
get_or-append (x ∷ xs) ys (suc k) h = get_or-append xs ys k (omega arith)

-- No task starves: with at least two tasks available, the task at place `k` of the queue runs after
-- `k + 1` switches, and none of the switches fails.
pub switches-fair :
    (fuel k c : ℕ) (s : Sched) (xs : List ℕ)
    → Rotating s c xs
    → 1 < length xs
    → length xs < fuel
    → k < length xs
    → (s' : Sched) × (switches fuel (suc k) s ≡ some s') × (s'.current ≡ get_or xs k 0)
unfolding switches
switches-fair fuel k c s [] r two enough inside = absurd (omega arith)
switches-fair fuel k c s (t ∷ []) r two enough inside = absurd (omega arith)
switches-fair fuel zero c s (t ∷ u ∷ xs) r two enough inside =
    let (s1, e, r1) = run_next_task-Rotating fuel c t u s xs r enough in
    (s1, rw (switches, e) refl, r1.running)
switches-fair fuel (suc k) c s (t ∷ u ∷ xs) r two enough inside =
    let (s1, e, r1) = run_next_task-Rotating fuel c t u s xs r enough in
    let l : length ((u ∷ xs) ++ c ∷ []) ≡ length (t ∷ u ∷ xs) =
      omega (arith, length-append xs (c ∷ [])) in
    let (s2, e2, cur) =
      switches-fair fuel k t s1 ((u ∷ xs) ++ c ∷ []) r1 (omega arith) (omega arith) (omega arith) in
    (s2, rw (switches, e) e2, cur ∙ get_or-append (u ∷ xs) (c ∷ []) k (omega arith))
