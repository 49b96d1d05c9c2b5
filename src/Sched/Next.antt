-- ===== src/Sched/Next.antt =====
-- Which task `get_next_task` of sys/schedule.c chooses.
use os.Common.{
  ℕ, zero, suc, ◌<◌, ◌≡◌, refl, ◌≢◌, arith, Bool, true, false, not, some, List, [], ◌∷◌, ◌==◌,
  if◌then◌else◌, length, Bool-cases, inl, inr,
}
use os.Common.Links.{Links, Chain}
use os.Sched.{
  Sched, find_task, get_next_task, next_waiting, next_available, unlink, take_sleeping,
  take_waiting, is_awake, is_eligible,
}

-- The first of the tasks that passes a test, or the null pointer.
abbrev pub first_of_queue : (ℕ → Bool) → List ℕ → ℕ
first_of_queue wanted [] = 0
first_of_queue wanted (x ∷ xs) = if wanted x then x else first_of_queue wanted xs

-- Those behind it.
abbrev pub rest_of_queue : (ℕ → Bool) → List ℕ → List ℕ
rest_of_queue wanted [] = []
rest_of_queue wanted (x ∷ xs) = if wanted x then xs else rest_of_queue wanted xs

module _ (wanted : ℕ → Bool) (next : Links) where
  -- The walk finds it, with fuel for each task and for the end.
  pub find_task-first :
      (xs : List ℕ) (fuel p : ℕ)
      → Chain next p xs
      → length xs < fuel
      → find_task fuel wanted next p ≡ some (first_of_queue wanted xs)
  unfolding find_task
  find_task-first xs zero p c h = absurd (omega arith)
  find_task-first [] (suc f) p c h = ground arith
  find_task-first (x ∷ xs) (suc f) p c h =
      rw c.0 (ground (arith, find_task-first xs f (next x) c.2, c.1))

  -- What stands behind it in the queue.
  pub rest-Chain :
      (xs : List ℕ) (p : ℕ)
      → Chain next p xs
      → first_of_queue wanted xs ≢ 0
      → Chain next (next (first_of_queue wanted xs)) (rest_of_queue wanted xs)
  rest-Chain [] p c nz = absurd (nz refl)
  rest-Chain (x ∷ xs) p c nz = elim (Bool-cases (wanted x)) [
    | inl e ↦ rw e c.2
    | inr e ↦ rw e (rest-Chain xs (next x) c.2 (rw e at nz))
  ]

  pub first_of_queue-wanted :
      (xs : List ℕ) → first_of_queue wanted xs ≢ 0 → wanted (first_of_queue wanted xs) ≡ true
  first_of_queue-wanted [] nz = absurd (nz refl)
  first_of_queue-wanted (x ∷ xs) nz = elim (Bool-cases (wanted x)) [
    | inl e ↦ rw e e
    | inr e ↦ rw e (first_of_queue-wanted xs (rw e at nz))
  ]

-- The three queues, as lists.
pub record Queues (s : Sched) (sleeping waiting available : List ℕ) : Type 0 where
  pub asleep : Chain s.next s.sleeping_tasks sleeping
  pub blocked : Chain s.next s.waiting_tasks waiting
  pub ready : Chain s.next s.available_tasks available

-- A sleeper whose time has come goes first, then a waiting task that has been woken, then the first
-- available task that may run; with none of them, the idle task.
abbrev pub choice : Sched → List ℕ → List ℕ → List ℕ → ℕ
choice s sleeping waiting available =
    let a : ℕ = first_of_queue (is_awake s) sleeping in
    let b : ℕ = first_of_queue (λ t. not (s.waiting t)) waiting in
    let c : ℕ = first_of_queue (is_eligible s) available in
    if not (a == 0) then a else if not (b == 0) then b else if not (c == 0) then c else s.idle

module _ (fuel : ℕ) (s : Sched) (sleeping waiting available : List ℕ)
    (q : Queues s sleeping waiting available) (f1 : length sleeping < fuel)
    (f2 : length waiting < fuel) (f3 : length available < fuel) where
  next_available-choice :
      (s' : Sched) × (let c : ℕ = first_of_queue (is_eligible s) available in
        (next_available fuel s ≡ some ((if not (c == 0) then c else s.idle), s')))
  unfolding next_available
  next_available-choice =
      let c : ℕ = first_of_queue (is_eligible s) available in
      let e = find_task-first (is_eligible s) s.next available fuel s.available_tasks q.ready f3 in
      elim (Bool-cases (c == 0)) [
        | inl z ↦ (record s { available_tasks = 0 }, rw (next_available, e, z) refl)
        | inr z ↦ (record s { available_tasks = s.next c }, rw (next_available, e, z) refl)
      ]

  -- `get_next_task` ends and makes that choice.
  pub get_next_task-choice :
      (s' : Sched) × (get_next_task fuel s ≡ some (choice s sleeping waiting available, s'))
  unfolding get_next_task next_waiting
  get_next_task-choice =
      let a : ℕ = first_of_queue (is_awake s) sleeping in
      let b : ℕ = first_of_queue (λ t. not (s.waiting t)) waiting in
      let e1 = find_task-first (is_awake s) s.next sleeping fuel s.sleeping_tasks q.asleep f1 in
      let e2 =
        find_task-first (λ t. not (s.waiting t)) s.next waiting fuel s.waiting_tasks q.blocked f2 in
      let (s', e3) = next_available-choice in
      elim (Bool-cases (a == 0)) [
        | inl za ↦ elim (Bool-cases (b == 0)) [
          | inl zb ↦ (s', rw (get_next_task, e1, za, next_waiting, e2, zb) e3)
          | inr zb ↦ ((take_waiting b s).1, rw (get_next_task, e1, za, next_waiting, e2, zb) refl)
        ]
        | inr za ↦ ((take_sleeping a s).1, rw (get_next_task, e1, za) refl)
      ]

-- A sleeper that is found is taken.
pub get_next_task-sleeper :
    (fuel t : ℕ) (s : Sched)
    → find_task fuel (is_awake s) s.next s.sleeping_tasks ≡ some t
    → t ≢ 0
    → get_next_task fuel s ≡ some (take_sleeping t s)
unfolding get_next_task
get_next_task-sleeper fuel t s found live =
    let nz : (t == 0) ≡ false = ground arith in rw (get_next_task, found, nz) refl

unlink_keeps : (t : ℕ) (s : Sched) → (unlink t s).available_tasks ≡ s.available_tasks
unfolding unlink
unlink_keeps t s = ground arith

-- The available queue is none of its business.
pub take_sleeping_keeps :
    (t : ℕ) (s : Sched) → (take_sleeping t s).1.available_tasks ≡ s.available_tasks
take_sleeping_keeps t s = ground (arith, unlink_keeps t s)
