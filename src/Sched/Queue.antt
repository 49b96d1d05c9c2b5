-- ===== src/Sched/Queue.antt =====
-- Putting a task behind a queue of sys/schedule.c.
use mathlib.Core.Path.{subst}
use mathlib.Core.List.{append_assoc}
use os.Common.{
  ℕ, ◌≤◌, ◌≡◌, refl, ◌≢◌, ap, sym, arith, true, false, some, List, [], ◌∷◌, ◌++◌, ltb, ◌==◌, length,
  length-append, has, has-append,
}
use os.Common.Links.{last_node, Chain, distinct, Chain-snoc, last_node-Chain}
use os.Sched.{Sched, link_behind, append_to, reschedule, add_sleeping_task}

-- A list that is not empty has a last element.
pub last-split :
    (x : ℕ) (xs : List ℕ) → (front : List ℕ) × (last : ℕ) × (x ∷ xs ≡ front ++ last ∷ [])
last-split x [] = ([], x, refl)
last-split x (y ∷ ys) =
    let (front, last, e) = last-split y ys in (x ∷ front, last, ap (λ l. x ∷ l) e)

-- `s'` is `s` with `task` behind the queue `xs` at `head`: the order of the others is kept, the new
-- task's back link is the task that was last, and no link of a task outside the queue is changed.
pub record Behind (s : Sched) (head task : ℕ) (xs : List ℕ) (s' : Sched) : Type 0 where
  pub chain : Chain s'.next head (xs ++ task ∷ [])
  pub link : s'.next (s'.prev task) ≡ task
  pub others : (q : ℕ) → has q (task ∷ xs) ≡ false → s'.next q ≡ s.next q

module _ (fuel task head : ℕ) (s : Sched) where
  -- That a task can be put behind a queue.
  abbrev Appends : List ℕ → Type 0
  Appends xs =
      Chain s.next head xs
      → distinct (task ∷ xs) ≡ true
      → task ≢ 0
      → length xs ≤ fuel
      → (y : ℕ) × (append_to fuel head task s ≡ some (link_behind y task s))
        × Behind s head task xs (link_behind y task s)

  append_snoc : (front : List ℕ) (y : ℕ) → Appends (front ++ y ∷ [])
  unfolding link_behind
  append_snoc front y c d nz enough =
      let found : last_node fuel s.next head ≡ some y =
        last_node-Chain s.next front fuel head y c (omega (arith, length-append front (y ∷ []))) in
      let out : has task (front ++ y ∷ []) ≡ false = ground arith in
      (
        y,
        rw (append_to, found),
        record {
          chain = rw append_assoc (Chain-snoc s.next front head y task c out (ground arith) nz);
          link = ground (arith, has-append task front (y ∷ []));
          others = λ q far. ground (arith, has-append q front (y ∷ []));
        },
      )

  -- Behind an occupied queue, with fuel for each of its tasks.
  pub append_to-Behind : (x : ℕ) (xs : List ℕ) → Appends (x ∷ xs)
  append_to-Behind x xs =
      let (front, y, e) = last-split x xs in subst Appends (sym e) (append_snoc front y)

-- A task that neither waits nor sleeps goes behind the available tasks, whether it is runnable or
-- not; the queue keeps its order.
pub reschedule-Behind :
    (fuel task : ℕ) (s : Sched) (x : ℕ) (xs : List ℕ)
    → Chain s.next s.available_tasks (x ∷ xs)
    → distinct (task ∷ x ∷ xs) ≡ true
    → task ≢ 0
    → length (x ∷ xs) ≤ fuel
    → s.waiting task ≡ false
    → s.sleep_time task ≤ s.ms
    → (y : ℕ) × (reschedule fuel task s ≡ some (link_behind y task s))
      × Behind s s.available_tasks task (x ∷ xs) (link_behind y task s)
unfolding reschedule
reschedule-Behind fuel task s x xs c d nz enough w a =
    let (y, e, b) = append_to-Behind fuel task s.available_tasks s x xs c d nz enough in
    let awake : ltb s.ms (s.sleep_time task) ≡ false = ground arith in
    let live : (s.available_tasks == 0) ≡ false = ground (arith, c) in
    (y, simp (w, awake, live) e, b)

-- An empty queue takes the task with whatever still stands behind it: the links that the task keeps
-- from its last queue are not reset, so the tasks on them are available again.
pub reschedule_stale :
    (fuel task : ℕ) (s : Sched) (stale : List ℕ)
    → s.available_tasks ≡ 0
    → task ≢ 0
    → s.waiting task ≡ false
    → s.sleep_time task ≤ s.ms
    → Chain s.next (s.next task) stale
    → let s' : Sched = record s { available_tasks = task } in
      (reschedule fuel task s ≡ some s') × Chain s'.next s'.available_tasks (task ∷ stale)
unfolding reschedule
reschedule_stale fuel task s stale empty nz w a c =
    let awake : ltb s.ms (s.sleep_time task) ≡ false = ground arith in
    let none_ : (s.available_tasks == 0) ≡ true = ground arith in
    (simp (w, awake, none_) refl, (refl, nz, c))

-- The same of the sleeping queue: it takes the task with the links that it has.
pub add_sleeping_task_empty :
    (fuel task : ℕ) (s : Sched)
    → s.sleeping_tasks ≡ 0
    → add_sleeping_task fuel task s ≡ some (record s { sleeping_tasks = task })
unfolding add_sleeping_task
add_sleeping_task_empty fuel task s z = ground arith
