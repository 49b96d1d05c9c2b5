-- ===== src/Sched/Forked.antt =====
-- What `sys_fork` does to the queue of the available tasks and to the two tasks.
use os.Common.{
  ℕ, ◌+◌, ◌%◌, ◌^◌, ◌≤◌, ◌≡◌, ◌≢◌, refl, sym, ◌∙◌, ap, Bool, true, false, some, List, [], ◌∷◌, ◌++◌,
  ◌==◌, length, ==_self, ==_of_ne, Bool-cases, inl, inr, arith,
}
use mathlib.Core.Path.{subst}
use os.Common.Links.{update, Chain, Chain-update, distinct}
use os.Sched.{Sched, prepare, schedule, sign_extend, reschedule, link_behind, get_next_pid}
use os.Sched.Queue.{Behind, reschedule-Behind}
use os.Sched.Spawn.{copy_task, fork_task, sys_fork}

-- What `prepare` leaves alone.
prepare_same :
    (task e_entry : ℕ) (s : Sched)
    → ((prepare task e_entry s).next ≡ s.next)
      × ((prepare task e_entry s).available_tasks ≡ s.available_tasks)
      × ((prepare task e_entry s).runnable ≡ s.runnable)
      × ((prepare task e_entry s).waiting ≡ s.waiting)
      × ((prepare task e_entry s).sleep_time ≡ s.sleep_time)
      × ((prepare task e_entry s).ms ≡ s.ms)
      × ((prepare task e_entry s).pid ≡ s.pid)
      × ((prepare task e_entry s).parent ≡ s.parent)
      × ((prepare task e_entry s).num_children ≡ s.num_children)
unfolding prepare
prepare_same task e_entry s = elim (Bool-cases (s.userp task)) [
  | inl e ↦ rw e (refl, refl, refl, refl, refl, refl, refl, refl, refl)
  | inr e ↦ rw e (refl, refl, refl, refl, refl, refl, refl, refl, refl)
]

schedule_runnable :
    (fuel task e_entry : ℕ) (s : Sched)
    → s.runnable task ≡ true
    → schedule fuel task e_entry s ≡ reschedule fuel task (prepare task e_entry s)
unfolding schedule
schedule_runnable fuel task e_entry s h = rw ((prepare_same task e_entry s).2, h) refl

module _ (fuel child page fork_ret x : ℕ) (xs : List ℕ) (s : Sched)
    (queue : Chain s.next s.available_tasks (x ∷ xs)) (fresh : distinct (child ∷ x ∷ xs) ≡ true)
    (live : child ≢ 0) (apart : child ≢ s.current) (enough : length (x ∷ xs) ≤ fuel)
    (runs : s.waiting s.current ≡ false) (awake : s.sleep_time s.current ≤ s.ms) where
  abbrev forked : Sched
  forked = fork_task s.current child page fork_ret s

  abbrev ready : Sched
  ready = prepare child (forked.stack s.current 505) forked

  forked_fields :
      (forked.available_tasks ≡ s.available_tasks)
      × (forked.runnable child ≡ true)
      × (forked.waiting child ≡ false)
      × (forked.sleep_time child ≤ forked.ms)
      × (forked.pid child ≡ s.next_pid)
      × (forked.parent child ≡ s.current)
      × (forked.num_children s.current ≡ (s.num_children s.current + 1) % 2 ^ 64)
      × (forked.num_children child ≡ s.num_children s.current)
  unfolding fork_task copy_task get_next_pid
  forked_fields =
      let other : (s.current == child) ≡ false = ==_of_ne s.current child (λ e. apart (sym e)) in
      let other' : (child == s.current) ≡ false = ==_of_ne child s.current apart in
      rw (==_self child, ==_self s.current, other, other')
        (refl, refl, runs, awake, refl, refl, refl, refl)

  forked_queue : Chain forked.next s.available_tasks (x ∷ xs)
  unfolding fork_task copy_task get_next_pid
  forked_queue =
      Chain-update s.next (x ∷ xs) s.available_tasks child (s.next s.current) (ground arith) queue

  -- The child that `prepare` has made ready goes behind the queue.
  queued :
      (y : ℕ) × (reschedule fuel child ready ≡ some (link_behind y child ready))
      × Behind ready ready.available_tasks child (x ∷ xs) (link_behind y child ready)
  queued =
      let keeps = prepare_same child (forked.stack s.current 505) forked in
      let head : ready.available_tasks ≡ s.available_tasks = keeps.1 ∙ forked_fields.0 in
      reschedule-Behind fuel child ready x xs
        (subst (λ (n : ℕ → ℕ). Chain n ready.available_tasks (x ∷ xs)) (sym keeps.0)
          (subst (λ a. Chain forked.next a (x ∷ xs)) (sym head) forked_queue))
        fresh live enough (ap (λ (f : ℕ → Bool). f child) keeps.3 ∙ forked_fields.2)
        (rw (keeps.4, keeps.5) forked_fields.3)

  abbrev after : ℕ → Sched
  after y =
      let behind = link_behind y child ready in
      record behind {
        rax = update behind.rax child 0;
        first_run = update behind.first_run child false;
      }

  -- When a running task forks, other tasks being available, the call returns the next process id;
  -- the child has that id, the caller as its parent, 0 to return and no children counted but the
  -- parent's, and stands behind the available tasks, whose order is kept; the parent has one child
  -- more.
  pub sys_fork-Chain :
      (s' : Sched) × (sys_fork fuel child page fork_ret s ≡ some (sign_extend s.next_pid, s'))
      × Chain s'.next s'.available_tasks (x ∷ xs ++ child ∷ [])
      × (s'.pid child ≡ s.next_pid)
      × (s'.parent child ≡ s.current)
      × (s'.rax child ≡ 0)
      × (s'.runnable child ≡ true)
      × (s'.num_children child ≡ s.num_children s.current)
      × (s'.num_children s.current ≡ (s.num_children s.current + 1) % 2 ^ 64)
  unfolding sys_fork link_behind
  sys_fork-Chain =
      let keeps = prepare_same child (forked.stack s.current 505) forked in
      let f = forked_fields in
      let (y, e, b) = queued in
      let pid : ready.pid child ≡ s.next_pid = ap (λ (g : ℕ → ℕ). g child) keeps.6 ∙ f.4 in
      let head : ready.available_tasks ≡ s.available_tasks = keeps.1 ∙ f.0 in
      rw (schedule_runnable fuel child (forked.stack s.current 505) forked f.1, e, sys_fork)
        (
          after y,
          ap (λ (v : ℕ). some (sign_extend v, after y)) pid,
          b.chain,
          pid,
          ap (λ (g : ℕ → ℕ). g child) keeps.7 ∙ f.5,
          rw (==_self child) refl,
          ap (λ (g : ℕ → Bool). g child) keeps.2 ∙ f.1,
          ap (λ (g : ℕ → ℕ). g child) keeps.8 ∙ f.7,
          ap (λ (g : ℕ → ℕ). g s.current) keeps.8 ∙ f.6,
        )
