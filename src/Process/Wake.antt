-- ===== src/Process/Wake.antt =====
-- Waiting for a child and its exit, sys/syscall_handler.c.
use os.Common.{
  ℕ, ◌+◌, ◌-◌, ◌%◌, ◌^◌, ◌≤◌, ◌<◌, ◌≡◌, refl, ◌≢◌, ◌∙◌, ap, arith, Bool, true, false, not, none,
  some, List, [], ◌∷◌, ◌==◌, if◌then◌else◌, length, has, Bool-cases, inl, inr,
}
use os.Common.Int.{minus_one}
use os.Common.Links.{update, distinct}
use os.Sched.{Sched, is_awake, take_waiting, sign_extend}
use os.Sched.Next.{Queues, first_of_queue, find_task-first}
use os.Sched.Taken.{get_next_task_waiting, take_waiting-Left, run_next_task-Runs}
use os.Process.{returned, switched, sys_yield, sys_wait4, notify_parent, sys_exit, waits_for}

-- A task without children does not wait: the call fails, says so through the status pointer, and
-- changes nothing.
pub sys_wait4_childless :
    (fuel pid status : ℕ) (s : Sched)
    → s.num_children s.current ≡ 0
    → sys_wait4 fuel pid status s
      ≡ some ((if status == 0 then none else some minus_one), returned minus_one s)
unfolding sys_wait4
sys_wait4_childless fuel pid status s z = ground arith

-- What the exit of a task does to its parent.
pub record Woken (s s' : Sched) (p : ℕ) : Type 0 where
  pub released : s'.waiting p ≡ false
  pub result : s'.rax p ≡ sign_extend (s.pid s.current)
  pub fewer : s'.num_children p ≡ s.num_children p - 1
  pub others : (q : ℕ) → q ≢ p → s'.waiting q ≡ s.waiting q

-- A parent that waits for the child, or for any, is released with the child's pid.
pub notify_parent-Woken :
    (s : Sched)
    → s.parent s.current ≢ 0
    → waits_for s (s.parent s.current) s.current ≡ true
    → 0 < s.num_children (s.parent s.current)
    → s.num_children (s.parent s.current) < 2 ^ 64
    → Woken s (notify_parent s) (s.parent s.current)
unfolding notify_parent
notify_parent-Woken s live w some_ small =
    let nz : (s.parent s.current == 0) ≡ false = ground arith in
    record {
      released = rw (nz, w) (ground arith);
      result = rw (nz, w) (ground arith);
      fewer = rw (nz, w) (ground arith);
      others = λ q ne. rw (nz, w) (ground arith);
    }

-- The first woken task of a queue in which only one is woken.
first_of_queue-only :
    (w : ℕ → Bool) (p : ℕ) (xs : List ℕ)
    → has p xs ≡ true
    → w p ≡ true
    → ((q : ℕ) → q ≢ p → has q xs ≡ true → w q ≡ false)
    → first_of_queue w xs ≡ p
first_of_queue-only w p [] i e only = cc
first_of_queue-only w p (x ∷ xs) i e only = elim (Bool-cases (x == p)) [
  | inl here ↦ let z : x ≡ p = ground arith in rw (z, e)
  | inr there ↦
      let z : w x ≡ false = only x (ground arith) (ground arith) in
      rw z (first_of_queue-only w p xs (ground arith) e (λ q ne j. only q ne (ground arith)))
]

-- When a running task exits whose parent stands in the waiting queue for it, or for any child, nobody
-- sleeps and no other waiting task has been woken, then `sys_exit`, with fuel for the queues, switches
-- to the parent, whose result is the pid of the child. The task in front of the parent is not an
-- available one, and the task that exits stands in no queue.
pub sys_exit_runs_parent :
    (fuel : ℕ) (s : Sched) (waiting available : List ℕ)
    → Queues s [] waiting available
    → length waiting < fuel
    → length available < fuel
    → s.current ≢ 0
    → s.parent s.current ≢ 0
    → s.parent s.current ≢ s.current
    → waits_for s (s.parent s.current) s.current ≡ true
    → has (s.parent s.current) waiting ≡ true
    → ((q : ℕ) → q ≢ s.parent s.current → has q waiting ≡ true → s.waiting q ≡ true)
    → has (s.prev (s.parent s.current)) available ≡ false
    → distinct (s.current ∷ available) ≡ true
    → s.waiting s.current ≡ false
    → s.sleep_time s.current ≤ s.ms
    → (s' : Sched) × (sys_exit fuel s ≡ some (switched s'))
      × (s'.current ≡ s.parent s.current)
      × (s'.rax (s.parent s.current) ≡ sign_extend (s.pid s.current))
unfolding sys_exit notify_parent sys_yield
sys_exit_runs_parent fuel s waiting available q f1 f2 running live other w i others front once up
      awake =
    let p : ℕ = s.parent s.current in
    let nz : (p == 0) ≡ false = ground arith in
    let e : Sched = record s {
      runnable = update s.runnable s.current false;
      waiting = update s.waiting p false;
      rax = update s.rax p (sign_extend (s.pid s.current));
      num_children = update s.num_children p ((s.num_children p + 2 ^ 64 - 1) % 2 ^ 64);
    } in
    let same : notify_parent (record s { runnable = update s.runnable s.current false }) ≡ e =
      rw (nz, w) refl in
    let first : first_of_queue (λ t. not (e.waiting t)) waiting ≡ p =
      first_of_queue-only (λ t. not (e.waiting t)) p waiting i (ground arith)
        (λ k ne j. ground (arith, others k ne j)) in
    let g =
      get_next_task_waiting fuel p e
        (find_task-first (is_awake e) s.next [] fuel s.sleeping_tasks q.asleep (omega arith))
        (find_task-first (λ t. not (e.waiting t)) s.next waiting fuel s.waiting_tasks q.blocked f1
          ∙ ap some first)
        live in
    let (s', run, r) =
      run_next_task-Runs fuel p e (take_waiting p e).1 available g (take_waiting-Left p e) running
        q.ready front once f2 (ground (arith, up)) awake in
    (s', rw (same, sys_yield, run) refl, r.current, ap (λ (f : ℕ → ℕ). f p) r.rax ∙ ground arith)
