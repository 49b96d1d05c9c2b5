-- ===== src/Process/Replaced.antt =====
-- After `sys_execve`: the task that called is available again.
use os.Common.{
  ℕ, ◌<◌, ◌≡◌, ◌≢◌, refl, sym, ◌∙◌, ap, true, some, List, [], ◌∷◌, ◌++◌, ◌==◌, length, inl, inr,
  Bool-cases, ==_of_ne, arith,
}
use mathlib.Core.Path.{subst, fun_ext}
use os.Common.Links.{Chain, update}
use os.Sched.{Sched}
use os.Sched.RoundRobin.{Rotating, run_next_task-Rotating}
use os.Process.{switched, sys_yield}
use os.Process.Execve.{replace_links, take_place, sys_execve}

-- A link that is null already.
update_null : (next : ℕ → ℕ) (q : ℕ) → next q ≡ 0 → update next q 0 ≡ next
update_null next q h = fun_ext (λ p. elim (Bool-cases (p == q)) [
  | inl e ↦ (let same : p ≡ q = ground arith in rw e (sym h ∙ ap next (sym same)))
  | inr e ↦ rw e refl
])

module _ (fuel new_task c t u : ℕ) (s : Sched) (xs : List ℕ) (r : Rotating s c (t ∷ u ∷ xs))
    (made : new_task ≢ 0) (last : s.next new_task ≡ 0) (alone : s.next c ≡ 0)
    (first : s.prev c ≡ 0) where
  abbrev replaced : Sched
  replaced = replace_links s.current (take_place new_task s)

  -- No link changes, since those of both tasks were null.
  same_links : update (update s.next new_task (s.next s.current)) s.current 0 ≡ s.next
  same_links =
      let none_behind : s.next s.current ≡ 0 = ap s.next r.running ∙ alone in
      rw (none_behind, update_null s.next new_task last) (update_null s.next s.current none_behind)

  replaced-Rotating : Rotating replaced c (t ∷ u ∷ xs)
  unfolding replace_links take_place
  replaced-Rotating =
      let head : (s.prev s.current == 0) ≡ true = ground (arith, r.running) in
      rw head (record {
        running = r.running;
        live = r.live;
        chain = subst (λ n. Chain n s.available_tasks (t ∷ u ∷ xs)) (sym same_links) r.chain;
        once = r.once;
        eligible = r.eligible;
        nobody_sleeps = r.nobody_sleeps;
        nobody_waits = r.nobody_waits;
      })

  -- Where the running task has no links and the new one stands last, at least two tasks being
  -- available and nobody asleep or waiting: `sys_execve` switches to the first available task, and
  -- the task that called goes behind the others as one that may run, though it is replaced.
  pub sys_execve_stays :
      length (t ∷ u ∷ xs) < fuel
      → (s' : Sched) × (sys_execve fuel new_task s ≡ some (switched s'))
        × Rotating s' t ((u ∷ xs) ++ c ∷ [])
  unfolding sys_execve sys_yield
  sys_execve_stays enough =
      let (s', e, r') = run_next_task-Rotating fuel c t u replaced xs replaced-Rotating enough in
      (s', rw (==_of_ne new_task 0 made, e, sys_yield, sys_execve) refl, r')
