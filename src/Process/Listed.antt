-- ===== src/Process/Listed.antt =====
-- `sys_ps`: which tasks it lists, and in which order.
use os.Common.{
  ℕ, zero, suc, ◌<◌, ◌≡◌, ◌≢◌, refl, sym, ap, Option, some, List, [], ◌∷◌, ◌++◌, ==_of_ne, length,
  arith, ◌>>=◌, bind_assoc, ◌∙◌,
}
use mathlib.Core.Path.{fun_ext}
use os.Common.Links.{Chain}
use os.Sched.{Sched}
use os.Strings.{Memory, kstrcat, memmove}
use os.Process.Listing.{Texts, add_task, add_queue, add_current, sys_ps}

-- The lines of some tasks, one behind the other.
unfoldable pub add_tasks : ℕ → Texts → Sched → List ℕ → Memory → Option Memory
add_tasks fuel t s [] m = some m
add_tasks fuel t s (task ∷ tasks) m = do m1 ← add_task fuel t s task m; add_tasks fuel t s tasks m1

-- The walk along a queue, with more turns than it has tasks, adds the lines of its tasks.
add_queue-add_tasks :
    (turns fuel : ℕ) (t : Texts) (s : Sched) (q : ℕ) (tasks : List ℕ) (m : Memory)
    → Chain s.next q tasks
    → length tasks < turns
    → add_queue turns fuel t s q m ≡ add_tasks fuel t s tasks m
unfolding add_queue add_tasks
add_queue-add_tasks zero fuel t s q tasks m c h = absurd (omega (arith, h))
add_queue-add_tasks (suc turns) fuel t s q [] m c h = rw c refl
add_queue-add_tasks (suc turns) fuel t s q (task ∷ tasks) m (e, live, c) h =
    rw (e, ==_of_ne task 0 live, add_queue)
      (ap (λ f. add_task fuel t s task m >>= f)
        (fun_ext (λ m1. add_queue-add_tasks turns fuel t s (s.next task) tasks m1 c (omega arith))))

add_tasks-++ :
    (fuel : ℕ) (t : Texts) (s : Sched) (xs ys : List ℕ) (m : Memory)
    → add_tasks fuel t s (xs ++ ys) m
      ≡ (add_tasks fuel t s xs m >>= (λ m1. add_tasks fuel t s ys m1))
unfolding add_tasks
add_tasks-++ fuel t s [] ys m = refl
add_tasks-++ fuel t s (x ∷ xs) ys m =
    ap (λ f. add_task fuel t s x m >>= f) (fun_ext (λ m1. add_tasks-++ fuel t s xs ys m1))
    ∙ sym (bind_assoc (add_task fuel t s x m) (add_tasks fuel t s xs) (add_tasks fuel t s ys))

add_tasks_then :
    (fuel : ℕ) (t : Texts) (s : Sched) (xs ys : List ℕ) (m : Memory) (k : Memory → Option Memory)
    → (add_tasks fuel t s (xs ++ ys) m >>= k)
      ≡ (add_tasks fuel t s xs m >>= (λ m1. add_tasks fuel t s ys m1 >>= k))
add_tasks_then fuel t s xs ys m k =
    ap (λ o. o >>= k) (add_tasks-++ fuel t s xs ys m)
    ∙ bind_assoc (add_tasks fuel t s xs m) (add_tasks fuel t s ys) k

-- The listing of some tasks: the header and their lines, copied to `buf`.
unfoldable pub list_tasks : ℕ → Texts → ℕ → Sched → List ℕ → Memory → Option Memory
list_tasks fuel t buf s tasks m = do
  m1 ← kstrcat fuel m t.ps_buf t.header
  m2 ← add_tasks fuel t s tasks m1
  m3 ← kstrcat fuel m2 t.ps_buf t.empty
  some (memmove m3 t.ps_buf buf 1024)

module _ (turns fuel : ℕ) (t : Texts) (buf : ℕ) (s : Sched) (available waiting sleeping : List ℕ)
    (m : Memory) where
  same_queue :
      (q : ℕ) (tasks : List ℕ)
      → Chain s.next q tasks
      → length tasks < turns
      → add_queue turns fuel t s q ≡ add_tasks fuel t s tasks
  same_queue q tasks c h = fun_ext (λ m1. add_queue-add_tasks turns fuel t s q tasks m1 c h)

  -- The running task and the three queues, and what is done then.
  same_tasks :
      (k : Memory → Option Memory) (m1 : Memory)
      → s.current ≢ 0
      → (add_current fuel t s m1 >>= (λ m2. add_tasks fuel t s available m2 >>= (λ m3.
          add_tasks fuel t s waiting m3 >>= (λ m4. add_tasks fuel t s sleeping m4 >>= k))))
        ≡ (add_tasks fuel t s (s.current ∷ available ++ waiting ++ sleeping) m1 >>= k)
  unfolding add_tasks add_current
  same_tasks k m1 running =
      let w = λ (m3 : Memory).
        add_tasks fuel t s waiting m3 >>= (λ m4. add_tasks fuel t s sleeping m4 >>= k) in
      rw (==_of_ne s.current 0 running) (
        sym (bind_assoc (add_task fuel t s s.current m1) (add_tasks fuel t s available) w)
        ∙ sym (
            add_tasks_then fuel t s (s.current ∷ available) waiting m1
              (λ m4. add_tasks fuel t s sleeping m4 >>= k))
        ∙ sym (add_tasks_then fuel t s ((s.current ∷ available) ++ waiting) sleeping m1 k))

  -- A running task, more turns than each of the three queues has tasks: `sys_ps` lists the running
  -- task, then the available, the waiting and the sleeping ones, each queue in its order.
  pub sys_ps-list_tasks :
      s.current ≢ 0
      → Chain s.next s.available_tasks available
      → Chain s.next s.waiting_tasks waiting
      → Chain s.next s.sleeping_tasks sleeping
      → length available < turns
      → length waiting < turns
      → length sleeping < turns
      → sys_ps turns fuel t buf s m
        ≡ list_tasks fuel t buf s (s.current ∷ available ++ waiting ++ sleeping) m
  unfolding sys_ps list_tasks
  sys_ps-list_tasks running ca cw cs ha hw hs =
      rw
        (
          same_queue s.available_tasks available ca ha,
          same_queue s.waiting_tasks waiting cw hw,
          same_queue s.sleeping_tasks sleeping cs hs,
        )
        (ap (λ f. kstrcat fuel m t.ps_buf t.header >>= f) (fun_ext (λ m1. same_tasks _ m1 running)))
