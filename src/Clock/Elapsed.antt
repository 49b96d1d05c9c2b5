-- ===== src/Clock/Elapsed.antt =====
-- What the clock of sys/ktime.c measures: milliseconds against seconds and days.
use os.Common.{ℕ, zero, suc, ◌+◌, ◌*◌, ◌%◌, ◌^◌, ◌≤◌, ◌<◌, ◌≡◌, refl, arith, ltb, if◌then◌else◌}
use os.Clock.{Clock, add_tick, run}

-- The milliseconds of one interrupt within the current second.
abbrev pub step_ms : Clock → ℕ
step_ms c = if ltb c.s_cnt 4 then 55 else 52

-- The interrupts of the current second, less the one that completes it.
abbrev pub last_tick : Clock → ℕ
last_tick c = if ltb c.s_cnt 4 then 18 else 19

-- Seconds since the start.
abbrev pub seconds : Clock → ℕ
seconds c = 86400 * c.day + c.second

pub record IsValid (c : Clock) : Type 0 where
  pub count_in : c.s_cnt ≤ 4
  pub ticks_in : c.ticks ≤ last_tick c
  pub second_in : c.second < 86400
  pub elapsed : c.ms ≡ (1000 * seconds c + step_ms c * c.ticks) % 2 ^ 64

-- Each interrupt keeps the counters in range, and keeps `ms` equal, modulo 2^64, to the
-- milliseconds that the days, the seconds and the ticks of the current second stand for.
pub add_tick-IsValid : {c : Clock} → IsValid c → IsValid (add_tick c).0
unfolding add_tick
add_tick-IsValid v = ground arith

run-IsValid : (n : ℕ) (c : Clock) → IsValid c → IsValid (run n c)
unfolding run
run-IsValid zero c v = v
run-IsValid (suc n) c v = run-IsValid n (add_tick c).0 (add_tick-IsValid v)

run-add : (a b : ℕ) (c : Clock) → run (a + b) c ≡ run b (run a c)
unfolding run
run-add zero b c = let e : zero + b ≡ b = omega arith in rw e
run-add (suc a) b c = let e : suc a + b ≡ suc (a + b) = omega arith in rw e (run-add a b _)

-- `d` is `c` some interrupts later, within the same second.
record SameSecond (k : ℕ) (c d : Clock) : Type 0 where
  ticks : d.ticks ≡ c.ticks + k
  s_cnt : d.s_cnt ≡ c.s_cnt
  second : d.second ≡ c.second
  day : d.day ≡ c.day

run-SameSecond :
    (k : ℕ) (c : Clock) → c.second < 86400 → c.ticks + k ≤ last_tick c → SameSecond k c (run k c)
unfolding run add_tick
run-SameSecond zero c s h = omega arith
run-SameSecond (suc k) c s h = ground (arith, run-SameSecond k (add_tick c).0)

-- `d` begins the second after that of `c`.
record NextSecond (c d : Clock) : Type 0 where
  ticks : d.ticks ≡ 0
  s_cnt : d.s_cnt ≡ (if ltb c.s_cnt 4 then c.s_cnt + 1 else 0)
  seconds : seconds d ≡ seconds c + 1
  day : d.day ≤ c.day + 1

add_tick-NextSecond :
    (c : Clock)
    → c.ticks ≡ last_tick c
    → c.second < 86400
    → c.day + 1 < 2 ^ 64
    → NextSecond c (add_tick c).0
unfolding add_tick
add_tick-NextSecond c t s d = ground arith

run-one : (c : Clock) → run 1 c ≡ (add_tick c).0
unfolding run
run-one c = refl

run-NextSecond :
    (c : Clock)
    → c.ticks ≡ 0
    → c.second < 86400
    → c.day + 1 < 2 ^ 64
    → NextSecond c (run (last_tick c + 1) c)
run-NextSecond c t s d =
    let m : Clock = run (last_tick c) c in
    let same : SameSecond (last_tick c) c m = run-SameSecond (last_tick c) c s (omega arith) in
    let e : last_tick m ≡ last_tick c = ground arith in
    let n : NextSecond m (add_tick m).0 =
      add_tick-NextSecond m (omega arith) (omega arith) (omega arith) in
    rw (run-add (last_tick c) 1 c, run-one m) (ground arith)

-- `d` begins second `k` of the cycle that begins at `c`.
record Phase (k : ℕ) (c d : Clock) : Type 0 where
  valid : IsValid d
  ticks : d.ticks ≡ 0
  s_cnt : d.s_cnt ≡ k
  seconds : seconds d ≡ seconds c + k
  day : d.day ≤ c.day + k

Phase-run :
    (k : ℕ) (c d : Clock) → k < 4 → c.day + 5 < 2 ^ 64 → Phase k c d → Phase (k + 1) c (run 19 d)
Phase-run k c d h small p =
    let e : last_tick d + 1 ≡ 19 = ground arith in
    let n : NextSecond d (run 19 d) =
      rw e at (run-NextSecond d p.ticks p.valid.second_in (omega arith)) in
    let v : IsValid (run 19 d) = run-IsValid 19 d p.valid in
    record {
      valid = v;
      ticks = n.ticks;
      s_cnt = ground arith;
      seconds = omega arith;
      day = omega arith;
    }

-- At the start of a cycle of five seconds (tick 0 of second 0 of the cycle), 96 interrupts later
-- the clock stands at the start of the next cycle, five seconds and 5000 milliseconds on.
pub run_cycle :
    (c : Clock)
    → IsValid c
    → c.ticks ≡ 0
    → c.s_cnt ≡ 0
    → c.day + 5 < 2 ^ 64
    → let d = run 96 c in
      (d.ticks ≡ 0) × (d.s_cnt ≡ 0) × (seconds d ≡ seconds c + 5) × (d.ms ≡ (c.ms + 5000) % 2 ^ 64)
run_cycle c v t s d =
    let m : Clock = run 19 (run 19 (run 19 (run 19 c))) in
    let start : Phase 0 c c = record {
      valid = v;
      ticks = t;
      s_cnt = s;
      seconds = omega arith;
      day = omega arith;
    } in
    let four : Phase 4 c m = Phase-run 3 c _ (omega arith) (omega arith) (
      Phase-run 2 c _ (omega arith) (omega arith) (
        Phase-run 1 c _ (omega arith) (omega arith)
          (Phase-run 0 c _ (omega arith) (omega arith) start))) in
    let e : last_tick m + 1 ≡ 20 = ground arith in
    let last : NextSecond m (run 20 m) =
      rw e at (run-NextSecond m four.ticks four.valid.second_in (omega arith)) in
    let v' : IsValid (run 20 m) = run-IsValid 20 m four.valid in
    rw (run-add 19 77 c, run-add 19 58, run-add 19 39, run-add 19 20) (ground arith)
