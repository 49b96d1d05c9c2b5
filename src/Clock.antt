-- ===== src/Clock.antt =====
-- The system clock of sys/ktime.c: `addTick`, called on each timer interrupt.
use os.Common.{
  ℕ, zero, suc, ◌+◌, ◌%◌, ◌^◌, ◌*◌, ◌≡◌, List, [], ◌∷◌, ◌++◌, ltb, leb, if◌then◌else◌, Bool, true,
  false,
}
pub mod Elapsed

-- The globals `ticks`, `s_cnt`, `second`, `day` and `ms`.
pub record Clock : Type 0 where
  pub ticks : ℕ
  pub s_cnt : ℕ
  pub second : ℕ
  pub day : ℕ
  pub ms : ℕ

-- `uint64_t` addition and the conversion to `uint32_t`.
abbrev pub add64 : ℕ → ℕ → ℕ
add64 a b = (a + b) % 2 ^ 64

abbrev pub to32 : ℕ → ℕ
to32 a = a % 2 ^ 32

-- The arguments of a call of `update_time`, which shows the time on the screen.
abbrev pub Shown : Type 0
Shown = List (ℕ × ℕ)

abbrev pub show : Clock → ℕ × ℕ
show c = (to32 c.day, to32 c.second)

-- The first conditional of `addTick`.
pub count_tick : Clock → Clock × Shown
count_tick c =
    if ltb c.s_cnt 4
    then (if ltb c.ticks 18
        then (record c { ticks = c.ticks + 1; ms = add64 c.ms 55 }, [])
        else (let c' : Clock = record c {
          ms = add64 c.ms 10;
          second = add64 c.second 1;
          ticks = 0;
          s_cnt = c.s_cnt + 1;
        } in
            (c', show c' ∷ [])))
    else (if ltb c.ticks 19
        then (record c { ticks = c.ticks + 1; ms = add64 c.ms 52 }, [])
        else (let c' : Clock = record c {
          ms = add64 c.ms 12;
          second = add64 c.second 1;
          ticks = 0;
          s_cnt = 0;
        } in
            (c', show c' ∷ [])))

-- The second one: a new day.
pub roll_day : Clock × Shown → Clock × Shown
roll_day (c, out) =
    if leb 86400 c.second
    then (let c' : Clock = record c { day = add64 c.day 1; second = 0 } in
        (c', out ++ show c' ∷ []))
    else (c, out)

pub add_tick : Clock → Clock × Shown
unfolding count_tick roll_day
add_tick c = roll_day (count_tick c)

-- The clock after a number of interrupts.
pub run : ℕ → Clock → Clock
run zero c = c
run (suc n) c = run n (add_tick c).0
