-- ===== src/Screen/Number.antt =====
-- The numbers that `kprintf` and the clock of sys/kprintf.c show.
use mathlib.Core.Path.{subst}
use native.Mathlib.Nat.{pow-suc, mul-le-mul_left, div-lt_iff_lt-mul, div-eq_of_lt}
use os.Common.{
  ℕ, zero, suc, ◌+◌, ◌*◌, ◌/◌, ◌%◌, ◌^◌, ◌≤◌, ◌<◌, ◌≡◌, refl, arith, true, false, some, List, [],
  ◌∷◌, ◌++◌, ltb, ◌==◌, if◌then◌else◌, length, Bool-cases, inl, inr,
}
use os.Common.Links.{update}
use os.Strings.{write_digits, digit_of}
use os.Strings.Digits.{value_behind, write_digits-value}
use os.Screen.{convert, cell, put_cells, time_digits, time_text, kput_time, update_time}

-- No more digits are written than the number has in base ten.
write_digits-length :
    (fuel base k i : ℕ) (done out : List ℕ)
    → 10 ≤ base
    → i < 10 ^ suc k
    → write_digits fuel base i done ≡ some out
    → length out ≤ suc k + length done
unfolding write_digits
write_digits-length zero base k i done out hb h e = absurd (ground (arith, e))
write_digits-length (suc fuel) base zero i done out hb h e =
    let last : i / base ≡ 0 = div-eq_of_lt (omega arith) in ground (arith, e, last)
write_digits-length (suc fuel) base (suc k) i done out hb h e = elim (Bool-cases (i / base == 0)) [
  | inl stop ↦ ground (arith, e, stop)
  | inr more ↦
      let ten : i < 10 ^ suc k * 10 = subst (λ b. i < b) (pow-suc 10 (suc k)) h in
      let wide : 10 ^ suc k * 10 ≤ 10 ^ suc k * base = mul-le-mul_left (10 ^ suc k) hb in
      let less : i / base < 10 ^ suc k =
        (div-lt_iff_lt-mul {k = base} {x = i} {y = 10 ^ suc k} (omega arith)).1 (omega arith) in
      let run : write_digits fuel base (i / base) (digit_of (i % base) ∷ done) ≡ some out =
        subst
          (λ t.
            (if t
              then some (digit_of (i % base) ∷ done)
              else write_digits fuel base (i / base) (digit_of (i % base) ∷ done))
            ≡ some out)
          more e in
      omega (
        arith,
        write_digits-length fuel base k (i / base) (digit_of (i % base) ∷ done) out hb less run,
      )
]

-- For every `unsigned long` and a base from 10 to 16, `convert` ends; its digits have the number as
-- their value, and with the null byte behind them they fit the buffer of 50 bytes.
pub convert-value :
    (i base : ℕ)
    → i < 2 ^ 64
    → 10 ≤ base
    → base ≤ 16
    → (out : List ℕ) × (convert i base ≡ some out)
      × (value_behind base 0 out ≡ i)
      × (length out < 50)
unfolding convert
convert-value i base h low high =
    let (out, run, value) = write_digits-value 64 base i [] (omega arith) h in
    let short = write_digits-length 65 base 19 i [] out low (omega arith) run in
    (out, run, value, omega (arith, short))

-- Two digits.
abbrev pub two_digits : ℕ → List ℕ
two_digits n = (b'0' + n / 10) ∷ (b'0' + n % 10) ∷ []

time_text-two_digits : (n : ℕ) → n < 100 → time_text n ≡ some (two_digits n)
unfolding time_text time_digits
time_text-two_digits n h = elim (Bool-cases (ltb n 10)) [
  | inl small ↦
      let lt : n < 10 = ground (arith, small) in
      let q : n / 10 ≡ 0 = omega arith in let r : n % 10 ≡ n = omega arith in rw (small, q, r) refl
  | inr large ↦
      let ge : 10 ≤ n = ground (arith, large) in
      let a : (n == 0) ≡ false = ground arith in
      let b : (n / 10 == 0) ≡ false = ground arith in
      let c : (n / 10 / 10 == 0) ≡ true = ground arith in
      let d : n / 10 % 10 ≡ n / 10 = omega arith in rw (large, a, b, c, d) refl
]

kput_time-two_digits :
    (n loc : ℕ) (video : ℕ → ℕ)
    → n < 100
    → kput_time n loc video ≡ some (put_cells (two_digits n) loc video)
unfolding kput_time
kput_time-two_digits n loc video h = rw (kput_time, time_text-two_digits n h) refl

-- The time of day, as hours, minutes and seconds.
abbrev pub clock_text : ℕ → List ℕ
clock_text sec =
    two_digits (sec / 3600)
    ++ b':' ∷ (two_digits (sec % 3600 / 60) ++ b':' ∷ two_digits (sec % 3600 % 60))

-- For a second of the day, `update_time` ends and shows hours, minutes and seconds, two digits each
-- with colons between them, in the eight cells from its place on; it writes no other cell.
pub update_time-clock_text :
    (sec : ℕ) (video : ℕ → ℕ)
    → sec < 86400
    → update_time sec video ≡ some (put_cells (clock_text sec) 1985 video)
unfolding update_time put_cells
update_time-clock_text sec video h =
    let a = kput_time-two_digits (sec / 3600) 1985 video (omega arith) in
    let v1 = put_cells (two_digits (sec / 3600)) 1985 video in
    let b =
      kput_time-two_digits (sec % 3600 / 60) 1988 (update v1 1987 (cell b':')) (omega arith) in
    let v2 = put_cells (two_digits (sec % 3600 / 60)) 1988 (update v1 1987 (cell b':')) in
    let c =
      kput_time-two_digits (sec % 3600 % 60) 1991 (update v2 1990 (cell b':')) (omega arith) in
    rw (update_time, a, b, c) refl
