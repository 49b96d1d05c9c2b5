-- ===== src/Strings/Digits.antt =====
-- The digits of `kint_to_str`.
use os.Common.{
  ℕ, zero, suc, ◌+◌, ◌-◌, ◌*◌, ◌%◌, ◌/◌, ◌^◌, ◌≤◌, ◌<◌, ◌≡◌, refl, ◌∙◌, ap, arith, true, false,
  some, List, [], ◌∷◌, ltb, leb, ◌&&◌, ◌==◌, if◌then◌else◌,
}
use mathlib.Core.Path.{subst}
use native.Mathlib.Decide.{dec_lt}
use native.Mathlib.Nat.{div-eq_of_lt, div-lt_iff_lt-mul, div-add-mod', pow-suc, mul-le-mul_left}
use os.Strings.{digit_of, write_digits, kint_to_str}

-- The value of a digit, and of a string of digits behind the digits of `n`.
abbrev pub digit_value : ℕ → ℕ
digit_value c = if leb 48 c && ltb c 58 then c - 48 else if leb 65 c then c - 55 else 1000

abbrev pub value_behind : ℕ → ℕ → List ℕ → ℕ
value_behind base n [] = n
value_behind base n (c ∷ cs) = value_behind base (n * base + digit_value c) cs

digit_value-digit_of : (d : ℕ) → digit_value (digit_of d) ≡ d
unfolding digit_of
digit_value-digit_of d = ground arith

half_lem : (base i bound : ℕ) → 2 ≤ base → i < bound * 2 → i / base < bound
half_lem base i bound hb h =
    let wide : bound * 2 ≤ bound * base = mul-le-mul_left bound hb in
    (div-lt_iff_lt-mul {k = base} {x = i} {y = bound} (omega arith)).1 (omega arith)

-- The digit taken off, read behind the others.
split_lem : (base i : ℕ) → i / base * base + digit_value (digit_of (i % base)) ≡ i
split_lem base i = rw (digit_value-digit_of (i % base)) (div-add-mod' i base)

-- The digits written, read behind nothing, give `i` and then the digits that stood there.
pub write_digits-value :
    (fuel base i : ℕ) (done : List ℕ)
    → 2 ≤ base
    → i < 2 ^ fuel
    → (out : List ℕ) × (write_digits (suc fuel) base i done ≡ some out)
      × (value_behind base 0 out ≡ value_behind base i done)
unfolding write_digits
write_digits-value zero base i done hb h =
    let none_left : i / base ≡ 0 = div-eq_of_lt (omega arith) in
    let last : (i / base == 0) ≡ true = ground (arith, none_left) in
    let value : 0 * base + digit_value (digit_of (i % base)) ≡ i =
      subst (λ q. q * base + digit_value (digit_of (i % base)) ≡ i) none_left (split_lem base i) in
    (digit_of (i % base) ∷ done, rw last refl, ap (λ n. value_behind base n done) value)
write_digits-value (suc fuel) base i done hb h =
    let less : i / base < 2 ^ fuel =
      half_lem base i (2 ^ fuel) hb (subst (λ b. i < b) (pow-suc 2 fuel) h) in
    let ih = write_digits-value fuel base (i / base) (digit_of (i % base) ∷ done) hb less in
    elim (dec_lt 0 (i / base)) [
      | no stop ↦
          let none_left : i / base ≡ 0 = omega arith in
          let last : (i / base == 0) ≡ true = ground (arith, none_left) in
          let value : 0 * base + digit_value (digit_of (i % base)) ≡ i =
            subst (λ q. q * base + digit_value (digit_of (i % base)) ≡ i) none_left
              (split_lem base i) in
          (digit_of (i % base) ∷ done, rw last refl, ap (λ n. value_behind base n done) value)
      | yes more ↦
          let going : (i / base == 0) ≡ false = ground (arith, more) in
          (ih.0, rw going ih.1, ih.2 ∙ ap (λ n. value_behind base n done) (split_lem base i))
    ]

-- For an `int` that is not negative and a base from 2 to 16, `kint_to_str` ends, and the digits at
-- the pointer that it returns have the number as their value.
pub kint_to_str-value :
    (i base : ℕ)
    → i < 2 ^ 31
    → 2 ≤ base
    → base ≤ 16
    → (out : List ℕ) × (kint_to_str i base ≡ some out) × (value_behind base 0 out ≡ i)
unfolding kint_to_str
kint_to_str-value i base h hb top = write_digits-value 31 base i [] hb h
