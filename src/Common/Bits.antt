-- ===== src/Common/Bits.antt =====
-- `bit_or` by its digits, and fields that do not meet: there `bit_or` is a sum.
use Prim.Native.Nat.{bit_or, max, digits, bit_or-bitwise}
use native.Mathlib.Nat.{pow-suc, mul_assoc}
use mathlib.Core.Path.{subst}
use Prim.Native.Nat.{ℕ, zero, suc, ◌+◌, ◌*◌, ◌/◌, ◌%◌, ◌^◌, ◌≤◌, ◌<◌}
use mathlib.Core.Path.{◌≡◌, refl, ◌∙◌, ap, sym}
use native.Mathlib.Omega.{arith}

-- The law for the lowest digit, from the definition that the native operation stands for.
abbrev or_digits : ℕ → ℕ → ℕ → ℕ
or_digits n a b = digits (λ b. b) max n a b

or_digits_fuel : (n m a b : ℕ) → a ≤ n → a ≤ m → or_digits n a b ≡ or_digits m a b
or_digits_fuel zero zero a b p q = refl
or_digits_fuel zero (suc m) zero b p q = refl
or_digits_fuel zero (suc m) (suc a) b p q = absurd (omega arith)
or_digits_fuel (suc n) zero zero b p q = refl
or_digits_fuel (suc n) zero (suc a) b p q = absurd (omega arith)
or_digits_fuel (suc n) (suc m) zero b p q = refl
or_digits_fuel (suc n) (suc m) (suc a) b p q =
    omega (arith, or_digits_fuel n m (suc a / 2) (b / 2) (omega arith) (omega arith))

pub zero-bit_or : (b : ℕ) → bit_or 0 b ≡ b
zero-bit_or b = bit_or-bitwise 0 b

bit_or_step :
    (a b : ℕ) → bit_or (suc a) b ≡ bit_or (suc a / 2) (b / 2) * 2 + max (suc a % 2) (b % 2)
bit_or_step a b = omega (
  arith,
  bit_or-bitwise (suc a) b,
  bit_or-bitwise (suc a / 2) (b / 2),
  or_digits_fuel a (suc a / 2) (suc a / 2) (b / 2) (omega arith) (omega arith),
)

bit_or-zero_fuel : (n a : ℕ) → a ≤ n → bit_or a 0 ≡ a
bit_or-zero_fuel n zero h = refl
bit_or-zero_fuel zero (suc a) h = absurd (omega arith)
bit_or-zero_fuel (suc n) (suc a) h =
    omega (arith, bit_or_step a 0, bit_or-zero_fuel n (suc a / 2) (omega arith))

-- One more digit of flags under an even number.
bit_or_double : (a b : ℕ) → bit_or (a * 2) b ≡ bit_or a (b / 2) * 2 + b % 2
bit_or_double zero b = omega (arith, zero-bit_or b, zero-bit_or (b / 2))
bit_or_double (suc a) b =
    let e : suc a * 2 ≡ suc (suc (a * 2)) = omega arith in
    let d : suc (suc (a * 2)) / 2 ≡ suc a = omega arith in
    rw (e, bit_or_step (suc (a * 2)) b, d) (omega arith)

pub bit_or_shifted : (n a b : ℕ) → b < 2 ^ n → bit_or (a * 2 ^ n) b ≡ a * 2 ^ n + b
bit_or_shifted zero a b h =
    let e : a * 2 ^ 0 ≡ a = omega arith in
    let d : b ≡ 0 = omega arith in rw (e, d) (omega (arith, bit_or-zero_fuel a a (omega arith)))
bit_or_shifted (suc n) a b h =
    let half : b < 2 ^ n * 2 = subst (λ x. b < x) (pow-suc 2 n) h in
    let e : a * 2 ^ suc n ≡ a * 2 ^ n * 2 =
      ap (λ x. a * x) (pow-suc 2 n) ∙ sym (mul_assoc a (2 ^ n) 2) in
    rw (e, bit_or_double (a * 2 ^ n) b) (omega (arith, bit_or_shifted n a (b / 2) (omega arith)))

-- The law for the lowest digit, at every number.
pub bit_or-halves : (a b : ℕ) → bit_or a b ≡ bit_or (a / 2) (b / 2) * 2 + max (a % 2) (b % 2)
bit_or-halves zero b = omega (arith, zero-bit_or b, zero-bit_or (b / 2))
bit_or-halves (suc a) b = bit_or_step a b

-- Flags below an address of a page.
pub bit_or_page : (a flags : ℕ) → a % 4096 ≡ 0 → flags < 4096 → bit_or a flags ≡ a + flags
bit_or_page a flags h small =
    let e : a / 4096 * 2 ^ 12 ≡ a = omega arith in
    subst (λ x. bit_or x flags ≡ x + flags) e (bit_or_shifted 12 (a / 4096) flags small)

bit_or_comm_fuel : (n a b : ℕ) → a + b ≤ n → bit_or a b ≡ bit_or b a
bit_or_comm_fuel zero a b h =
    let ea : a ≡ 0 = omega arith in let eb : b ≡ 0 = omega arith in rw (ea, eb) refl
bit_or_comm_fuel (suc n) zero zero h = refl
bit_or_comm_fuel (suc n) zero (suc b) h = omega (
  arith,
  bit_or-halves 0 (suc b),
  bit_or-halves (suc b) 0,
  bit_or_comm_fuel n 0 (suc b / 2) (omega arith),
)
bit_or_comm_fuel (suc n) (suc a) b h = omega (
  arith,
  bit_or-halves (suc a) b,
  bit_or-halves b (suc a),
  bit_or_comm_fuel n (suc a / 2) (b / 2) (omega arith),
)

pub bit_or_comm : (a b : ℕ) → bit_or a b ≡ bit_or b a
bit_or_comm a b = bit_or_comm_fuel (a + b) a b (omega arith)

-- Below a multiple of 2 ^ n the digits are joined by themselves.
pub bit_or_low :
    (n a f g : ℕ) → f < 2 ^ n → g < 2 ^ n → bit_or (a * 2 ^ n + f) g ≡ a * 2 ^ n + bit_or f g
bit_or_low zero a f g hf hg =
    let ef : f ≡ 0 = omega arith in
    let eg : g ≡ 0 = omega arith in
    let z : a * 2 ^ 0 + 0 ≡ a = omega arith in
    rw (ef, eg, z, zero-bit_or 0) (omega (arith, bit_or-zero_fuel a a (omega arith)))
bit_or_low (suc n) a f g hf hg =
    let half_f : f < 2 ^ n * 2 = subst (λ x. f < x) (pow-suc 2 n) hf in
    let half_g : g < 2 ^ n * 2 = subst (λ x. g < x) (pow-suc 2 n) hg in
    let e : a * 2 ^ suc n ≡ a * 2 ^ n * 2 =
      ap (λ x. a * x) (pow-suc 2 n) ∙ sym (mul_assoc a (2 ^ n) 2) in
    let down : (a * 2 ^ n * 2 + f) / 2 ≡ a * 2 ^ n + f / 2 = omega arith in
    rw
      (
        e,
        bit_or-halves (a * 2 ^ n * 2 + f) g,
        down,
        bit_or_low n a (f / 2) (g / 2) (omega arith) (omega arith),
      )
      (omega (arith, bit_or-halves f g))
