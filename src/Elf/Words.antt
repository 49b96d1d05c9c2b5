-- ===== src/Elf/Words.antt =====
-- Words and strings in the memory of a new task, for sys/elf64.c.
use os.Common.{
  ℕ, suc, ◌+◌, ◌-◌, ◌*◌, ◌/◌, ◌%◌, ◌^◌, ◌≤◌, ◌<◌, ◌≡◌, refl, ◌∙◌, ap, sym, arith, Bool, true, not,
  ◌&&◌, List, [], ◌∷◌, ◌==◌, length, ◌⊎◌, inl,
}
use os.Common.Links.{update}
use os.Strings.{Memory}
use os.Strings.Copy.{IsString}
use os.Elf.{store64, put_string}

-- The word at an address.
abbrev pub load64 : Memory → ℕ → ℕ
load64 m a =
    m a
    + m (a + 1) * 256
    + m (a + 2) * 256 ^ 2
    + m (a + 3) * 256 ^ 3
    + m (a + 4) * 256 ^ 4
    + m (a + 5) * 256 ^ 5
    + m (a + 6) * 256 ^ 6
    + m (a + 7) * 256 ^ 7

digits_lem :
    (v : ℕ)
    → v < 2 ^ 64
    → v % 256
        + v / 256 % 256 * 256
        + v / 256 ^ 2 % 256 * 256 ^ 2
        + v / 256 ^ 3 % 256 * 256 ^ 3
        + v / 256 ^ 4 % 256 * 256 ^ 4
        + v / 256 ^ 5 % 256 * 256 ^ 5
        + v / 256 ^ 6 % 256 * 256 ^ 6
        + v / 256 ^ 7 % 256 * 256 ^ 7
      ≡ v
digits_lem v h = omega arith

load64_bytes :
    (m : Memory) (a v : ℕ)
    → ((i : ℕ) → i < 8 → m (a + i) ≡ v / 256 ^ i % 256)
    → v < 2 ^ 64
    → load64 m a ≡ v
load64_bytes m a v b h =
    let first : a + 0 ≡ a = omega arith in
    let b0 : m a ≡ v % 256 = ap m (sym first) ∙ b 0 (omega arith) ∙ omega arith in
    rw
      (
        b0,
        b 1 (omega arith),
        b 2 (omega arith),
        b 3 (omega arith),
        b 4 (omega arith),
        b 5 (omega arith),
        b 6 (omega arith),
        b 7 (omega arith),
      )
      (digits_lem v h)

store64_byte : (m : Memory) (a v i : ℕ) → i < 8 → store64 m a v (a + i) ≡ v / 256 ^ i % 256
store64_byte m a v i h = let e : a + i - a ≡ i = omega arith in rw e (ground arith)

pub load64-store64 : (m : Memory) (a v : ℕ) → v < 2 ^ 64 → load64 (store64 m a v) a ≡ v
load64-store64 m a v h = load64_bytes (store64 m a v) a v (λ i. store64_byte m a v i) h

-- From `lo` on the memories are the same.
abbrev pub Same : ℕ → Memory → Memory → Type 0
Same lo m m' = (a : ℕ) → lo ≤ a → m' a ≡ m a

pub load64-Same : (m m' : Memory) (lo a : ℕ) → Same lo m m' → lo ≤ a → load64 m' a ≡ load64 m a
load64-Same m m' lo a s h =
    rw
      (
        s a h,
        s (a + 1) (omega arith),
        s (a + 2) (omega arith),
        s (a + 3) (omega arith),
        s (a + 4) (omega arith),
        s (a + 5) (omega arith),
        s (a + 6) (omega arith),
        s (a + 7) (omega arith),
      )
      refl

-- The words from an address on.
abbrev pub Words : Memory → ℕ → List ℕ → Type 0
Words m a [] = true ≡ true
Words m a (v ∷ vs) = (load64 m a ≡ v) × Words m (a + 8) vs

pub Words-Same :
    (vs : List ℕ) (m m' : Memory) (lo a : ℕ) → Same lo m m' → lo ≤ a → Words m a vs → Words m' a vs
Words-Same [] m m' lo a s h w = refl
Words-Same (v ∷ vs) m m' lo a s h w =
    (load64-Same m m' lo a s h ∙ w.0, Words-Same vs m m' lo (a + 8) s (omega arith) w.1)

pub IsString-Same :
    (cs : List ℕ) (m m' : Memory) (lo a : ℕ)
    → Same lo m m'
    → lo ≤ a
    → IsString m a cs
    → IsString m' a cs
IsString-Same [] m m' lo a s h i = s a h ∙ i
IsString-Same (c ∷ cs) m m' lo a s h i =
    (s a h ∙ i.0, i.1, IsString-Same cs m m' lo (suc a) s (omega arith) i.2)

-- No string has a null byte in it.
abbrev pub plain : List ℕ → Bool
plain [] = true
plain (c ∷ cs) = not (c == 0) && plain cs

abbrev pub all_plain : List (List ℕ) → Bool
all_plain [] = true
all_plain (s ∷ strings) = plain s && all_plain strings

-- The bytes that the strings take.
abbrev pub size : List (List ℕ) → ℕ
size [] = 0
size (s ∷ strings) = length s + 1 + size strings

pub put_string-elsewhere :
    (cs : List ℕ) (m : Memory) (a q : ℕ) → (q < a) ⊎ (a + length cs < q) → put_string m a cs q ≡ m q
put_string-elsewhere [] m a q h = ground arith
put_string-elsewhere (c ∷ cs) m a q h =
    let ih = put_string-elsewhere cs (update m a c) (suc a) q (ground arith) in ground (arith, ih)

pub put_string-IsString :
    (cs : List ℕ) (m : Memory) (a : ℕ) → plain cs ≡ true → IsString (put_string m a cs) a cs
put_string-IsString [] m a h = ground arith
put_string-IsString (c ∷ cs) m a h = (
  put_string-elsewhere cs (update m a c) (suc a) a (inl (omega arith)) ∙ ground arith,
  ground (arith, h),
  put_string-IsString cs (update m a c) (suc a) (ground (arith, h)),
)
