-- ===== src/Strings/Compare.antt =====
-- `strcmp` on two strings that stand in memory.
use os.Common.{
  ℕ, zero, suc, ◌<◌, ◌≡◌, refl, ap, arith, false, some, List, [], ◌∷◌, ◌==◌, if◌then◌else◌, length,
}
use os.Common.Int.{ℤ, pos}
use os.Strings.{Memory, strcmp, char_difference}
use os.Strings.Copy.{IsString}

-- The first difference of two strings, a string's end counting as a null byte.
abbrev pub difference : List ℕ → List ℕ → ℤ
difference [] [] = pos 0
difference [] (d ∷ t) = char_difference 0 d
difference (c ∷ s) [] = char_difference c 0
difference (c ∷ s) (d ∷ t) = if c == d then difference s t else char_difference c d

char_difference_self : (a : ℕ) → char_difference a a ≡ pos 0
char_difference_self a = ground arith

-- With fuel for each byte of the first string, `strcmp` of two strings ends and returns the first
-- difference of the second one from the first one.
pub strcmp-difference :
    (m : Memory) (s t : List ℕ) (fuel a b : ℕ)
    → IsString m a s
    → IsString m b t
    → length s < fuel
    → strcmp fuel m a b ≡ some (difference t s)
unfolding strcmp
strcmp-difference m [] t zero a b h k enough = absurd (omega arith)
strcmp-difference m (c ∷ s) t zero a b h k enough = absurd (omega arith)
strcmp-difference m [] [] (suc fuel) a b h k enough = rw (h, k) (ap some (char_difference_self 0))
strcmp-difference m [] (d ∷ t) (suc fuel) a b h k enough = rw (h, k.0) refl
strcmp-difference m (c ∷ s) [] (suc fuel) a b h k enough =
    let nz : (c == 0) ≡ false = ground (arith, h.1) in rw (h.0, k, nz) refl
strcmp-difference m (c ∷ s) (d ∷ t) (suc fuel) a b h k enough =
    let nz : (c == 0) ≡ false = ground (arith, h.1) in
    let ih = strcmp-difference m s t fuel (suc a) (suc b) h.2 k.2 (omega arith) in
    rw (h.0, k.0, ih) (ground arith)
