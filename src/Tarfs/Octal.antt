-- ===== src/Tarfs/Octal.antt =====
-- The sizes in the headers.
use os.Common.{
  ℕ, suc, ◌+◌, ◌-◌, ◌*◌, ◌%◌, ◌^◌, ◌≤◌, ◌<◌, ◌≡◌, refl, ◌∙◌, ap, arith, Bool, true, ◌&&◌, List, [],
  ◌∷◌, ltb, ◌==◌, length,
}
use os.Tarfs.{oct_from, oct_to_bin}

-- The number whose digits in base 8 are those of `n` and then these.
abbrev pub octal : ℕ → List ℕ → ℕ
octal n [] = n
octal n (d ∷ ds) = octal (n * 8 + d) ds

-- The characters from index `i` on are these digits.
abbrev pub spelled : (ℕ → ℕ) → ℕ → List ℕ → Bool
spelled ostr i [] = true
spelled ostr i (d ∷ ds) = ltb d 8 && ((ostr i == b'0' + d) && spelled ostr (suc i) ds)

octal-le : (n : ℕ) (ds : List ℕ) → n ≤ octal n ds
octal-le n [] = omega arith
octal-le n (d ∷ ds) = omega (arith, octal-le (n * 8 + d) ds)

oct_from-octal :
    (ds : List ℕ) (ostr : ℕ → ℕ) (i n : ℕ)
    → spelled ostr i ds ≡ true
    → octal n ds < 2 ^ 31
    → oct_from (length ds) ostr i n ≡ octal n ds
unfolding oct_from
oct_from-octal [] ostr i n h small = refl
oct_from-octal (d ∷ ds) ostr i n h small =
    let le = octal-le (n * 8 + d) ds in
    let c : ostr i ≡ 48 + d = ground (arith, h) in
    let e : (n * 8 + (ostr i + 2 ^ 32 - 48)) % 2 ^ 32 ≡ n * 8 + d = omega arith in
    ap (oct_from (length ds) ostr (suc i)) e
    ∙ oct_from-octal ds ostr (suc i) (n * 8 + d) (ground (arith, h)) small

-- A field whose characters, but the last, are octal digits of a number below 2^31 is read as that
-- number.
pub oct_to_bin-octal :
    (ds : List ℕ) (ostr : ℕ → ℕ)
    → spelled ostr 0 ds ≡ true
    → octal 0 ds < 2 ^ 31
    → oct_to_bin ostr (length ds + 1) ≡ octal 0 ds
unfolding oct_to_bin
oct_to_bin-octal ds ostr h small =
    let e : length ds + 1 - 1 ≡ length ds = omega arith in
    rw (e, oct_from-octal ds ostr 0 0 h small) (ground arith)
