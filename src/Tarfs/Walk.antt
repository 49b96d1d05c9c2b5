-- ===== src/Tarfs/Walk.antt =====
-- Walking over the headers of the archive.
use os.Common.{
  ℕ, zero, suc, ◌+◌, ◌/◌, ◌<◌, ◌≡◌, refl, ◌≢◌, ◌∙◌, arith, false, Option, none, some, List, [], ◌∷◌,
  ◌==◌, length,
}
use os.Tarfs.{Archive, oct_to_bin, skip, get_tfs_next, visit}

-- The headers stand at the blocks `hs`, the first at `h`, each behind the file of the one before it in
-- whole blocks, and an empty name ends them.
abbrev pub Laid : Archive → ℕ → List ℕ → Type 0
Laid a h [] = a.name h 0 ≡ 0
Laid a h (x ∷ xs) =
    (h ≡ x) × (a.name x 0 ≢ 0) × Laid a (x + 1 + (511 + oct_to_bin (a.size x) 12) / 512) xs

skip_lem : (a : Archive) (x : ℕ) → skip a x ≡ x + 1 + (511 + oct_to_bin (a.size x) 12) / 512
unfolding skip
skip_lem a x = ground arith

visit_step :
    (fuel : ℕ) (a : Archive) (x : ℕ) (o : Option ℕ) (rest : List ℕ)
    → get_tfs_next a (some x) ≡ o
    → visit fuel a o ≡ some rest
    → visit (suc fuel) a (some x) ≡ some (x ∷ rest)
unfolding visit
visit_step fuel a x o rest e r = rw (e, r) refl

-- With fuel for each header and one more, a walk from the first header of an archive visits each of
-- its headers once, in order, and stops.
pub visit-Laid :
    (xs : List ℕ) (fuel : ℕ) (a : Archive) (h : ℕ)
    → Laid a h (h ∷ xs)
    → length xs + 1 < fuel
    → visit fuel a (some h) ≡ some (h ∷ xs)
unfolding get_tfs_next visit
visit-Laid xs zero a h l enough = absurd (omega arith)
visit-Laid xs (suc zero) a h l enough = absurd (omega arith)
visit-Laid [] (suc (suc fuel)) a h l enough =
    visit_step (suc fuel) a h none [] (ground (arith, skip_lem a h, l)) refl
visit-Laid (x ∷ xs) (suc (suc fuel)) a h l enough =
    let e : skip a h ≡ x = skip_lem a h ∙ l.2.0 in
    let named : (a.name h 0 == 0) ≡ false = ground (arith, l.1) in
    let next_named : (a.name x 0 == 0) ≡ false = ground (arith, l.2.1) in
    visit_step (suc fuel) a h (some x) (x ∷ xs) (rw (e, named, next_named) refl)
      (visit-Laid xs (suc fuel) a x (refl, l.2.1, l.2.2) (omega arith))
