-- ===== src/Examples/Text.antt =====
-- Strings, blocks and digits.
use os.Common.{◌≡◌, refl, arith, some, [], ◌∷◌, ◌==◌, if◌then◌else◌, inl}
use os.Strings.{Memory, strcat}
use os.Strings.Copy.{IsString, Appended, strcat-Appended}

-- "ab" stands at 10 and "ac" at 20.
abbrev text : Memory
text q =
    if q == 10
    then b'a'
    else if q == 11
    then b'b'
    else if q == 20
    then b'a'
    else if q == 21
    then b'c'
    else 0

ab-IsString : IsString text 10 (b'a' ∷ b'b' ∷ [])
ab-IsString = (refl, omega arith, (refl, omega arith, refl))

ac-IsString : IsString text 20 (b'a' ∷ b'c' ∷ [])
ac-IsString = (refl, omega arith, (refl, omega arith, refl))

strcat-Appended_example :
    (m2 : Memory) × (strcat 3 text 10 20 ≡ some m2)
    × Appended text m2 12 (b'a' ∷ b'c' ∷ [])
    × (m2 14 ≡ text 14)
strcat-Appended_example =
    strcat-Appended (b'a' ∷ b'b' ∷ []) (b'a' ∷ b'c' ∷ []) text 3 10 20 ab-IsString ac-IsString
      (inl (omega arith)) (omega arith) (omega arith)
