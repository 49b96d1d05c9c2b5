-- ===== src/Examples/Devices.antt =====
-- The screen.
use os.Common.{ℕ, ◌<◌, ◌≡◌, refl, arith, some, List, [], ◌∷◌, length}
use os.Screen.{Screen, kputs, convert}
use os.Screen.Cursor.{InScreen, Confined, kputs-InScreen}
use os.Strings.Digits.{value_behind}
use os.Screen.Number.{convert-value}

-- An empty screen with the cursor at the end of its last row.
abbrev screen : Screen
screen = record { x = 79; y = 23; arr = λ i. 0; video = λ i. 0 }

kputs-InScreen_example :
    (t : Screen) × (kputs 3 (b'o' ∷ b'k' ∷ 10 ∷ []) screen ≡ some t)
    × InScreen t
    × Confined screen t
kputs-InScreen_example =
    kputs-InScreen 3 (b'o' ∷ b'k' ∷ 10 ∷ []) screen
      (record { column = omega arith; row = omega arith }) refl

convert-value_example :
    (out : List ℕ) × (convert 48879 16 ≡ some out)
    × (value_behind 16 0 out ≡ 48879)
    × (length out < 50)
convert-value_example = convert-value 48879 16 (omega arith) (omega arith) (omega arith)
