-- ===== src/Libc/Missed.antt =====
-- `getenvval` compares a whole setting with a name: what `execvpe` gets for "PATH".
use os.Common.{
  ℕ, zero, suc, ◌+◌, ◌<◌, ◌≡◌, ◌≢◌, refl, ◌∙◌, some, List, [], ◌∷◌, true, false, inl, inr, ◌==◌,
  Bool-cases, length, has, arith,
}
use os.Common.Int.{ℤ, pos, negsuc}
use os.Strings.{Memory, strcmp}
use os.Strings.Copy.{IsString}
use os.Strings.Compare.{difference, strcmp-difference}
use os.Libc.Environ.{getenvval}

-- Bytes that are no null bytes.
abbrev pub IsText : List ℕ → Type 0
IsText [] = true ≡ true
IsText (c ∷ s) = (c ≢ 0) × (c < 256) × IsText s

-- A text with '=' in it differs from a text with none.
difference_setting :
    (name w : List ℕ)
    → IsText name
    → IsText w
    → has b'=' name ≡ false
    → has b'=' w ≡ true
    → difference name w ≢ pos 0
difference_setting [] [] hn hw out inn = cc
difference_setting [] (d ∷ w) hn hw out inn = λ e. ground arith
difference_setting (c ∷ name) [] hn hw out inn = cc
difference_setting (c ∷ name) (d ∷ w) hn hw out inn = elim (Bool-cases (c == d)) [
  | inl same ↦ rw same (difference_setting name w hn.2 hw.2 (ground arith) (ground arith))
  | inr other ↦ rw other (λ e. ground arith)
]

-- The strings of the environment from index `c` on, and the empty one behind them.
abbrev pub IsEnviron : Memory → (ℕ → ℕ) → ℕ → List (List ℕ) → Type 0
IsEnviron m environ c [] = m (environ c) ≡ 0
IsEnviron m environ c (w ∷ ws) =
    IsString m (environ c) w × (m (environ c) ≢ 0) × IsEnviron m environ (c + 1) ws

-- Each is a setting, with '=' in it, of fewer than `bound` bytes.
abbrev pub AreSettings : ℕ → List (List ℕ) → Type 0
AreSettings bound [] = true ≡ true
AreSettings bound (w ∷ ws) =
    IsText w × (has b'=' w ≡ true) × (length w < bound) × AreSettings bound ws

getenvval_step :
    (fuel : ℕ) (m : Memory) (environ : ℕ → ℕ) (name c : ℕ) (d : ℤ)
    → m (environ c) ≢ 0
    → strcmp fuel m (environ c) name ≡ some d
    → d ≢ pos 0
    → getenvval (suc fuel) m environ name c ≡ getenvval fuel m environ name (c + 1)
unfolding getenvval
getenvval_step fuel m environ name c (pos zero) live e ne = absurd (ne refl)
getenvval_step fuel m environ name c (pos (suc n)) live e ne =
    let z : (m (environ c) == 0) ≡ false = ground arith in rw (z, e) refl
getenvval_step fuel m environ name c (negsuc n) live e ne =
    let z : (m (environ c) == 0) ≡ false = ground arith in rw (z, e) refl

-- Whatever settings the environment holds, one of the name itself among them, `getenvval` of a name
-- without '=' ends, with fuel for the settings and their bytes, and finds nothing.
pub getenvval_missed :
    (ws : List (List ℕ)) (fuel bound : ℕ) (m : Memory) (environ : ℕ → ℕ) (c a : ℕ) (name : List ℕ)
    → IsEnviron m environ c ws
    → AreSettings bound ws
    → IsString m a name
    → IsText name
    → has b'=' name ≡ false
    → length ws + bound < fuel
    → getenvval fuel m environ a c ≡ some 0
unfolding getenvval
getenvval_missed ws zero bound m environ c a name env settings text bytes out enough =
    absurd (omega arith)
getenvval_missed [] (suc fuel) bound m environ c a name env settings text bytes out enough =
    rw env refl
getenvval_missed (w ∷ ws) (suc fuel) bound m environ c a name env settings text bytes out enough =
    getenvval_step fuel m environ a c (difference name w) env.1
      (strcmp-difference m w name fuel (environ c) a env.0 text (omega arith))
      (difference_setting name w bytes settings.0 out settings.1)
    ∙ getenvval_missed ws fuel bound m environ (c + 1) a name env.2 settings.3 text bytes out
        (omega arith)
