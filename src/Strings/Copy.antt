-- ===== src/Strings/Copy.antt =====
-- The lengths, copies and comparisons of the strings that stand in memory.
use os.Common.{
  ℕ, zero, suc, ◌+◌, ◌≤◌, ◌<◌, ◌≡◌, refl, ◌≢◌, ◌∙◌, arith, Bool, true, false, ◌&&◌, some, List, [],
  ◌∷◌, ◌==◌, length, ◌⊎◌, inl, inr,
}
use mathlib.Core.Path.{subst}
use os.Common.Links.{update}
use os.Strings.{Memory, strlen, strlen_from, strcpy, strcpy_from, seek_null, append_from, strcat}

-- The bytes `s`, none of them null, stand from address `a` on, with a null byte behind them.
abbrev pub IsString : Memory → ℕ → List ℕ → Type 0
IsString m a [] = m a ≡ 0
IsString m a (c ∷ cs) = (m a ≡ c) × (c ≢ 0) × IsString m (suc a) cs

-- The strings at these addresses.
abbrev pub Strings : Memory → List ℕ → List (List ℕ) → Type 0
Strings m [] [] = true ≡ true
Strings m [] (w ∷ ws) = true ≡ false
Strings m (a ∷ addrs) [] = true ≡ false
Strings m (a ∷ addrs) (w ∷ ws) = IsString m a w × Strings m addrs ws

-- The bytes `s` stand from address `a` on.
abbrev pub stands : Memory → ℕ → List ℕ → Bool
stands m a [] = true
stands m a (c ∷ cs) = (m a == c) && stands m (suc a) cs

strlen_from-IsString :
    (m : Memory) (s : List ℕ) (fuel a n : ℕ)
    → IsString m a s
    → length s < fuel
    → strlen_from fuel m a n ≡ some (n + length s)
unfolding strlen_from
strlen_from-IsString m [] zero a n h enough = absurd (omega arith)
strlen_from-IsString m (c ∷ cs) zero a n h enough = absurd (omega arith)
strlen_from-IsString m [] (suc fuel) a n h enough = ground (arith, h)
strlen_from-IsString m (c ∷ cs) (suc fuel) a n h enough =
    let ih = strlen_from-IsString m cs fuel (suc a) (suc n) h.2 (omega arith) in
    ground (arith, ih, h)

-- With fuel for each byte, `strlen` ends and returns the length of the string.
pub strlen-IsString :
    (m : Memory) (s : List ℕ) (fuel str : ℕ)
    → IsString m str s
    → length s < fuel
    → strlen fuel m str ≡ some (length s)
unfolding strlen
strlen-IsString m s fuel str h enough = ground (arith, strlen_from-IsString m s fuel str 0 h enough)

-- A change of a byte away from the string.
IsString-update :
    (m : Memory) (s : List ℕ) (a p v : ℕ)
    → (p < a) ⊎ (a + length s < p)
    → IsString m a s
    → IsString (update m p v) a s
IsString-update m [] a p v away h = ground (arith, h)
IsString-update m (c ∷ cs) a p v away h =
    (ground (arith, h.0), h.1, IsString-update m cs (suc a) p v (ground arith) h.2)

-- What a copy of the string `s` to address `t` does to the memory.
pub record Copied (m m2 : Memory) (t : ℕ) (s : List ℕ) : Type 0 where
  pub there : IsString m2 t s
  pub elsewhere : (q : ℕ) → (q < t) ⊎ (t + length s < q) → m2 q ≡ m q

Copied-cons :
    (m m2 : Memory) (t c : ℕ) (s : List ℕ)
    → c ≢ 0
    → Copied (update m t c) m2 (suc t) s
    → Copied m m2 t (c ∷ s)
Copied-cons m m2 t c s nz k = record {
  there = (ground (arith, k.elsewhere t (inl (omega arith))), nz, k.there);
  elsewhere = λ q away. ground (arith, k.elsewhere q (ground arith));
}

strcpy_from-Copied :
    (s : List ℕ) (m : Memory) (fuel target src i : ℕ)
    → IsString m (src + i) s
    → (target + i + length s < src + i) ⊎ (src + i + length s < target + i)
    → length s < fuel
    → (m2 : Memory) × (strcpy_from fuel m target src i ≡ some m2) × Copied m m2 (target + i) s
unfolding strcpy_from
strcpy_from-Copied [] m zero target src i h apart enough = absurd (omega arith)
strcpy_from-Copied (c ∷ s) m zero target src i h apart enough = absurd (omega arith)
strcpy_from-Copied [] m (suc fuel) target src i h apart enough = (
  update m (target + i) 0,
  rw h refl,
  record { there = ground arith; elsewhere = λ q away. ground arith },
)
strcpy_from-Copied (c ∷ s) m (suc fuel) target src i h apart enough =
    let m1 = update m (target + i) c in
    let next : src + suc i ≡ suc (src + i) = omega arith in
    let after : target + suc i ≡ suc (target + i) = omega arith in
    let tail : IsString m1 (src + suc i) s =
      rw next (IsString-update m s (suc (src + i)) (target + i) c (ground arith) h.2) in
    let ih = strcpy_from-Copied s m1 fuel target src (suc i) tail (ground arith) (omega arith) in
    let nz : (c == 0) ≡ false = ground (arith, h.1) in
    (
      ih.0,
      rw (h.0, nz) ih.1,
      Copied-cons m ih.0 (target + i) c s h.1 (subst (λ a. Copied m1 ih.0 a s) after ih.2),
    )

-- With fuel for each byte, `strcpy` of a string to a place that it does not overlap ends with the
-- string and its null byte there, and every other byte of the memory as it was.
pub strcpy-Copied :
    (s : List ℕ) (m : Memory) (fuel target src : ℕ)
    → IsString m src s
    → (target + length s < src) ⊎ (src + length s < target)
    → length s < fuel
    → (m2 : Memory) × (strcpy fuel m target src ≡ some m2) × Copied m m2 target s
unfolding strcpy
strcpy-Copied s m fuel target src h apart enough =
    let e : src + 0 ≡ src = omega arith in
    let d : target + 0 ≡ target = omega arith in
    let run = strcpy_from-Copied s m fuel target src 0 (rw e h) (ground arith) enough in
    (run.0, run.1, subst (λ a. Copied m run.0 a s) d run.2)

-- The end of the string that `strcat` extends.
seek_null-IsString :
    (s : List ℕ) (m : Memory) (fuel a : ℕ)
    → IsString m a s
    → length s < fuel
    → seek_null fuel m a ≡ some (a + length s)
unfolding seek_null
seek_null-IsString [] m zero a h enough = absurd (omega arith)
seek_null-IsString (c ∷ s) m zero a h enough = absurd (omega arith)
seek_null-IsString [] m (suc fuel) a h enough = ground (arith, h)
seek_null-IsString (c ∷ s) m (suc fuel) a h enough =
    let ih = seek_null-IsString s m fuel (suc a) h.2 (omega arith) in ground (arith, ih, h)

-- What `strcat` does to the memory from its cursor `t` on.
pub record Appended (m m2 : Memory) (t : ℕ) (s : List ℕ) : Type 0 where
  pub there : stands m2 t s ≡ true
  pub elsewhere : (q : ℕ) → (q < t) ⊎ (t + length s ≤ q) → m2 q ≡ m q

append_from-Appended :
    (s : List ℕ) (m : Memory) (fuel t src : ℕ)
    → IsString m src s
    → (t + length s ≤ src) ⊎ (src + length s < t)
    → length s < fuel
    → (m2 : Memory) × (append_from fuel m t src ≡ some m2) × Appended m m2 t s
unfolding append_from
append_from-Appended [] m zero t src h apart enough = absurd (omega arith)
append_from-Appended (c ∷ s) m zero t src h apart enough = absurd (omega arith)
append_from-Appended [] m (suc fuel) t src h apart enough =
    (m, rw h refl, record { there = refl; elsewhere = λ q away. refl })
append_from-Appended (c ∷ s) m (suc fuel) t src h apart enough =
    let m1 = update m t c in
    let tail = IsString-update m s (suc src) t c (ground arith) h.2 in
    let ih = append_from-Appended s m1 fuel (suc t) (suc src) tail (ground arith) (omega arith) in
    let nz : (c == 0) ≡ false = ground (arith, h.1) in
    (
      ih.0,
      rw (h.0, nz) ih.1,
      record {
        there = ground (arith, ih.2.there, ih.2.elsewhere t (inl (omega arith)));
        elsewhere = λ q away. ground (arith, ih.2.elsewhere q (ground arith));
      },
    )

strcat_at :
    (fuel : ℕ) (m : Memory) (dest src c : ℕ)
    → seek_null fuel m dest ≡ some c
    → strcat fuel m dest src ≡ append_from fuel m c src
unfolding strcat
strcat_at fuel m dest src c e = rw (strcat, e) refl

-- With fuel for each byte, `strcat` of a string that stands apart ends with its bytes behind those of
-- the first string; every other byte is as it was, and so is the one behind the last byte copied,
-- where no null byte is written.
pub strcat-Appended :
    (s t : List ℕ) (m : Memory) (fuel dest src : ℕ)
    → IsString m dest s
    → IsString m src t
    → (dest + length s + length t ≤ src) ⊎ (src + length t < dest)
    → length s < fuel
    → length t < fuel
    → (m2 : Memory) × (strcat fuel m dest src ≡ some m2)
      × Appended m m2 (dest + length s) t
      × (m2 (dest + length s + length t) ≡ m (dest + length s + length t))
unfolding strcat
strcat-Appended s t m fuel dest src h k apart enough enough2 =
    let run = append_from-Appended t m fuel (dest + length s) src k (ground arith) enough2 in
    (
      run.0,
      strcat_at fuel m dest src (dest + length s) (seek_null-IsString s m fuel dest h enough)
          ∙ run.1,
      run.2,
      run.2.elsewhere (dest + length s + length t) (inr (omega arith)),
    )
