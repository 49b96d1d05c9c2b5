-- ===== src/Common/Window.antt =====
-- Circular arrays: the bytes from an index on, going round at the array's size `m`.
use Prim.Native.Nat.{ℕ, zero, suc, ◌+◌, ◌-◌, ◌%◌, ◌≤◌, ◌<◌}
use mathlib.Core.Path.{◌≡◌, refl, ◌∙◌, ap, subst}
use mathlib.Core.Logic.{◌≢◌}
use mathlib.Core.List.{List, [], ◌∷◌, ◌++◌}
use native.Mathlib.Nat.{mod-eq_of_lt, mod-eq-sub-mod}
use native.Mathlib.Decide.{dec_lt}
use native.Mathlib.Omega.{arith}
use os.Common.Tests.{ltb, if◌then◌else◌}
use os.Common.Lists.{length, get_or, set, get_or-set_self, get_or-set_ne}

-- `i % m` for an index that has gone round at most once.
abbrev pub wrap : ℕ → ℕ → ℕ
wrap m i = if ltb i m then i else i - m

pub mod-wrap : (m i : ℕ) → i < m + m → i % m ≡ wrap m i
mod-wrap m i h = elim (dec_lt i m) [
  | yes p ↦ ground (arith, mod-eq_of_lt p)
  | no p ↦ ground (
    arith,
    mod-eq-sub-mod {n = i} {m = m} (omega arith),
    mod-eq_of_lt {n = i - m} {m = m} (omega arith),
  )
]

module _ (m : ℕ) where
  -- The `n` bytes from index `s` on.
  abbrev pub window : List ℕ → ℕ → ℕ → List ℕ
  window buf s zero = []
  window buf s (suc n) = get_or buf s 0 ∷ window buf (wrap m (s + 1)) n

  pub length-window : (buf : List ℕ) (s n : ℕ) → length (window buf s n) ≡ n
  length-window buf s zero = refl
  length-window buf s (suc n) = ap suc (length-window buf (wrap m (s + 1)) n)

  -- A window grows at its end.
  pub window-snoc :
      (buf : List ℕ) (s n : ℕ)
      → s < m
      → n < m
      → window buf s (suc n) ≡ window buf s n ++ get_or buf (wrap m (s + n)) 0 ∷ []
  window-snoc buf s zero h k = let e : wrap m (s + 0) ≡ s = ground arith in rw e
  window-snoc buf s (suc n) h k =
      let e : wrap m (wrap m (s + 1) + n) ≡ wrap m (s + suc n) = ground arith in
      ap (λ l. get_or buf s 0 ∷ l)
        (window-snoc buf (wrap m (s + 1)) n (ground arith) (omega arith) ∙ rw e)

  -- A write behind the end of a window leaves the window as it is.
  pub window-set :
      (buf : List ℕ) (s n k v : ℕ)
      → s < m
      → n ≤ k
      → k < m
      → window (set buf (wrap m (s + k)) v) s n ≡ window buf s n
  window-set buf s zero k v hs hn hk = refl
  window-set buf s (suc n) zero v hs hn hk = absurd (omega arith)
  window-set buf s (suc n) (suc k) v hs hn hk =
      let apart : wrap m (s + suc k) ≢ s = ground arith in
      let e : wrap m (wrap m (s + 1) + k) ≡ wrap m (s + suc k) = ground arith in
      rw (get_or-set_ne buf (wrap m (s + suc k)) s v 0 apart) (
        ap (λ l. get_or buf s 0 ∷ l)
          (subst (λ i. window (set buf i v) (wrap m (s + 1)) n ≡ window buf (wrap m (s + 1)) n) e
            (window-set buf (wrap m (s + 1)) n k v (ground arith) (omega arith) (omega arith))))

  -- A write just behind the end extends the window by the value written.
  pub window-push :
      (buf : List ℕ) (s n v : ℕ)
      → s < m
      → n < m
      → m ≤ length buf
      → window (set buf (wrap m (s + n)) v) s (suc n) ≡ window buf s n ++ v ∷ []
  window-push buf s n v hs hn hl =
      window-snoc (set buf (wrap m (s + n)) v) s n hs hn
      ∙ rw
          (
            window-set buf s n n v hs (omega arith) hn,
            get_or-set_self buf (wrap m (s + n)) v 0 (ground arith),
          )
          refl
