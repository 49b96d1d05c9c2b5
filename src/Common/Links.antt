-- ===== src/Common/Links.antt =====
-- Singly linked structures whose links are a function from addresses to addresses, with 0 for the
-- null pointer: the free lists, the task queues and the regions of a process.
use Prim.Native.Nat.{ℕ, zero, suc, ◌<◌}
use mathlib.Core.Path.{◌≡◌, refl, sym, ◌∙◌, subst}
use mathlib.Core.Logic.{◌≢◌}
use mathlib.Core.Bool.{Bool, true, false, ◌&&◌, not}
use mathlib.Core.List.{List, [], ◌∷◌, ◌++◌}
use mathlib.Core.Option.{Option, none, some}
use native.Mathlib.Omega.{arith}
use os.Common.Tests.{◌==◌, if◌then◌else◌}
use os.Common.Lists.{length, has, has-append}

abbrev pub Links : Type 0
Links = ℕ → ℕ

abbrev pub update {ℓ} : {A : Type ℓ} → (ℕ → A) → ℕ → A → ℕ → A
update f p v q = if q == p then v else f q

-- From `p` the links lead through the nodes `xs`, in order, to null.
abbrev pub Chain : Links → ℕ → List ℕ → Type 0
Chain next p [] = p ≡ 0
Chain next p (x ∷ xs) = (p ≡ x) × (x ≢ 0) × Chain next (next x) xs

-- No node stands twice.
abbrev pub distinct : List ℕ → Bool
distinct [] = true
distinct (x ∷ xs) = not (has x xs) && distinct xs

-- `while (cursor->next != NULL) cursor = cursor->next;` with fuel.
unfoldable pub last_node : ℕ → Links → ℕ → Option ℕ
last_node zero next p = none
last_node (suc f) next p =
    let rest = last_node f next (next p) in if next p == 0 then some p else rest

module _ (next : Links) where
  -- A change of the link of a node that is not in the chain leaves the chain as it is.
  pub Chain-update :
      (xs : List ℕ) (p q v : ℕ) → has q xs ≡ false → Chain next p xs → Chain (update next q v) p xs
  Chain-update [] p q v out c = c
  Chain-update (x ∷ xs) p q v out c = (
    c.0,
    c.1,
    let e : update next q v x ≡ next x = ground arith in
        rw e (Chain-update xs (next x) q v (ground arith) c.2),
  )

  -- The nodes of a chain are determined by its links.
  pub Chain-unique : (xs ys : List ℕ) (p : ℕ) → Chain next p xs → Chain next p ys → xs ≡ ys
  Chain-unique [] [] p c d = refl
  Chain-unique [] (y ∷ ys) p c d = absurd (omega arith)
  Chain-unique (x ∷ xs) [] p c d = absurd (omega arith)
  Chain-unique (x ∷ xs) (y ∷ ys) p c d =
      let e : x ≡ y = sym c.0 ∙ d.0 in
      cc (e, Chain-unique xs ys (next x) c.2 (subst (λ z. Chain next (next z) ys) (sym e) d.2))

  pub Chain-snoc_ne_zero : (xs : List ℕ) (p y : ℕ) → Chain next p (xs ++ y ∷ []) → p ≢ 0
  Chain-snoc_ne_zero [] p y c = ground (arith, c)
  Chain-snoc_ne_zero (x ∷ xs) p y c = ground (arith, c)

  -- The walk to the end of a queue ends at its last node, with fuel for each node.
  pub last_node-Chain :
      (xs : List ℕ) (f p y : ℕ)
      → Chain next p (xs ++ y ∷ [])
      → length xs < f
      → last_node f next p ≡ some y
  unfolding last_node
  last_node-Chain xs zero p y c h = absurd (omega arith)
  last_node-Chain [] (suc f) p y c h = ground (arith, c)
  last_node-Chain (x ∷ xs) (suc f) p y c h =
      let ih = last_node-Chain xs f (next x) y c.2 (omega arith) in
      let live : next x ≢ 0 = Chain-snoc_ne_zero xs (next x) y c.2 in rw c.0 (ground (arith, ih))

  -- A new node linked behind the last one extends the chain by that node.
  pub Chain-snoc :
      (xs : List ℕ) (p y z : ℕ)
      → Chain next p (xs ++ y ∷ [])
      → has z (xs ++ y ∷ []) ≡ false
      → distinct (xs ++ y ∷ []) ≡ true
      → z ≢ 0
      → Chain (update (update next y z) z 0) p (xs ++ y ∷ z ∷ [])
  Chain-snoc [] p y z c out d nz = ground arith
  Chain-snoc (x ∷ xs) p y z c out d nz = (
    c.0,
    c.1,
    let apart : (x == y) ≡ false = ground (arith, has-append x xs (y ∷ [])) in
        let same : update (update next y z) z 0 x ≡ next x = ground arith in
        rw same (Chain-snoc xs (next x) y z c.2 (ground arith) (ground arith) nz),
  )

  -- The same where the new node's link is null already.
  pub Chain-link :
      (xs : List ℕ) (p y z : ℕ)
      → Chain next p (xs ++ y ∷ [])
      → has z (xs ++ y ∷ []) ≡ false
      → distinct (xs ++ y ∷ []) ≡ true
      → z ≢ 0
      → next z ≡ 0
      → Chain (update next y z) p (xs ++ y ∷ z ∷ [])
  Chain-link [] p y z c out d nz e = ground arith
  Chain-link (x ∷ xs) p y z c out d nz e = (
    c.0,
    c.1,
    let apart : (x == y) ≡ false = ground (arith, has-append x xs (y ∷ [])) in
        let same : update next y z x ≡ next x = ground arith in
        rw same (Chain-link xs (next x) y z c.2 (ground arith) (ground arith) nz e),
  )

  -- Clearing the last link of a chain.
  pub Chain-end :
      (xs : List ℕ) (p y : ℕ)
      → Chain next p (xs ++ y ∷ [])
      → distinct (xs ++ y ∷ []) ≡ true
      → Chain (update next y 0) p (xs ++ y ∷ [])
  Chain-end [] p y c d = ground arith
  Chain-end (x ∷ xs) p y c d = (
    c.0,
    c.1,
    let apart : (x == y) ≡ false = ground (arith, has-append x xs (y ∷ [])) in
        let same : update next y 0 x ≡ next x = ground arith in
        rw same (Chain-end xs (next x) y c.2 (ground arith)),
  )

pub distinct-snoc :
    (xs : List ℕ) (z : ℕ) → distinct xs ≡ true → has z xs ≡ false → distinct (xs ++ z ∷ []) ≡ true
distinct-snoc [] z d out = refl
distinct-snoc (x ∷ xs) z d out = ground (arith, has-append x xs (z ∷ []), distinct-snoc xs z)
