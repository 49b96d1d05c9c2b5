-- ===== src/Heap/Layout.antt =====
-- The blocks that `malloc` of libc/memory.c hands out.
use os.Common.{
  ℕ, zero, suc, ◌+◌, ◌%◌, ◌^◌, ◌≤◌, ◌<◌, ◌≡◌, refl, ◌≢◌, ◌∙◌, ap, sym, arith, true, false, ◌&&◌,
  some, List, [], ◌∷◌, ◌++◌, leb, ◌==◌, length, has, Bool-cases, inl, inr,
}
use mathlib.Core.Path.{subst}
use os.Common.Int.{ℤ, pos}
use os.Common.Links.{update, distinct, Chain}
use os.Regions.{Regions, sys_brk}
use os.Regions.Break.{heap_of, find_heap-heap_of, sys_brk_now, sys_brk_holds}
use os.Heap.{Heap, malign_up, is_mapped, sbrk, Stop, again, last, search}

-- The blocks lie one behind the other, from `low` on and below `top`.
abbrev pub Laid : (ℕ → ℕ) → ℕ → List ℕ → ℕ → Type 0
Laid size low [] top = low ≤ top
Laid size low (b ∷ bs) top = (low ≤ b) × Laid size (b + 24 + size b) bs top

pub Laid-le : (size : ℕ → ℕ) (bs : List ℕ) (low top : ℕ) → Laid size low bs top → low ≤ top
Laid-le size [] low top l = l
Laid-le size (b ∷ bs) low top l = omega (arith, l.0, Laid-le size bs (b + 24 + size b) top l.1)

-- One more block, behind the top of before.
pub Laid-snoc :
    (size : ℕ → ℕ) (bs : List ℕ) (low top b n top' : ℕ)
    → Laid size low bs top
    → top ≤ b
    → b + 24 + n ≤ top'
    → Laid (update size b n) low (bs ++ b ∷ []) top'
Laid-snoc size [] low top b n top' l h k =
    let here : update size b n b ≡ n = ground arith in (omega (arith, l), omega (arith, here))
Laid-snoc size (x ∷ bs) low top b n top' l h k =
    let below = Laid-le size bs (x + 24 + size x) top l.1 in
    let same : update size b n x ≡ size x = ground (arith, below, h) in
    (
      l.0,
      subst (λ s. Laid (update size b n) (x + 24 + s) (bs ++ b ∷ []) top') (sym same)
          (Laid-snoc size bs (x + 24 + size x) top b n top' l.1 h k),
    )

-- A process whose regions are a list, with fuel for each, one of them for the heap, which holds what
-- is below the break.
pub record Ready (fuel : ℕ) (r : Regions) : Type 0 where
  pub xs : List ℕ
  pub chain : Chain r.next r.vm xs
  pub enough : length xs < fuel
  pub has_heap : heap_of r.type xs ≢ 0
  pub covered : r.brk ≤ r.vm_end (heap_of r.type xs)

pub is_mapped-Ready :
    (fuel p : ℕ) (r : Regions) (k : Ready fuel r) → p + 24 ≤ r.brk → is_mapped fuel p r ≡ true
unfolding is_mapped
is_mapped-Ready fuel p r k h =
    let e = find_heap-heap_of k.xs fuel r r.vm k.chain k.enough in
    rw (is_mapped, e) (ground (arith, k.has_heap, k.covered))

sbrk_at :
    (fuel inc : ℕ) (r : Regions) (ret : ℤ) (r2 : Regions)
    → r.brk < 2 ^ 63
    → 1 ≤ inc
    → sys_brk fuel (malign_up ((r.brk + inc) % 2 ^ 64)) r ≡ some (ret, r2)
    → sbrk fuel inc r ≡ some (r.brk, r2)
unfolding sbrk
sbrk_at fuel inc r ret r2 h some_ e =
    let nz : (inc == 0) ≡ false = ground arith in rw (sbrk, sys_brk_now fuel r h, nz, e) refl

pub sbrk_grows :
    (fuel inc : ℕ) (r : Regions)
    → Ready fuel r
    → 1 ≤ inc
    → r.brk + inc + 64 < 1030792085504
    → (r2 : Regions) × (sbrk fuel inc r ≡ some (r.brk, r2)) × (r.brk + inc ≤ r2.brk) × Ready fuel r2
sbrk_grows fuel inc r ready some_ small =
    let wrap : (r.brk + inc) % 2 ^ 64 ≡ r.brk + inc = omega arith in
    let up : r.brk + inc < malign_up (r.brk + inc) = omega arith in
    let low : malign_up (r.brk + inc) < 1030792085504 = omega arith in
    let (r2, e, b, v, n, t, top) =
      sys_brk_holds ready.xs fuel (malign_up (r.brk + inc)) r ready.chain ready.enough
        ready.has_heap (omega arith) low in
    let e' = ap (λ x. sys_brk fuel (malign_up x) r) wrap ∙ e in
    (
      r2,
      sbrk_at fuel inc r (pos 0) r2 (omega arith) some_ e',
      omega (arith, b, up),
      record {
        xs = ready.xs;
        chain = rw (v, n) ready.chain;
        enough = ready.enough;
        has_heap = rw t ready.has_heap;
        covered = rw t (omega (arith, b, top));
      },
    )

-- The blocks of a process: a list from `head` on, laid out from `low` to the break.
pub record Blocks (fuel low : ℕ) (h : Heap) (bs : List ℕ) : Type 0 where
  pub chain : Chain h.next h.head bs
  pub laid : Laid h.size low bs h.regions.brk
  pub positive : 1 ≤ low
  pub ready : Ready fuel h.regions

-- Where the search stops.
unfoldable pub Stopped : ℕ → Heap → List ℕ → Stop → Type 0
Stopped size h bs (again b) = (has b bs ≡ true) × (h.free b ≡ true) × (size ≤ h.size b)
Stopped size h bs (last y) = (ys : List ℕ) × (bs ≡ ys ++ y ∷ [])

Stopped-cons :
    (size : ℕ) (h : Heap) (b : ℕ) (bs : List ℕ) (s : Stop)
    → Stopped size h bs s
    → Stopped size h (b ∷ bs) s
unfolding Stopped
Stopped-cons size h b bs (again c) t = (ground (arith, t.0), t.1, t.2)
Stopped-cons size h b bs (last y) (ys, e) = (b ∷ ys, ap (λ l. b ∷ l) e)

search_again :
    (fuel size : ℕ) (h : Heap) (p : ℕ)
    → (h.free p && leb size (h.size p)) ≡ true
    → search (suc fuel) size h p ≡ some (again p)
unfolding search
search_again fuel size h p f = rw (search, f) refl

search_last :
    (fuel size : ℕ) (h : Heap) (p : ℕ)
    → (h.free p && leb size (h.size p)) ≡ false
    → (h.next p == 0) ≡ true
    → search (suc fuel) size h p ≡ some (last p)
unfolding search
search_last fuel size h p f n = rw (search, f, n) refl

search_on :
    (fuel size : ℕ) (h : Heap) (p : ℕ)
    → (h.free p && leb size (h.size p)) ≡ false
    → (h.next p == 0) ≡ false
    → search (suc fuel) size h p ≡ search fuel size h (h.next p)
unfolding search
search_on fuel size h p f n = rw (search, f, n) refl

pub search-Stopped :
    (bs : List ℕ) (fuel size : ℕ) (h : Heap) (b : ℕ)
    → Chain h.next b (b ∷ bs)
    → length bs < fuel
    → (s : Stop) × (search fuel size h b ≡ some s) × Stopped size h (b ∷ bs) s
unfolding Stopped
search-Stopped [] zero size h b c enough = absurd (omega arith)
search-Stopped (x ∷ xs) zero size h b c enough = absurd (omega arith)
search-Stopped [] (suc fuel) size h b c enough =
    elim (Bool-cases (h.free b && leb size (h.size b))) [
      | inl f ↦ (
        again b,
        search_again fuel size h b f,
        (ground arith, ground (arith, f), ground (arith, f)),
      )
      | inr f ↦ (last b, search_last fuel size h b f (ground (arith, c.2)), ([], refl))
    ]
search-Stopped (x ∷ xs) (suc fuel) size h b c enough =
    elim (Bool-cases (h.free b && leb size (h.size b))) [
      | inl f ↦ (
        again b,
        search_again fuel size h b f,
        (ground arith, ground (arith, f), ground (arith, f)),
      )
      | inr f ↦
          let d = c.2 in
          let (s, eq, t) = search-Stopped xs fuel size h x (refl, d.1, d.2) (omega arith) in
          (
            s,
            search_on fuel size h b f (ground (arith, d.0, d.1)) ∙ ap (search fuel size h) d.0 ∙ eq,
            Stopped-cons size h b (x ∷ xs) s t,
          )
    ]

Laid-has :
    (size : ℕ → ℕ) (bs : List ℕ) (low top q : ℕ)
    → Laid size low bs top
    → has q bs ≡ true
    → (low ≤ q) × (q < top)
Laid-has size [] low top q l h = absurd (ground (arith, h))
Laid-has size (b ∷ bs) low top q l h = elim (Bool-cases (b == q)) [
  | inl e ↦
      let below = Laid-le size bs (b + 24 + size b) top l.1 in
      (ground (arith, e, l.0), ground (arith, e, below))
  | inr n ↦
      let ih = Laid-has size bs (b + 24 + size b) top q l.1 (ground (arith, h, n)) in
      (omega (arith, ih.0, l.0), ih.1)
]

pub Laid-out :
    (size : ℕ → ℕ) (bs : List ℕ) (low top q : ℕ) → Laid size low bs top → top ≤ q → has q bs ≡ false
Laid-out size bs low top q l h = elim (Bool-cases (has q bs)) [
  | inl i ↦ absurd (omega (arith, (Laid-has size bs low top q l i).1))
  | inr o ↦ o
]

pub Laid-distinct :
    (size : ℕ → ℕ) (bs : List ℕ) (low top : ℕ) → Laid size low bs top → distinct bs ≡ true
Laid-distinct size [] low top l = refl
Laid-distinct size (b ∷ bs) low top l =
    let ih = Laid-distinct size bs (b + 24 + size b) top l.1 in
    let out : has b bs ≡ false = elim (Bool-cases (has b bs)) [
      | inl i ↦ absurd (omega (arith, (Laid-has size bs (b + 24 + size b) top b l.1 i).0))
      | inr o ↦ o
    ] in
    ground (arith, ih, out)
