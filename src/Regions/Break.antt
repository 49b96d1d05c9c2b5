-- ===== src/Regions/Break.antt =====
-- What `sys_brk` does with the heap's region.
use os.Common.{
  ℕ, zero, suc, ◌+◌, ◌-◌, ◌^◌, ◌≤◌, ◌<◌, ◌≡◌, refl, ◌≢◌, ◌∙◌, ap, arith, true, false, some, List,
  [], ◌∷◌, ltb, leb, ◌==◌, if◌then◌else◌, length, Bool-cases, inl, inr,
}
use os.Common.Int.{ℤ, pos, minus_one}
use os.Common.Links.{Links, update, Chain}
use os.Regions.{Regions, find_heap, grow, sys_brk, align_up}

-- The first of the regions whose type is that of the heap, or 0.
abbrev pub heap_of : (ℕ → ℕ) → List ℕ → ℕ
heap_of type [] = 0
heap_of type (x ∷ xs) = if type x == 3 then x else heap_of type xs

pub find_heap-heap_of :
    (xs : List ℕ) (fuel : ℕ) (r : Regions) (p : ℕ)
    → Chain r.next p xs
    → length xs < fuel
    → find_heap fuel r p ≡ some (heap_of r.type xs)
unfolding find_heap
find_heap-heap_of xs zero r p c enough = absurd (omega arith)
find_heap-heap_of [] (suc fuel) r p c enough = ground (arith, c)
find_heap-heap_of (x ∷ xs) (suc fuel) r p c enough =
    let ih = find_heap-heap_of xs fuel r (r.next x) c.2 (omega arith) in
    let nz : (x == 0) ≡ false = ground (arith, c.1) in rw (c.0, nz, ih) (ground arith)

-- Below the bound, an address aligned up is not below the address and less than a page above it.
align_up-bounds : (x : ℕ) → 0 < x → x < 2 ^ 63 → (x ≤ align_up x) × (align_up x < x + 4096)
align_up-bounds x h k = ground arith

heap_of_live :
    (xs : List ℕ) (type : ℕ → ℕ) (next : Links) (p : ℕ)
    → Chain next p xs
    → heap_of type xs ≢ 0
    → p ≢ 0
heap_of_live [] type next p c live = absurd (live refl)
heap_of_live (x ∷ xs) type next p c live = ground (arith, c.0, c.1)

sys_brk_at :
    (fuel nbrk h : ℕ) (r : Regions)
    → find_heap fuel (record r { brk = nbrk }) r.vm ≡ some h
    → r.vm ≢ 0
    → r.brk < nbrk
    → nbrk < 2 ^ 64 - 1
    → sys_brk fuel nbrk r ≡ some (grow nbrk h (record r { brk = nbrk }))
unfolding sys_brk
sys_brk_at fuel nbrk h r e live up below =
    let a : (nbrk == 2 ^ 64 - 1) ≡ false = ground arith in
    let b : ltb r.brk nbrk ≡ true = ground arith in
    let c : (r.vm == 0) ≡ false = ground arith in rw (a, b, c, e) refl

-- With fuel for each region, a call of `sys_brk` for a break above the current one and below the
-- stack, in a process whose heap ends below that break, returns 0, sets the break, and moves the
-- heap's end, to at least the break and less than a page above it; nothing else changes.
pub sys_brk_grows :
    (xs : List ℕ) (fuel nbrk : ℕ) (r : Regions)
    → Chain r.next r.vm xs
    → length xs < fuel
    → heap_of r.type xs ≢ 0
    → r.brk < nbrk
    → r.vm_end (heap_of r.type xs) < nbrk
    → nbrk < 1030792085504
    → (sys_brk fuel nbrk r
        ≡ some (
          pos 0,
          record r { brk = nbrk; vm_end = update r.vm_end (heap_of r.type xs) (align_up nbrk) },
        ))
      × (nbrk ≤ align_up nbrk)
      × (align_up nbrk < nbrk + 4096)
unfolding grow
sys_brk_grows xs fuel nbrk r c enough live up out room =
    let h = heap_of r.type xs in
    let nz : (h == 0) ≡ false = ground (arith, live) in
    let past : ltb (r.vm_end h) nbrk ≡ true = ground (arith, out) in
    let low : leb 1030792085504 nbrk ≡ false = ground arith in
    (
      sys_brk_at fuel nbrk h r (find_heap-heap_of xs fuel (record r { brk = nbrk }) r.vm c enough)
            (heap_of_live xs r.type r.next r.vm c live) up (omega arith)
          ∙ ap some (rw (grow, nz, past, low) refl),
      (align_up-bounds nbrk (omega arith) (omega arith)).0,
      (align_up-bounds nbrk (omega arith) (omega arith)).1,
    )

-- Where such a break would reach into the stack instead, the call returns -1 and leaves every region
-- as it is, but the break that it has refused is the current one from then on.
pub sys_brk_refused_moves :
    (xs : List ℕ) (fuel nbrk : ℕ) (r : Regions)
    → Chain r.next r.vm xs
    → length xs < fuel
    → heap_of r.type xs ≢ 0
    → r.brk < nbrk
    → r.vm_end (heap_of r.type xs) < nbrk
    → 1030792085504 ≤ nbrk
    → nbrk < 2 ^ 64 - 1
    → sys_brk fuel nbrk r ≡ some (minus_one, record r { brk = nbrk })
unfolding grow
sys_brk_refused_moves xs fuel nbrk r c enough live up out high below =
    let h = heap_of r.type xs in
    let nz : (h == 0) ≡ false = ground (arith, live) in
    let past : ltb (r.vm_end h) nbrk ≡ true = ground (arith, out) in
    let tall : leb 1030792085504 nbrk ≡ true = ground arith in
    sys_brk_at fuel nbrk h r (find_heap-heap_of xs fuel (record r { brk = nbrk }) r.vm c enough)
      (heap_of_live xs r.type r.next r.vm c live) up below
    ∙ ap some (rw (grow, nz, past, tall) refl)

-- A greater break below the stack is held by the heap's region, whether this has to grow or not.
pub sys_brk_holds :
    (xs : List ℕ) (fuel nbrk : ℕ) (r : Regions)
    → Chain r.next r.vm xs
    → length xs < fuel
    → heap_of r.type xs ≢ 0
    → r.brk < nbrk
    → nbrk < 1030792085504
    → (r2 : Regions) × (sys_brk fuel nbrk r ≡ some (pos 0, r2))
      × (r2.brk ≡ nbrk)
      × (r2.vm ≡ r.vm)
      × (r2.next ≡ r.next)
      × (r2.type ≡ r.type)
      × (nbrk ≤ r2.vm_end (heap_of r.type xs))
unfolding grow
sys_brk_holds xs fuel nbrk r c enough live up room =
    let h = heap_of r.type xs in
    elim (Bool-cases (ltb (r.vm_end h) nbrk)) [
      | inl past ↦
          let (e, top, near) =
            sys_brk_grows xs fuel nbrk r c enough live up (ground (arith, past)) room in
          (_, e, refl, refl, refl, refl, ground (arith, top))
      | inr past ↦
          let nz : (h == 0) ≡ false = ground (arith, live) in
          (
            record r { brk = nbrk },
            sys_brk_at fuel nbrk h r
                  (find_heap-heap_of xs fuel (record r { brk = nbrk }) r.vm c enough)
                  (heap_of_live xs r.type r.next r.vm c live) up (omega arith)
                ∙ ap some (rw (grow, nz, past) refl),
            refl,
            refl,
            refl,
            refl,
            ground (arith, past),
          )
    ]

-- The call for the current break.
pub sys_brk_now :
    (fuel : ℕ) (r : Regions) → r.brk < 2 ^ 63 → sys_brk fuel (2 ^ 64 - 1) r ≡ some (pos r.brk, r)
unfolding sys_brk
sys_brk_now fuel r h = let low : ltb r.brk (2 ^ 63) ≡ true = ground arith in rw (sys_brk, low) refl

grow_keeps :
    (nbrk h : ℕ) (r : Regions)
    → ((grow nbrk h r).1.brk ≡ r.brk)
      × ((grow nbrk h r).1.vm ≡ r.vm)
      × ((grow nbrk h r).1.next ≡ r.next)
unfolding grow
grow_keeps nbrk h r = elim (Bool-cases (h == 0)) [
  | inl a ↦ rw a (refl, refl, refl)
  | inr a ↦ rw a (elim (Bool-cases (ltb (r.vm_end h) nbrk)) [
    | inr b ↦ rw b (refl, refl, refl)
    | inl b ↦ rw b (elim (Bool-cases (leb 1030792085504 nbrk)) [
      | inl c ↦ rw c (refl, refl, refl)
      | inr c ↦ rw c (refl, refl, refl)
    ])
  ])
]

-- A call for a greater break moves it, whatever it returns.
pub sys_brk_moves :
    (xs : List ℕ) (fuel nbrk : ℕ) (r : Regions)
    → Chain r.next r.vm xs
    → length xs < fuel
    → r.brk < nbrk
    → nbrk < 2 ^ 64 - 1
    → (ret : ℤ) × (r2 : Regions) × (sys_brk fuel nbrk r ≡ some (ret, r2))
      × (r2.brk ≡ nbrk)
      × (r2.vm ≡ r.vm)
      × (r2.next ≡ r.next)
unfolding sys_brk
sys_brk_moves xs fuel nbrk r c enough up below = elim (Bool-cases (r.vm == 0)) [
  | inl z ↦
      let a : (nbrk == 2 ^ 64 - 1) ≡ false = ground arith in
      let b : ltb r.brk nbrk ≡ true = ground arith in
      (minus_one, record r { brk = nbrk }, rw (sys_brk, a, b, z) refl, refl, refl, refl)
  | inr live ↦
      let moved = record r { brk = nbrk } in
      let h = heap_of r.type xs in
      let k = grow_keeps nbrk h moved in
      (
        (grow nbrk h moved).0,
        (grow nbrk h moved).1,
        sys_brk_at fuel nbrk h r (find_heap-heap_of xs fuel moved r.vm c enough)
            (ground (arith, live)) up below,
        k.0,
        k.1,
        k.2,
      )
]
