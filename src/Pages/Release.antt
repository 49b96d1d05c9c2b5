-- ===== src/Pages/Release.antt =====
-- Giving pages back and counting their users, sys/pmap.c.
use os.Common.{
  ℕ, zero, suc, ◌+◌, ◌-◌, ◌^◌, ◌≤◌, ◌<◌, ◌≡◌, refl, ◌≢◌, ◌∙◌, ◌⊎◌, ap, sym, arith, true, false,
  List, ◌∷◌, ◌==◌, if◌then◌else◌, has, Bool-cases, inl, inr,
}
use os.Common.Links.{update, Chain-update}
use os.Pages.{Pmap, get_free_page, release_page, inc_map_count, walk_list, walk_from}
use os.Pages.Alloc.{Entry, Frees, Taken, get_free_page-Taken, get_free_page-Frees}

-- The walk finds an index in range whose base is the pointer, or there is none.
walk_from_cases :
    (base : ℕ → ℕ) (ptr n i : ℕ)
    → let w = walk_from base ptr n i in
      ((w ≡ 0) × ((q : ℕ) → i < q → q ≤ i + n → base q ≢ ptr))
      ⊎ ((i < w) × (w ≤ i + n) × (base w ≡ ptr))
unfolding walk_from
walk_from_cases base ptr zero i = inl (refl, λ q lo hi. absurd (omega arith))
walk_from_cases base ptr (suc n) i = elim (Bool-cases (base (i + 1) == ptr)) [
  | inl e ↦ rw e (inr (omega arith, omega arith, ground arith))
  | inr e ↦ rw e (elim (walk_from_cases base ptr n (i + 1)) [
    | inl none_ ↦ inl (
      none_.0,
      λ q lo hi. elim (Bool-cases (q == i + 1)) [
        | inl here ↦ ground arith
        | inr there ↦ none_.1 q (ground arith) (omega arith)
      ],
    )
    | inr found ↦ inr (omega arith, omega arith, found.2)
  ])
]

module _ {m : Pmap} {xs : List ℕ} (f : Frees m xs) where
  -- A page of the array is found at its descriptor.
  walk_list-base : (p : ℕ) → Entry m p → walk_list m (m.base p) ≡ p
  unfolding walk_list
  walk_list-base p e = elim (walk_from_cases m.base (m.base p) m.entry_count 0) [
    | inl none_ ↦ absurd (none_.1 p e.0 (omega arith) refl)
    | inr found ↦ f.apart _ p (omega arith, omega arith) e found.2
  ]

  -- What the walk finds is a descriptor.
  walk_list-Entry : (ptr : ℕ) → walk_list m ptr ≢ 0 → Entry m (walk_list m ptr)
  unfolding walk_list
  walk_list-Entry ptr nz = elim (walk_from_cases m.base ptr m.entry_count 0) [
    | inl none_ ↦ absurd (nz none_.0)
    | inr found ↦ (omega arith, omega arith)
  ]

-- The free list after `release_page`: the page joins it at the head when its last user is gone.
abbrev pub freed : Pmap → ℕ → List ℕ → List ℕ
freed m ptr xs =
    if walk_list m ptr == 0
    then xs
    else if m.map_count (walk_list m ptr) == 1
    then walk_list m ptr ∷ xs
    else xs

-- One user less, in the record.
abbrev pub fewer : Pmap → ℕ → Pmap
fewer m p = record m { map_count = update m.map_count p (m.map_count p - 1) }

module _ {m : Pmap} {xs : List ℕ} (f : Frees m xs) (p : ℕ) (e : Entry m p) where
  fewer-Frees : 1 < m.map_count p → Frees (fewer m p) xs
  fewer-Frees more = record {
    chain = f.chain;
    once = f.once;
    within = f.within;
    unmapped = λ q i. ground (arith, f.unmapped q i, f.unmapped p e);
    apart = f.apart;
  }

  last-Frees :
      m.map_count p ≡ 1
      → Frees
          (record (fewer m p) { next = update m.next p m.freelist_head; freelist_head = p })
          (p ∷ xs)
  last-Frees one =
      let out : has p xs ≡ false = ground (arith, f.unmapped p e) in
      record {
        chain = (
          refl,
          (omega arith),
          (let here : update m.next p m.freelist_head p ≡ m.freelist_head = ground arith in
              rw here (Chain-update m.next xs m.freelist_head p m.freelist_head out f.chain)),
        );
        once = ground (arith, f.once);
        within = λ q i. ground (arith, f.within q);
        unmapped = λ q i. ground (arith, f.unmapped q i);
        apart = f.apart;
      }

module _ {m : Pmap} {xs : List ℕ} (f : Frees m xs) where
  -- `release_page` of any pointer keeps the free list in order: a page that is not of the array, or
  -- not mapped, changes nothing; a page with one user joins the list at its head; a page with more
  -- users only loses one.
  pub release_page-Frees : (ptr : ℕ) → Frees (release_page m ptr) (freed m ptr xs)
  unfolding release_page
  release_page-Frees ptr =
      let p : ℕ = walk_list m ptr in
      elim (Bool-cases (p == 0)) [
        | inl z ↦ rw z f
        | inr nz ↦ rw nz (
            let e : Entry m p = walk_list-Entry f ptr (ground arith) in
            elim (Bool-cases (m.map_count p == 0)) [
              | inl z ↦ let one : (m.map_count p == 1) ≡ false = ground arith in rw (z, one) f
              | inr k ↦ rw k (elim (Bool-cases (m.map_count p == 1)) [
                | inl one ↦
                    let gone : (update m.map_count p (m.map_count p - 1) p == 0) ≡ true =
                      ground arith in
                    rw (one, gone) (last-Frees f p e (ground arith))
                | inr more ↦
                    let kept : (update m.map_count p (m.map_count p - 1) p == 0) ≡ false =
                      ground arith in
                    rw (more, kept) (fewer-Frees f p e (ground arith))
              ])
            ])
      ]

  -- One user more, of a page that has users and whose counter does not wrap: nothing else changes,
  -- and the free list stays in order.
  pub inc_map_count-Frees :
      (p : ℕ)
      → Entry m p
      → m.map_count p ≢ 0
      → m.map_count p + 1 < 2 ^ 32
      → Frees (inc_map_count m (m.base p)) xs
        × ((q : ℕ)
            → (inc_map_count m (m.base p)).map_count q
              ≡ (if q == p then m.map_count p + 1 else m.map_count q))
  unfolding inc_map_count
  inc_map_count-Frees p e live small =
      let w : walk_list m (m.base p) ≡ p = walk_list-base f p e in
      let nz : (p == 0) ≡ false = ground arith in
      let k : (m.map_count p == 0) ≡ false = ground arith in
      rw (w, nz, k)
        (
          record {
            chain = f.chain;
            once = f.once;
            within = f.within;
            unmapped = λ q i. ground (arith, f.unmapped q i);
            apart = f.apart;
          },
          λ q. ground arith,
        )

  -- `release_page` of a mapped page takes one user from it and from no other page.
  pub map_count-release_page :
      (p : ℕ)
      → Entry m p
      → m.map_count p ≢ 0
      → (q : ℕ)
      → (release_page m (m.base p)).map_count q
        ≡ (if q == p then m.map_count p - 1 else m.map_count q)
  unfolding release_page
  map_count-release_page p e live q =
      let w : walk_list m (m.base p) ≡ p = walk_list-base f p e in
      let nz : (p == 0) ≡ false = ground arith in
      let k : (m.map_count p == 0) ≡ false = ground arith in
      rw (w, nz, k)
        (elim (Bool-cases (update m.map_count p (m.map_count p - 1) p == 0)) [
          | inl z ↦ rw z refl
          | inr z ↦ rw z refl
        ])

-- Taking the page at the head of the free list and giving it back restores the free list and every
-- user count.
pub release_page-get_free_page :
    {m : Pmap} {p : ℕ} {xs : List ℕ}
    → Frees m (p ∷ xs)
    → let (ret, m') = get_free_page m in
      Frees (release_page m' ret) (p ∷ xs)
      × ((q : ℕ) → (release_page m' ret).map_count q ≡ m.map_count q)
release_page-get_free_page {m} {p} {xs} f =
    let t : Taken m p (get_free_page m).0 (get_free_page m).1 = get_free_page-Taken f in
    let m' : Pmap = (get_free_page m).1 in
    let f' : Frees m' xs = get_free_page-Frees f in
    let e : Entry m' p = ground (arith, f.within p, t.same_count) in
    let page : (get_free_page m).0 ≡ m'.base p =
      t.page ∙ ap (λ (b : ℕ → ℕ). b p) (sym t.same_base) in
    let w : walk_list m' (m'.base p) ≡ p = walk_list-base f' p e in
    let nz : (p == 0) ≡ false = ground (arith, f.chain.1) in
    let one : (m'.map_count p == 1) ≡ true = ground (arith, t.mapped) in
    let list : freed m' (m'.base p) xs ≡ p ∷ xs = rw (w, nz, one) in
    rw page (
      rw list at (release_page-Frees f' (m'.base p)),
      λ q.
          map_count-release_page f' p e (omega (arith, t.mapped)) q
          ∙ ground (arith, t.others q, t.was_free, t.mapped),
    )
