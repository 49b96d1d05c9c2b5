-- ===== src/Paging/Slot.antt =====
-- The addresses through which sys/pging.c reaches the entries of the tables.
use os.Common.{
  ℕ, ◌+◌, ◌*◌, ◌%◌, ◌^◌, ◌<◌, ◌≡◌, refl, ◌∙◌, ap, arith, true, some, List, [], ◌∷◌, ◌++◌,
  Bool-cases, inl, inr,
}
use os.Paging.{
  is_present, frame_of, pml4_index, pdpt_index, pdt_index, pt_index, get_phys, get_pdt, get_pdpt,
  get_pmlt, upper_indices, walk, page_at, translate,
}

get_phys-indices :
    (v : ℕ)
    → v < 2 ^ 64
    → (pml4_index (get_phys v) ≡ 510)
      × (pdpt_index (get_phys v) ≡ pml4_index v)
      × (pdt_index (get_phys v) ≡ pdpt_index v)
      × (pt_index (get_phys v) ≡ pdt_index v)
      × (get_phys v % 4096 ≡ 8 * pt_index v)
unfolding get_phys
get_phys-indices v h = (omega arith, omega arith, omega arith, omega arith, omega arith)

get_pdt-indices :
    (v : ℕ)
    → v < 2 ^ 64
    → (pml4_index (get_pdt v) ≡ 510)
      × (pdpt_index (get_pdt v) ≡ 510)
      × (pdt_index (get_pdt v) ≡ pml4_index v)
      × (pt_index (get_pdt v) ≡ pdpt_index v)
      × (get_pdt v % 4096 ≡ 8 * pdt_index v)
unfolding get_pdt
get_pdt-indices v h = (omega arith, omega arith, omega arith, omega arith, omega arith)

get_pdpt-indices :
    (v : ℕ)
    → v < 2 ^ 64
    → (pml4_index (get_pdpt v) ≡ 510)
      × (pdpt_index (get_pdpt v) ≡ 510)
      × (pdt_index (get_pdpt v) ≡ 510)
      × (pt_index (get_pdpt v) ≡ pml4_index v)
      × (get_pdpt v % 4096 ≡ 8 * pdpt_index v)
unfolding get_pdpt
get_pdpt-indices v h = (omega arith, omega arith, omega arith, omega arith, omega arith)

get_pmlt-indices :
    (v : ℕ)
    → v < 2 ^ 64
    → (pml4_index (get_pmlt v) ≡ 510)
      × (pdpt_index (get_pmlt v) ≡ 510)
      × (pdt_index (get_pmlt v) ≡ 510)
      × (pt_index (get_pmlt v) ≡ 510)
      × (get_pmlt v % 4096 ≡ 8 * pml4_index v)
unfolding get_pmlt
get_pmlt-indices v h = (omega arith, omega arith, omega arith, omega arith, omega arith)

-- A walk that gets one level further.
walk-last :
    (e : ℕ → ℕ → ℕ) (is : List ℕ) (i table last : ℕ)
    → walk e (is ++ i ∷ []) table ≡ some last
    → (mid : ℕ) × (walk e is table ≡ some mid)
      × (is_present (e mid i) ≡ true)
      × (frame_of (e mid i) ≡ last)
unfolding walk
walk-last e [] i table last w = (table, refl, ground (arith, w), ground (arith, w))
walk-last e (j ∷ is) i table last w = elim (Bool-cases (is_present (e table j))) [
  | inl p ↦
      let (mid, a, b, c) = walk-last e is i (frame_of (e table j)) last (rw p at w) in
      (mid, rw p a, b, c)
  | inr n ↦ absurd (ground (arith, w, n))
]

page_at_table :
    (e : ℕ → ℕ → ℕ) (v i table last : ℕ)
    → pt_index v ≡ i
    → is_present (e table i) ≡ true
    → frame_of (e table i) ≡ last
    → page_at e v (some table) ≡ some (last + v % 4096)
unfolding page_at
page_at_table e v i table last d p f = rw (d, p, f) refl

walk_nil : (e : ℕ → ℕ → ℕ) (table : ℕ) → walk e [] table ≡ some table
unfolding walk
walk_nil e table = refl

module _ (e : ℕ → ℕ → ℕ) (root : ℕ) (loop : is_present (e root 510) ≡ true)
    (self : frame_of (e root 510) ≡ root) where
  -- A step through the slot leads back to the top table.
  walk-slot : (is : List ℕ) → walk e (510 ∷ is) root ≡ walk e is root
  unfolding walk
  walk-slot is = rw (loop, self) refl

  -- The address of the entry at `i` of the table that a walk along three indices reaches.
  slot_lem :
      (a i1 i2 i3 i table last : ℕ)
      → pml4_index a ≡ i1
      → pdpt_index a ≡ i2
      → pdt_index a ≡ i3
      → walk e (i1 ∷ i2 ∷ i3 ∷ []) root ≡ some table
      → pt_index a ≡ i
      → is_present (e table i) ≡ true
      → frame_of (e table i) ≡ last
      → translate e root a ≡ some (last + a % 4096)
  unfolding translate
  slot_lem a i1 i2 i3 i table last d1 d2 d3 w d p f =
      rw (d1, d2, d3, w) (page_at_table e a i table last d p f)

-- Where the slot 510 of the top table leads back to it, the four addresses that the code computes for
-- an address `v` are, by the tables themselves, those of the entries of `v` in the tables of the four
-- levels, as far as these are present.
pub slots-entries :
    (e : ℕ → ℕ → ℕ) (root v t3 t2 t1 : ℕ)
    → v < 2 ^ 64
    → is_present (e root 510) ≡ true
    → frame_of (e root 510) ≡ root
    → walk e (pml4_index v ∷ []) root ≡ some t3
    → walk e (pml4_index v ∷ pdpt_index v ∷ []) root ≡ some t2
    → walk e (upper_indices v) root ≡ some t1
    → (translate e root (get_pmlt v) ≡ some (root + 8 * pml4_index v))
      × (translate e root (get_pdpt v) ≡ some (t3 + 8 * pdpt_index v))
      × (translate e root (get_pdt v) ≡ some (t2 + 8 * pdt_index v))
      × (translate e root (get_phys v) ≡ some (t1 + 8 * pt_index v))
slots-entries e root v t3 t2 t1 h loop self w3 w2 w1 =
    let s = walk-slot e root loop self in
    let (a1, a2, a3, a4, a5) = get_pmlt-indices v h in
    let (b1, b2, b3, b4, b5) = get_pdpt-indices v h in
    let (c1, c2, c3, c4, c5) = get_pdt-indices v h in
    let (d1, d2, d3, d4, d5) = get_phys-indices v h in
    let (m3, x3, p3, f3) = walk-last e [] (pml4_index v) root t3 w3 in
    let (m2, x2, p2, f2) = walk-last e (pml4_index v ∷ []) (pdpt_index v) root t2 w2 in
    let (m1, x1, p1, f1) =
      walk-last e (pml4_index v ∷ pdpt_index v ∷ []) (pdt_index v) root t1 w1 in
    (
      slot_lem e root loop self (get_pmlt v) 510 510 510 510 root root a1 a2 a3
            (s (510 ∷ 510 ∷ []) ∙ s (510 ∷ []) ∙ s [] ∙ walk_nil e root) a4 loop self
          ∙ ap (λ o. some (root + o)) a5,
      slot_lem e root loop self (get_pdpt v) 510 510 510 (pml4_index v) m3 t3 b1 b2 b3
            (s (510 ∷ 510 ∷ []) ∙ s (510 ∷ []) ∙ s [] ∙ x3) b4 p3 f3
          ∙ ap (λ o. some (t3 + o)) b5,
      slot_lem e root loop self (get_pdt v) 510 510 (pml4_index v) (pdpt_index v) m2 t2 c1 c2 c3
            (s (510 ∷ pml4_index v ∷ []) ∙ s (pml4_index v ∷ []) ∙ x2) c4 p2 f2
          ∙ ap (λ o. some (t2 + o)) c5,
      slot_lem e root loop self (get_phys v) 510 (pml4_index v) (pdpt_index v) (pdt_index v) m1 t1
            d1 d2 d3 (s (pml4_index v ∷ pdpt_index v ∷ []) ∙ x1) d4 p1 f1
          ∙ ap (λ o. some (t1 + o)) d5,
    )
