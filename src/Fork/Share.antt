-- ===== src/Fork/Share.antt =====
-- A page that `fork_process` shares: both address spaces get it, to be copied on writing.
use Prim.Native.Nat.{bit_or}
use os.Common.{
  ℕ, ◌+◌, ◌-◌, ◌*◌, ◌/◌, ◌%◌, ◌^◌, ◌≤◌, ◌<◌, ◌≡◌, ◌≢◌, refl, ◌∙◌, ap, sym, arith, true, false, none,
  some, List, [], ◌∷◌, length, has, ◌==◌, Bool-cases, inl, inr, ==_self,
}
use mathlib.Core.Path.{subst}
use os.Common.Bits.{bit_or_low}
use os.Paging.{
  Paging, is_present, frame_of, set_entry, high_flags, descend, walk, map_page, translate,
  upper_indices, pt_index,
}
use os.Paging.Mapping.{translate_at, put_page-fresh}
use os.Paging.Descent.{Stock, Kept, Way, descend-Descended}
use os.Faults.{is_cow, is_rw}
use os.Fork.{shared_entry, share_page}

-- What `map_page` of an address that is not mapped leaves: the entry of the page in the table that
-- the walk reaches, and the tables in `seen` as they were.
module _ (q : Paging) (xs seen : List ℕ) (paddr v flags up : ℕ) (stock : Stock q.pmap xs)
    (enough : 3 ≤ length xs) (way : Way q xs seen q.root (upper_indices v))
    (kept : (c : ℕ) → has c seen ≡ true → Kept q.pmap xs c)
    (unmapped : translate q.entry q.root v ≡ none) (high : high_flags flags ≡ up)
    (small : up < 4096) (odd : up % 2 ≡ 1) where
  map_page_leaf :
      (leaf : ℕ) × (walk (map_page paddr v flags q).entry (upper_indices v) q.root ≡ some leaf)
      × ((map_page paddr v flags q).entry leaf (pt_index v) ≡ bit_or paddr flags)
      × (has leaf seen ≡ false)
      × ((c j : ℕ) → has c seen ≡ true → (map_page paddr v flags q).entry c j ≡ q.entry c j)
  unfolding map_page
  map_page_leaf =
      let d =
        descend-Descended up (upper_indices v) q xs seen q.root small odd stock enough way kept in
      let r = descend up (upper_indices v) q.root q in
      let leaf = r.0 in
      let q' = r.1 in
      let absent : is_present (q'.entry leaf (pt_index v)) ≡ false =
        elim (Bool-cases (is_present (q'.entry leaf (pt_index v)))) [
          | inl h ↦
              let (w, same) = d.old (pt_index v) h in
              absurd (ground (arith, unmapped, translate_at q.entry q.root v leaf _ w same h))
          | inr h ↦ h
        ] in
      rw (high, put_page-fresh paddr (pt_index v) flags leaf q' absent)
        (
          leaf,
          d.reach _ (λ c j off. ground (arith, off)),
          rw (==_self leaf, ==_self (pt_index v)) refl,
          d.outside,
          λ c j h. elim (Bool-cases (c == leaf)) [
            | inl same ↦
                (let e : leaf ≡ c = ground arith in
                  absurd (ground (arith, d.outside, rw (← e) at h)))
            | inr other ↦ rw other (d.seen_same c j h)
          ],
        )

-- An entry of a page to be copied on writing: present, for users, and not writable.
shared_lem :
    (page : ℕ)
    → page % 4096 ≡ 0
    → (shared_entry (page + 7) ≡ page + 517) × (bit_or (page + 517) 517 ≡ page + 517)
unfolding shared_entry
shared_lem page aligned =
    let a : page / 4096 * 2 ^ 12 ≡ page = omega arith in
    let writable : is_rw (page + 7) ≡ true = ground arith in
    let less : page + 7 - 2 ≡ page / 4096 * 2 ^ 12 + 5 = omega arith in
    let more : page + 517 ≡ page / 4096 * 2 ^ 12 + 517 = omega arith in
    (
      rw (writable, less)
          (bit_or_low 12 (page / 4096) 5 512 (omega arith) (omega arith) ∙ (omega arith)),
      ap (λ x. bit_or x 517) more
          ∙ bit_or_low 12 (page / 4096) 517 517 (omega arith) (omega arith)
          ∙ sym more,
    )

high_flags_shared : high_flags 517 ≡ 7
unfolding high_flags
high_flags_shared = refl

ne_of_single : (a b : ℕ) → has a (b ∷ []) ≡ false → a ≢ b
ne_of_single a b h = ground arith

eq_of_single : (a b : ℕ) → has a (b ∷ []) ≡ true → b ≡ a
eq_of_single a b h = ground arith

-- The state in which the child's table is the current one, with the parent's entry changed.
abbrev pub marked : ℕ → ℕ → ℕ → ℕ → Paging → Paging
marked child table i entry p = record (set_entry table i entry p) { root = child }

-- A writable page of the parent, three pages being free, no table of the child on the way to the
-- address free, on the way twice or the parent's last table, and the address not mapped in the
-- child: after `share_page` both the parent's entry and that of the child, in another table, lead to
-- the page, present, not writable and marked for copying on writing; the child translates the
-- address to the page, and the parent's table is the current one again.
pub share_page-translate :
    (p : Paging) (xs : List ℕ) (child table vaddr page : ℕ)
    → p.entry table (pt_index vaddr) ≡ page + 7
    → page % 4096 ≡ 0
    → page < 2 ^ 48
    → Stock p.pmap xs
    → 3 ≤ length xs
    → Kept p.pmap xs table
    → Way
        (marked child table (pt_index vaddr) (page + 517) p)
        xs
        (table ∷ [])
        child
        (upper_indices vaddr)
    → translate (marked child table (pt_index vaddr) (page + 517) p).entry child vaddr ≡ none
    → let s = share_page child table vaddr p in
      (leaf : ℕ) × (walk s.entry (upper_indices vaddr) child ≡ some leaf)
      × (leaf ≢ table)
      × (s.entry leaf (pt_index vaddr) ≡ s.entry table (pt_index vaddr))
      × (frame_of (s.entry table (pt_index vaddr)) ≡ page)
      × (is_cow (s.entry table (pt_index vaddr)) ≡ true)
      × (is_rw (s.entry table (pt_index vaddr)) ≡ false)
      × (translate s.entry child vaddr ≡ some (page + vaddr % 4096))
      × (s.root ≡ p.root)
unfolding share_page
share_page-translate p xs child table vaddr page entry aligned low stock enough kept way unmapped =
    let shared = shared_lem page aligned in
    let flags : (page + 517) % 4096 ≡ 517 = omega arith in
    let q = marked child table (pt_index vaddr) (page + 517) p in
    let (leaf, w, e, out, same) =
      map_page_leaf q xs (table ∷ []) (page + 517) vaddr 517 7 stock enough way
        (λ c h. subst (Kept p.pmap xs) (eq_of_single c table h) kept) unmapped high_flags_shared
        (omega arith) (omega arith) in
    let t : (map_page (page + 517) vaddr 517 q).entry table (pt_index vaddr) ≡ page + 517 =
      same table (pt_index vaddr) (ground arith)
      ∙ (rw (==_self table, ==_self (pt_index vaddr)) refl) in
    let l = e ∙ shared.1 in
    let frame : frame_of (page + 517) ≡ page = omega arith in
    let present : is_present (page + 517) ≡ true = ground arith in
    rw (entry, shared.0, flags)
      (
        leaf,
        w,
        ne_of_single leaf table out,
        l ∙ sym t,
        rw t frame,
        rw t (ground arith),
        rw t (ground arith),
        translate_at _ child vaddr leaf (page + 517) w l present
            ∙ ap (λ x. some (x + vaddr % 4096)) frame,
        refl,
      )
