-- ===== src/Paging/Mapping.antt =====
-- What a call of `map_page` of sys/pging.c makes of the address that it maps.
use Prim.Native.Nat.{bit_or}
use os.Common.{
  ℕ, ◌+◌, ◌%◌, ◌^◌, ◌≤◌, ◌<◌, ◌≡◌, refl, ◌∙◌, ap, arith, true, false, none, some, List, [], length,
  Bool-cases, inl, inr,
}
use os.Paging.{
  Paging, is_present, frame_of, set_entry, high_flags, descend, walk, put_page, map_page, page_at,
  translate, upper_indices, pt_index,
}
use os.Common.Bits.{bit_or_page}
use os.Paging.Descent.{Stock, Way, descend-Descended}

-- Present flags of a page stay so for its tables, also when a copy-on-write page's become writable.
high_flags-bounds : (flags : ℕ) → flags < 512 → (high_flags flags ≡ flags)
unfolding high_flags
high_flags-bounds flags h = ground arith

pub put_page-fresh :
    (paddr i flags table : ℕ) (q : Paging)
    → is_present (q.entry table i) ≡ false
    → put_page paddr i flags (table, q) ≡ set_entry table i (bit_or paddr flags) q
unfolding put_page
put_page-fresh paddr i flags table q h = rw h refl

-- The translation of an address by a walk that ends at a table.
pub translate_at :
    (e : ℕ → ℕ → ℕ) (root v table x : ℕ)
    → walk e (upper_indices v) root ≡ some table
    → e table (pt_index v) ≡ x
    → is_present x ≡ true
    → translate e root v ≡ some (frame_of x + v % 4096)
unfolding translate page_at
translate_at e root v table x w d p = rw (w, d, p) refl

-- Where an address is not mapped, three pages are free, and no table on the way to it is free or
-- stands on the way twice, `map_page` maps it to the page given, with flags that include the one for
-- present and not the one for copy on write; the tables that it needs are made from free pages.
pub map_page-translate :
    (q : Paging) (xs : List ℕ) (paddr v flags : ℕ)
    → Stock q.pmap xs
    → 3 ≤ length xs
    → Way q xs [] q.root (upper_indices v)
    → translate q.entry q.root v ≡ none
    → paddr % 4096 ≡ 0
    → paddr < 2 ^ 48
    → flags < 512
    → flags % 2 ≡ 1
    → let q2 = map_page paddr v flags q in translate q2.entry q2.root v ≡ some (paddr + v % 4096)
unfolding map_page
map_page-translate q xs paddr v flags s enough way unmapped aligned low small odd =
    let d =
      descend-Descended flags (upper_indices v) q xs [] q.root (omega arith) odd s enough way
        (λ c h. absurd (ground (arith, h))) in
    let r = descend flags (upper_indices v) q.root q in
    let leaf = r.0 in
    let q' = r.1 in
    let absent : is_present (q'.entry leaf (pt_index v)) ≡ false =
      elim (Bool-cases (is_present (q'.entry leaf (pt_index v)))) [
        | inl h ↦
            let (w, same) = d.old (pt_index v) h in
            absurd (ground (arith, unmapped, translate_at q.entry q.root v leaf _ w same h))
        | inr h ↦ h
      ] in
    let both : put_page paddr (pt_index v) flags r
        ≡ set_entry leaf (pt_index v) (paddr + flags) q' =
      put_page-fresh paddr (pt_index v) flags leaf q' absent
      ∙ ap (λ x. set_entry leaf (pt_index v) x q')
          (bit_or_page paddr flags aligned (omega arith)) in
    let parity : (paddr + flags) % 2 ≡ 1 = omega arith in
    let frame : frame_of (paddr + flags) ≡ paddr = omega arith in
    rw (high_flags-bounds flags small, both, d.same_root)
      (translate_at _ q.root v leaf (paddr + flags) (d.reach _ (λ c j off. ground (arith, off)))
          (ground arith) (rw parity refl)
        ∙ ap (λ x. some (x + v % 4096)) frame)
