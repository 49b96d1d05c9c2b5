-- ===== src/Paging/Steps.antt =====
-- Single steps of `map_page`, and the walk to a page.
use Prim.Native.Nat.{bit_or}
use os.Common.{ℕ, ◌+◌, ◌%◌, ◌^◌, ◌<◌, ◌≡◌, refl, true, false, some, List, ◌∷◌}
use os.Pages.{get_free_page}
use os.Paging.{
  Paging, is_present, frame_of, set_entry, walk, translate, pml4_index, pdpt_index, pdt_index,
  pt_index, page_at, make_table, descend, put_page, zero_page,
}
use os.Paging.Kernel.{entry_parts}

-- A table that is there is not made again.
pub make_table_present :
    (flags table i : ℕ) (p : Paging)
    → is_present (p.entry table i) ≡ true
    → make_table flags table i p ≡ p
unfolding make_table
make_table_present flags table i p h = rw h refl

pub make_table_absent :
    (flags table i : ℕ) (p : Paging)
    → is_present (p.entry table i) ≡ false
    → make_table flags table i p
      ≡ set_entry table i
          (bit_or (get_free_page p.pmap).0 flags)
          (zero_page (get_free_page p.pmap).0 (record p { pmap = (get_free_page p.pmap).1 }))
unfolding make_table
make_table_absent flags table i p h = rw h refl

pub descend_step :
    (flags i : ℕ) (is : List ℕ) (table next : ℕ) (p : Paging)
    → is_present (p.entry table i) ≡ true
    → frame_of (p.entry table i) ≡ next
    → descend flags (i ∷ is) table p ≡ descend flags is next p
unfolding descend
descend_step flags i is table next p h f = rw (make_table_present flags table i p h, f) refl

pub put_absent :
    (paddr i flags table : ℕ) (p : Paging)
    → is_present (p.entry table i) ≡ false
    → put_page paddr i flags (table, p) ≡ set_entry table i (bit_or paddr flags) p
unfolding put_page
put_absent paddr i flags table p h = rw h refl

-- The walk to a page by entries of known frames.
pub translate_by :
    (e : ℕ → ℕ → ℕ) (root v i3 i2 i1 i0 t3 t2 t1 page : ℕ)
    → pml4_index v ≡ i3
    → pdpt_index v ≡ i2
    → pdt_index v ≡ i1
    → pt_index v ≡ i0
    → e root i3 ≡ bit_or t3 3
    → e t3 i2 ≡ bit_or t2 3
    → e t2 i1 ≡ bit_or t1 3
    → e t1 i0 ≡ bit_or page 3
    → (t3 % 4096 ≡ 0) × (t2 % 4096 ≡ 0) × (t1 % 4096 ≡ 0) × (page % 4096 ≡ 0)
    → (t3 < 2 ^ 48) × (t2 < 2 ^ 48) × (t1 < 2 ^ 48) × (page < 2 ^ 48)
    → translate e root v ≡ some (page + v % 4096)
unfolding translate walk page_at
translate_by e root v i3 i2 i1 i0 t3 t2 t1 page d3 d2 d1 d0 e3 e2 e1 e0 a l =
    rw
      (
        d3,
        d2,
        d1,
        e3,
        (entry_parts t3 a.0 l.0).0,
        (entry_parts t3 a.0 l.0).1,
        e2,
        (entry_parts t2 a.1 l.1).0,
        (entry_parts t2 a.1 l.1).1,
        e1,
        (entry_parts t1 a.2 l.2).0,
        (entry_parts t1 a.2 l.2).1,
        d0,
        e0,
        (entry_parts page a.3 l.3).0,
        (entry_parts page a.3 l.3).1,
      )
      refl
