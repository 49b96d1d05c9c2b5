-- ===== src/Faults/Private.antt =====
-- The copy that a process gets of a page shared for copying on write, in sys/isr.c.
use Prim.Native.Nat.{bit_or}
use os.Common.{
  ℕ, ◌+◌, ◌-◌, ◌/◌, ◌%◌, ◌≡◌, refl, ◌≢◌, ◌∙◌, ap, sym, arith, true, false, some, List, [], ◌∷◌, has,
  Bool-cases, inl, inr, ◌==◌, if◌then◌else◌,
}
use mathlib.Core.Path.{subst}
use os.Pages.{get_free_page, release_page}
use os.Pages.Alloc.{Entry, get_free_page-Taken, get_free_page-Frees}
use os.Pages.Release.{map_count-release_page}
use os.Paging.{Paging, is_present, frame_of, zero_page, walk, translate, upper_indices, pt_index}
use os.Common.Bits.{bit_or_page}
use os.Paging.Descent.{Stock, Kept, Way}
use os.Paging.Mapping.{translate_at}
use os.Faults.{make_private, is_rw, is_cow}

-- A walk that changes of other frames than its tables leave as it is.
walk-Kept :
    (q : Paging) (xs seen is : List ℕ) (t leaf : ℕ) (e : ℕ → ℕ → ℕ)
    → Way q xs seen t is
    → walk q.entry is t ≡ some leaf
    → ((c j : ℕ) → Kept q.pmap xs c → c ≢ leaf → e c j ≡ q.entry c j)
    → (has leaf seen ≡ false) × Kept q.pmap xs leaf × (walk e is t ≡ some leaf)
unfolding walk
walk-Kept q xs seen [] t leaf e w k s =
    let here : t ≡ leaf = ground (arith, k) in
    (subst (λ c. has c seen ≡ false) here w.0, subst (Kept q.pmap xs) here w.1, k)
walk-Kept q xs seen (i ∷ is) t leaf e w k s = elim (Bool-cases (is_present (q.entry t i))) [
  | inr absent ↦ absurd (ground (arith, k, absent))
  | inl present ↦
      let (out, kept, ih) =
        walk-Kept q xs (t ∷ seen) is (frame_of (q.entry t i)) leaf e (w.2 present) (rw present at k)
          s in
      let apart : t ≢ leaf = ground (arith, out) in
      let here : e t i ≡ q.entry t i = s t i w.1 apart in
      (ground (arith, out), kept, rw (here, present) ih)
]

-- What a process has after the copy at the address `v`, whose page was the frame `old`, with the
-- descriptor `o`: `new` is its own page, with the descriptor `n`.
pub record Copied (q : Paging) (v table old o new n : ℕ) (q' : Paging) : Type 0 where
  pub mapped : translate q'.entry q'.root v ≡ some (new + v % 4096)
  pub writable : is_rw (q'.entry table (pt_index v)) ≡ true
  pub shared_no_more : is_cow (q'.entry table (pt_index v)) ≡ false
  pub contents : (j : ℕ) → q'.entry new j ≡ q.entry old j
  pub others : (c j : ℕ) → c ≢ new → c ≢ table → q'.entry c j ≡ q.entry c j
  pub siblings : (j : ℕ) → j ≢ pt_index v → q'.entry table j ≡ q.entry table j
  pub users : q'.pmap.map_count o ≡ q.pmap.map_count o - 1
  pub owned : q'.pmap.map_count n ≡ 1
  pub counts : (c : ℕ) → c ≢ o → c ≢ n → q'.pmap.map_count c ≡ q.pmap.map_count c

-- A page that is shared for copying on write becomes a page of the process's own, the first of the
-- free ones: the address leads there, writable and not shared, the contents are those of the page
-- shared, which itself stays as it is and has one user less; the page has this one user, and no
-- other page, entry or count changes.
pub make_private-Copied :
    (q : Paging) (p : ℕ) (xs : List ℕ) (v table o : ℕ)
    → Stock q.pmap (p ∷ xs)
    → Way q (p ∷ xs) [] q.root (upper_indices v)
    → walk q.entry (upper_indices v) q.root ≡ some table
    → Entry q.pmap o
    → q.pmap.map_count o ≢ 0
    → frame_of (q.entry table (pt_index v)) ≡ q.pmap.base o
    → q.pmap.base o ≢ table
    → Copied q v table (q.pmap.base o) o (q.pmap.base p) p (make_private table (pt_index v) q)
unfolding make_private zero_page
make_private-Copied q p xs v table o s way reach e live frame apart =
    let t = get_free_page-Taken s.frees in
    let f' = get_free_page-Frees s.frees in
    let in_range : Entry q.pmap p = s.frees.within p (ground arith) in
    let a = q.pmap.base p in
    let aligned = s.aligned p in_range in
    let low = s.low p in_range in
    let pte : bit_or (get_free_page q.pmap).0 7 ≡ a + 7 =
      ap (λ x. bit_or x 7) t.page ∙ bit_or_page a 7 aligned (omega arith) in
    let q' = make_private table (pt_index v) q in
    let others : (c j : ℕ) → c ≢ a → c ≢ table → q'.entry c j ≡ q.entry c j =
      λ c j ca ct. ground (arith, t.page, ca, ct) in
    let (out, kept, there) =
      walk-Kept q (p ∷ xs) [] (upper_indices v) q.root table q'.entry way reach
        (λ c j k off. others c j (λ same. k p (ground arith) (sym same)) off) in
    let off : a ≢ table = kept p (ground arith) in
    let entry : q'.entry table (pt_index v) ≡ a + 7 = ground (arith, pte) in
    let other : o ≢ p = λ h. live (ap q.pmap.map_count h ∙ t.was_free) in
    let diff : q.pmap.base o ≢ a = λ h. other (s.frees.apart o p e in_range h) in
    let m1 = (get_free_page q.pmap).1 in
    let same = t.others o other in
    let e1 : Entry m1 o = ground (arith, e, t.same_count) in
    let at_o : frame_of (q.entry table (pt_index v)) ≡ m1.base o =
      frame ∙ ap (λ b. b o) (sym t.same_base) in
    let counts : (c : ℕ)
        → (release_page m1 (m1.base o)).map_count c
          ≡ (if c == o then m1.map_count o - 1 else m1.map_count c) =
      map_count-release_page f' o e1 (ground (arith, live, same)) in
    let one_less : (release_page m1 (m1.base o)).map_count o ≡ q.pmap.map_count o - 1 =
      map_count-release_page f' o e1 (ground (arith, live, same)) o ∙ ground (arith, same) in
    let flags : ((a + 7) / 2 % 2 ≡ 1) × ((a + 7) / 512 % 2 ≡ 0) × ((a + 7) % 2 ≡ 1) =
      (omega arith, omega arith, omega arith) in
    let to : frame_of (a + 7) ≡ a = omega arith in
    record {
      mapped =
          translate_at q'.entry q.root v table (a + 7) there entry (ground (arith, flags))
          ∙ ap (λ x. some (x + v % 4096)) to;
      writable = rw (entry, flags.0) refl;
      shared_no_more = rw (entry, flags.1) refl;
      contents = λ j. rw (frame, t.page) (ground (arith, off, diff));
      others = others;
      users =
          subst (λ b. (release_page m1 b).map_count o ≡ q.pmap.map_count o - 1) (sym at_o) one_less;
      siblings = λ j h. ground (arith, t.page, off, h);
      owned =
          subst (λ b. (release_page m1 b).map_count p ≡ 1) (sym at_o)
            (counts p ∙ ground (arith, t.mapped, other));
      counts = λ c co cp.
          subst (λ b. (release_page m1 b).map_count c ≡ q.pmap.map_count c) (sym at_o)
            (counts c ∙ ground (arith, t.others c cp, co));
    }
