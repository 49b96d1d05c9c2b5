-- ===== src/Paging/Descent.antt =====
-- Making the tables on the way down to a page, in `map_page` of sys/pging.c.
use Prim.Native.Nat.{bit_or}
use os.Common.{
  ℕ, suc, ◌+◌, ◌%◌, ◌^◌, ◌≤◌, ◌<◌, ◌≡◌, refl, ◌≢◌, ◌∙◌, ap, sym, arith, true, false, some, List, [],
  ◌∷◌, ◌==◌, length, has, Bool-cases, inl, inr,
}
use mathlib.Core.Path.{subst}
use os.Pages.{Pmap, get_free_page}
use os.Pages.Alloc.{Entry, Frees, Taken, get_free_page-Taken, get_free_page-Frees}
use os.Paging.{Paging, is_present, frame_of, zero_page, make_table, descend, walk}
use os.Common.Bits.{bit_or_page}

-- The allocator's free pages are at `frames`, in order; every page has an address of 48 bits.
pub record Stock (m : Pmap) (xs : List ℕ) : Type 0 where
  pub frees : Frees m xs
  pub aligned : (p : ℕ) → Entry m p → m.base p % 4096 ≡ 0
  pub low : (p : ℕ) → Entry m p → m.base p < 2 ^ 48

-- The page is none of the free ones.
abbrev pub Kept : Pmap → List ℕ → ℕ → Type 0
Kept m xs q = (p : ℕ) → has p xs ≡ true → m.base p ≢ q

module _ {m : Pmap} {p : ℕ} {xs : List ℕ} (s : Stock m (p ∷ xs)) where
  taken_lem : Taken m p (get_free_page m).0 (get_free_page m).1
  taken_lem = get_free_page-Taken s.frees

  pub get_free_page-Stock : Stock (get_free_page m).1 xs
  get_free_page-Stock = record {
    frees = get_free_page-Frees s.frees;
    aligned = λ q e. ap (λ b. b q % 4096) taken_lem.same_base ∙ s.aligned q (entry_lem q e);
    low = λ q e. rw taken_lem.same_base (s.low q (entry_lem q e));
  }
    where
      entry_lem : (q : ℕ) → Entry (get_free_page m).1 q → Entry m q
      entry_lem q e = ground (arith, e, taken_lem.same_count)

-- A new table at the page `a`, which the entry `i` of `table` leads to.
record Made (q : Paging) (table i a : ℕ) (q' : Paging) : Type 0 where
  present : is_present (q'.entry table i) ≡ true
  leads : frame_of (q'.entry table i) ≡ a
  empty : (j : ℕ) → q'.entry a j ≡ 0
  others : (c j : ℕ) → c ≢ a → c ≢ table → q'.entry c j ≡ q.entry c j
  same_root : q'.root ≡ q.root

make_table-Made :
    (q : Paging) (p flags table i : ℕ) (xs : List ℕ)
    → Stock q.pmap (p ∷ xs)
    → Kept q.pmap (p ∷ xs) table
    → flags < 4096
    → flags % 2 ≡ 1
    → is_present (q.entry table i) ≡ false
    → Made q table i (q.pmap.base p) (make_table flags table i q)
      × ((make_table flags table i q).pmap ≡ (get_free_page q.pmap).1)
unfolding make_table zero_page
make_table-Made q p flags table i xs s kept small odd absent =
    let t = taken_lem s in
    let here : has p (p ∷ xs) ≡ true = ground arith in
    let e : Entry q.pmap p = s.frees.within p here in
    let a = q.pmap.base p in
    let aligned : a % 4096 ≡ 0 = s.aligned p e in
    let low : a < 2 ^ 48 = s.low p e in
    let or : bit_or (get_free_page q.pmap).0 flags ≡ a + flags =
      ap (λ x. bit_or x flags) t.page ∙ bit_or_page a flags aligned small in
    let off : a ≢ table = kept p here in
    let parity : (a + flags) % 2 ≡ 1 = omega arith in
    let set : (make_table flags table i q).entry table i ≡ a + flags =
      rw (absent, or) (ground arith) in
    (
      record {
        present = rw (set, parity) refl;
        leads = rw set (omega arith);
        empty = λ j. rw absent (ground (arith, t.page, off));
        others = λ c j ca ct. rw absent (ground (arith, t.page, ca, ct));
        same_root = rw absent refl;
      },
      rw absent refl,
    )

-- The tables on the way down along the indices: none is a free page, none stands on the way twice or
-- among those seen already.
abbrev pub Way : Paging → List ℕ → List ℕ → ℕ → List ℕ → Type 0
Way q xs seen table [] = (has table seen ≡ false) × Kept q.pmap xs table
Way q xs seen table (i ∷ is) =
    (has table seen ≡ false)
    × Kept q.pmap xs table
    × (is_present (q.entry table i) ≡ true
        → Way q xs (table ∷ seen) (frame_of (q.entry table i)) is)

Way-table :
    (q : Paging) (xs seen : List ℕ) (table : ℕ) (is : List ℕ)
    → Way q xs seen table is
    → Kept q.pmap xs table
Way-table q xs seen table [] w = w.1
Way-table q xs seen table (i ∷ is) w = w.1

Way-outside :
    (q : Paging) (xs seen : List ℕ) (table : ℕ) (is : List ℕ)
    → Way q xs seen table is
    → has table seen ≡ false
Way-outside q xs seen table [] w = w.0
Way-outside q xs seen table (i ∷ is) w = w.0

-- From an empty table every way is open.
Way-empty :
    (q : Paging) (xs seen : List ℕ) (a : ℕ) (is : List ℕ)
    → has a seen ≡ false
    → Kept q.pmap xs a
    → ((j : ℕ) → q.entry a j ≡ 0)
    → Way q xs seen a is
Way-empty q xs seen a [] o k z = (o, k)
Way-empty q xs seen a (i ∷ is) o k z = (o, k, λ h. absurd (ground (arith, h, z i)))

-- After the way down: the last table is reached whatever is written there, what was seen before is as
-- it was, and what is present in the last table was there before.
pub record Descended (q : Paging) (xs is seen : List ℕ) (table leaf : ℕ) (q' : Paging)
    : Type 0 where
  pub reach :
      (e : ℕ → ℕ → ℕ) → ((c j : ℕ) → c ≢ leaf → e c j ≡ q'.entry c j) → walk e is table ≡ some leaf
  pub seen_same : (c j : ℕ) → has c seen ≡ true → q'.entry c j ≡ q.entry c j
  pub outside : has leaf seen ≡ false
  pub old :
      (j : ℕ)
      → is_present (q'.entry leaf j) ≡ true
      → (walk q.entry is table ≡ some leaf) × (q.entry leaf j ≡ q'.entry leaf j)
  pub left : List ℕ
  pub stock : Stock q'.pmap left
  pub enough : length xs ≤ length left + length is
  pub same_root : q'.root ≡ q.root

-- A step to the table behind the entry `i`, which is present at the end.
Descended-cons :
    (q : Paging) (xs is seen : List ℕ) (table i leaf : ℕ) (q' : Paging)
    → is_present (q.entry table i) ≡ true
    → Descended q xs is (table ∷ seen) (frame_of (q.entry table i)) leaf q'
    → Descended q xs (i ∷ is) seen table leaf q'
unfolding walk
Descended-cons q xs is seen table i leaf q' p d = record {
  reach = λ e same.
      let off : table ≢ leaf = ground (arith, d.outside) in
      let here : e table i ≡ q.entry table i =
        same table i off ∙ d.seen_same table i (ground arith) in
      rw (here, p) (d.reach e same);
  seen_same = λ c j h. d.seen_same c j (ground (arith, h));
  outside = ground (arith, d.outside);
  old = λ j h. (rw p (d.old j h).0, (d.old j h).1);
  left = d.left;
  stock = d.stock;
  enough = omega (arith, d.enough);
  same_root = d.same_root;
}

walk_from_empty :
    (e : ℕ → ℕ → ℕ) (is : List ℕ) (a leaf : ℕ)
    → ((j : ℕ) → e a j ≡ 0)
    → walk e is a ≡ some leaf
    → a ≡ leaf
unfolding walk
walk_from_empty e [] a leaf z w = ground (arith, w)
walk_from_empty e (i ∷ is) a leaf z w = absurd (ground (arith, w, z i))

-- The same where the entry has just been made, for a table that was not there.
Descended-Made :
    (q q1 : Paging) (xs ys is seen : List ℕ) (table i a leaf : ℕ) (q' : Paging)
    → Made q table i a q1
    → length xs ≡ suc (length ys)
    → has a (table ∷ seen) ≡ false
    → has table seen ≡ false
    → Descended q1 ys is (table ∷ seen) a leaf q'
    → Descended q xs (i ∷ is) seen table leaf q'
unfolding walk
Descended-Made q q1 xs ys is seen table i a leaf q' m len off o d = record {
  reach = λ e same.
      let apart : table ≢ leaf = ground (arith, d.outside) in
      let here : e table i ≡ q1.entry table i =
        same table i apart ∙ d.seen_same table i (ground arith) in
      rw (here, m.present, m.leads) (d.reach e same);
  seen_same = λ c j h.
      d.seen_same c j (ground (arith, h))
      ∙ m.others c j (ground (arith, h, off)) (ground (arith, h, o));
  outside = ground (arith, d.outside);
  old = λ j h.
      let at_a : a ≡ leaf = walk_from_empty q1.entry is a leaf m.empty (d.old j h).0 in
      let zero_there : q'.entry leaf j ≡ 0 =
        sym (d.old j h).1 ∙ subst (λ c. q1.entry c j ≡ 0) at_a (m.empty j) in
      absurd (ground (arith, h, zero_there));
  left = d.left;
  stock = d.stock;
  enough = omega (arith, d.enough, len);
  same_root = d.same_root ∙ m.same_root;
}

make_table_present :
    (flags table i : ℕ) (q : Paging)
    → is_present (q.entry table i) ≡ true
    → make_table flags table i q ≡ q
unfolding make_table
make_table_present flags table i q h = rw h refl

descend_present :
    (flags i : ℕ) (is : List ℕ) (table : ℕ) (q : Paging)
    → is_present (q.entry table i) ≡ true
    → descend flags (i ∷ is) table q ≡ descend flags is (frame_of (q.entry table i)) q
unfolding descend
descend_present flags i is table q h =
    ap (λ q1. descend flags is (frame_of (q1.entry table i)) q1)
      (make_table_present flags table i q h)

-- Frames that are not free stay so when a page is taken, and the page taken is none of the free ones.
module _ {m : Pmap} {p : ℕ} {xs : List ℕ} (s : Stock m (p ∷ xs)) where
  Kept-taken : (c : ℕ) → Kept m (p ∷ xs) c → Kept (get_free_page m).1 xs c
  Kept-taken c k r h = rw (taken_lem s).same_base (k r (ground (arith, h)))

  Kept-page : Kept (get_free_page m).1 xs (m.base p)
  Kept-page r h =
      let once = s.frees.once in
      let differ : r ≢ p = ground (arith, h, once) in
      let in_range = s.frees.within r (ground (arith, h)) in
      let p_in = s.frees.within p (ground arith) in
      rw (taken_lem s).same_base (λ e. differ (s.frees.apart r p in_range p_in e))

-- The tables on the way and the one before are no free pages.
Kept-cons :
    (m : Pmap) (xs seen : List ℕ) (table : ℕ)
    → Kept m xs table
    → ((c : ℕ) → has c seen ≡ true → Kept m xs c)
    → (c : ℕ) → has c (table ∷ seen) ≡ true
    → Kept m xs c
Kept-cons m xs seen table k ks c h = elim (Bool-cases (c == table)) [
  | inl e ↦ let same : table ≡ c = ground (arith, e) in subst (Kept m xs) same k
  | inr n ↦ ks c (ground (arith, h, n))
]

-- With a free page for each level, the way down ends at a table of the last level.
pub descend-Descended :
    (flags : ℕ) (is : List ℕ) (q : Paging) (xs seen : List ℕ) (table : ℕ)
    → flags < 4096
    → flags % 2 ≡ 1
    → Stock q.pmap xs
    → length is ≤ length xs
    → Way q xs seen table is
    → ((c : ℕ) → has c seen ≡ true → Kept q.pmap xs c)
    → Descended q xs is seen table (descend flags is table q).0 (descend flags is table q).1
unfolding descend walk
descend-Descended flags [] q xs seen table small odd s enough w k = record {
  reach = λ e same. refl;
  seen_same = λ c j h. refl;
  outside = w.0;
  old = λ j h. (refl, refl);
  left = xs;
  stock = s;
  enough = omega arith;
  same_root = refl;
}
descend-Descended flags (i ∷ is) q [] seen table small odd s enough w k = absurd (omega arith)
descend-Descended flags (i ∷ is) q (p ∷ ys) seen table small odd s enough w k =
    elim (Bool-cases (is_present (q.entry table i))) [
      | inl present ↦
          subst (λ r. Descended q (p ∷ ys) (i ∷ is) seen table r.0 r.1)
            (sym (descend_present flags i is table q present))
            (Descended-cons q (p ∷ ys) is seen table i _ _ present (
              descend-Descended flags is q (p ∷ ys) (table ∷ seen) (frame_of (q.entry table i))
                small odd s (omega arith) (w.2 present)
                (Kept-cons q.pmap (p ∷ ys) seen table w.1 k)))
      | inr absent ↦
          let a = q.pmap.base p in
          let (made, pmap_lem) = make_table-Made q p flags table i ys s w.1 small odd absent in
          let q1 = make_table flags table i q in
          let stock1 : Stock q1.pmap ys = rw pmap_lem (get_free_page-Stock s) in
          let kept1 : (c : ℕ) → Kept q.pmap (p ∷ ys) c → Kept q1.pmap ys c =
            λ c h. rw pmap_lem (Kept-taken s c h) in
          let here : has p (p ∷ ys) ≡ true = ground arith in
          let kept_a : Kept q1.pmap ys a = rw pmap_lem (Kept-page s) in
          let off : has a (table ∷ seen) ≡ false = elim (Bool-cases (has a (table ∷ seen))) [
            | inl h ↦ absurd (Kept-cons q.pmap (p ∷ ys) seen table w.1 k a h p here refl)
            | inr h ↦ h
          ] in
          let all_kept =
            Kept-cons q1.pmap ys seen table (kept1 table w.1) (λ c h. kept1 c (k c h)) in
          let ih =
            descend-Descended flags is q1 ys (table ∷ seen) a small odd stock1 (omega arith)
              (Way-empty q1 ys (table ∷ seen) a is off kept_a made.empty) all_kept in
          subst
            (λ t.
              Descended q (p ∷ ys) (i ∷ is) seen table (descend flags is t q1).0
                (descend flags is t q1).1)
            (sym made.leads)
            (Descended-Made q q1 (p ∷ ys) ys is seen table i a _ _ made refl off w.0 ih)
    ]
