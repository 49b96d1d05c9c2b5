-- ===== src/Pool/Live.antt =====
-- Taking objects from a pool of sys/task_pool.c and giving them back: the free objects and those in
-- use never meet.
use mathlib.Core.List.{append_assoc}
use os.Common.{
  ℕ, zero, suc, ◌+◌, ◌≤◌, ◌<◌, ◌≡◌, refl, ◌≢◌, ◌∙◌, ◌⊎◌, ap, sym, arith, true, false, not, ◌&&◌,
  ◌||◌, some, List, [], ◌∷◌, ◌++◌, ◌==◌, ==_self, ==_of_ne, has, has-append, inl, inr,
}
use os.Common.Links.{update, Chain, distinct, Chain-update}
use os.Pool.Spaced.{AreSpaced, AreSpaced-append, spaced_fresh, cells-spaced}
use os.Pool.{Pool, pgsize, reload, take_head, get, release, clear}
use os.Pool.Carve.{reload-Refilled, cells, cells-bounds, cells-distinct, behind}

-- The free list is `free`, no object stands twice among the free ones and those in use, and no two of
-- them share a byte.
pub record Pooled (size : ℕ) (p : Pool) (free live : List ℕ) : Type 0 where
  pub chain : Chain p.free p.head free
  pub apart : distinct (free ++ live) ≡ true
  pub spaced : AreSpaced size (free ++ live)

has-middle : (a b : ℕ) (xs ys : List ℕ) → has a (xs ++ b ∷ ys) ≡ ((a == b) || has a (xs ++ ys))
has-middle a b [] ys = refl
has-middle a b (x ∷ xs) ys = ground (arith, has-middle a b xs ys)

distinct-middle :
    (a : ℕ) (xs ys : List ℕ)
    → distinct (xs ++ a ∷ ys) ≡ (not (has a (xs ++ ys)) && distinct (xs ++ ys))
distinct-middle a [] ys = refl
distinct-middle a (x ∷ xs) ys = ground (arith, distinct-middle a xs ys, has-middle x a xs ys)

distinct-append :
    (xs ys : List ℕ)
    → distinct xs ≡ true
    → distinct ys ≡ true
    → ((a : ℕ) → has a xs ≡ true → has a ys ≡ false)
    → distinct (xs ++ ys) ≡ true
distinct-append [] ys dx dy apart = dy
distinct-append (x ∷ xs) ys dx dy apart =
    let ih = distinct-append xs ys (ground arith) dy (λ a i. apart a (ground arith)) in
    ground (arith, has-append x xs ys, apart x)

-- `a` has just been taken: it was free, its bytes are 0, and the bytes of all others stay.
pub record Got (p : Pool) (live : List ℕ) (a : ℕ) (p' : Pool) : Type 0 where
  pub new : has a live ≡ false
  pub zeroed : (i : ℕ) → p'.bytes a i ≡ 0
  pub link : p'.free a ≡ 0
  pub others : (q i : ℕ) → q ≢ a → p'.bytes q i ≡ p.bytes q i

take_head-Got :
    (size : ℕ) (p : Pool) (a : ℕ) (free live : List ℕ)
    → Pooled size p (a ∷ free) live
    → (p' : Pool) × (take_head p ≡ some (a, p')) × Pooled size p' free (a ∷ live) × Got p live a p'
unfolding take_head
take_head-Got size p a free live h =
    let e : p.head ≡ a = h.chain.0 in
    let nz : (a == 0) ≡ false = ground (arith, h.chain.1) in
    (
      clear a (record p { head = p.free a }),
      simp (e, nz),
      record {
        chain =
            Chain-update p.free free (p.free a) a 0
              (ground (arith, h.apart, has-append a free live)) h.chain.2;
        apart = distinct-middle a free live ∙ h.apart;
        spaced = λ b c i j.
            h.spaced b c (sym (has-middle b a free live) ∙ i) (sym (has-middle c a free live) ∙ j);
      },
      record {
        new = ground (arith, h.apart, has-append a free live);
        zeroed = λ i. rw (==_self a);
        link = ground arith;
        others = λ q i ne. rw (==_of_ne q a ne);
      },
    )

-- A page that `kmalloc` returns shares no byte with an object in use.
abbrev pub IsFresh : ℕ → ℕ → List ℕ → Type 0
IsFresh size page live = (q : ℕ) → has q live ≡ true → (q + size ≤ page) ⊎ (page + pgsize ≤ q)

record Refill (size page : ℕ) (p : Pool) (live : List ℕ) (p' : Pool) : Type 0 where
  k : ℕ
  done : reload size page p ≡ some p'
  pooled : Pooled size p' (cells size k page) live
  bytes : p'.bytes ≡ p.bytes

-- A refilled pool: the objects of the page are new.
refill :
    (size page : ℕ) (p : Pool) (live : List ℕ)
    → 0 < size
    → size ≤ pgsize
    → 0 < page
    → distinct live ≡ true
    → AreSpaced size live
    → IsFresh size page live
    → (p' : Pool) × Refill size page p live p'
refill size page p live nz small page_nz once room fresh =
    let (k, p', e, r) = reload-Refilled size page p nz page_nz in
    let inside : behind size k page ≤ page + pgsize = elim r.fits [
      | inl z ↦ rw z (omega arith)
      | inr lt ↦ omega arith
    ] in
    (
      p',
      record {
        k = k;
        done = e;
        pooled = record {
          chain = r.chain;
          apart =
              distinct-append (cells size k page) live (cells-distinct size nz k page) once
                (λ a i. ground (arith, cells-bounds size k page a, fresh a));
          spaced =
              AreSpaced-append size (cells size k page) live (cells-spaced size k page) room
                (λ a b i j.
                  spaced_fresh size page a b live
                    (let c = cells-bounds size k page a i in omega (arith, c, inside))
                    (let c = cells-bounds size k page a i in omega (arith, c)) (fresh b j));
        };
        bytes = r.same_bytes;
      },
    )

split-cells : (size k page : ℕ) → (rest : List ℕ) × (cells size k page ≡ page ∷ rest)
split-cells size zero page = ([], refl)
split-cells size (suc k) page = (cells size k (page + size), refl)

get_refilled :
    (size page : ℕ) (p q : Pool) (live : List ℕ)
    → Refill size page p live q
    → (p.head == 0) ≡ true
    → (a : ℕ) × (p' : Pool) × (free' : List ℕ) × (get size page p ≡ some (a, p'))
      × Pooled size p' free' (a ∷ live)
      × Got p live a p'
unfolding get
get_refilled size page p q live r e =
    let (rest, split) = split-cells size r.k page in
    let h : Pooled size q (page ∷ rest) live = rw split at r.pooled in
    let (p', done, h', got) = take_head-Got size q page rest live h in
    (
      page,
      p',
      rest,
      rw (e, r.done) done,
      h',
      record {
        new = got.new;
        zeroed = got.zeroed;
        link = got.link;
        others = λ b i ne. got.others b i ne ∙ ap (λ (f : ℕ → ℕ → ℕ). f b i) r.bytes;
      },
    )

-- `get` never fails, given a page for the case that the free list is empty: the object returned was
-- not in use, its bytes are cleared and no other object's are changed, and the pool stays in order
-- with that object in use: no two objects of it, free or in use, share a byte.
pub get-Pooled :
    (size page : ℕ) (p : Pool) (free live : List ℕ)
    → 0 < size
    → size ≤ pgsize
    → 0 < page
    → Pooled size p free live
    → IsFresh size page live
    → (a : ℕ) × (p' : Pool) × (free' : List ℕ) × (get size page p ≡ some (a, p'))
      × Pooled size p' free' (a ∷ live)
      × Got p live a p'
unfolding get
get-Pooled size page p (x ∷ free) live nz small page_nz h fresh =
    let e : (p.head == 0) ≡ false = ground (arith, h.chain) in
    let (p', done, h', got) = take_head-Got size p x free live h in
    (x, p', free, rw e done, h', got)
get-Pooled size page p [] live nz small page_nz h fresh =
    let e : (p.head == 0) ≡ true = ground (arith, h.chain) in
    let (q, r) = refill size page p live nz small page_nz h.apart h.spaced fresh in
    get_refilled size page p q live r e

-- Giving an object back: it is free again, in front, and cleared; the others in use stay in use.
pub release-Pooled :
    (size : ℕ) (p : Pool) (free before after : List ℕ) (a : ℕ)
    → Pooled size p free (before ++ a ∷ after)
    → a ≢ 0
    → Pooled size (release a p) (a ∷ free) (before ++ after)
      × ((i : ℕ) → (release a p).bytes a i ≡ 0)
unfolding release
release-Pooled size p free before after a h nz =
    let d : (not (has a (free ++ (before ++ after))) && distinct (free ++ (before ++ after)))
        ≡ true =
      rw (← append_assoc)
        (sym (distinct-middle a (free ++ before) after) ∙ rw append_assoc h.apart) in
    let out : has a free ≡ false = ground (arith, has-append a free (before ++ after)) in
    let released_has : (b : ℕ)
        → has b ((a ∷ free) ++ (before ++ after)) ≡ true
        → has b (free ++ (before ++ a ∷ after)) ≡ true =
      λ b i. ground (
        arith,
        i,
        has-append b free (before ++ after),
        has-append b free (before ++ a ∷ after),
        has-middle b a before after,
      ) in
    let here : update (update p.free a 0) a p.head a ≡ p.head = ground arith in
    (
      record {
        chain = (
          refl,
          nz,
          rw here (
              Chain-update (update p.free a 0) free p.head a p.head out
                (Chain-update p.free free p.head a 0 out h.chain)),
        );
        apart = d;
        spaced = λ b c i j. h.spaced b c (released_has b i) (released_has c j);
      },
      λ i. rw (==_self a),
    )
