-- ===== src/Heap/Alloc.antt =====
-- What `malloc` of libc/memory.c hands out.
use os.Common.{
  ℕ, ◌+◌, ◌-◌, ◌%◌, ◌^◌, ◌≤◌, ◌<◌, ◌≡◌, refl, ◌≢◌, ◌∙◌, ap, sym, arith, true, false, some, List, [],
  ◌∷◌, ◌++◌, ◌==◌, length, has, has-append, ◌⊎◌, inl, inr,
}
use mathlib.Core.Path.{subst}
use mathlib.Core.List.{append_assoc}
use os.Common.Links.{update, Chain-update, Chain-link}
use os.Regions.{Regions}
use os.Heap.{
  Heap, sbrk, is_mapped, set_meta, Stop, again, last, search, new_block, as_head, behind, malloc,
}
use os.Heap.Layout.{
  Laid, Laid-le, Laid-snoc, sbrk_grows, is_mapped-Ready, Blocks, Stopped, search-Stopped, Laid-out,
  Laid-distinct,
}

-- What an allocation makes of the blocks `bs`: those of after, among them `b` with room for `size`
-- bytes and in use, which was free or was none of them; the others are as they were.
pub record Allocated (fuel low size : ℕ) (h : Heap) (bs : List ℕ) (b : ℕ) (h' : Heap) : Type 0 where
  pub after : List ℕ
  pub blocks : Blocks fuel low h' after
  pub there : has b after ≡ true
  pub room : size ≤ h'.size b
  pub used : h'.free b ≡ false
  pub was : (h.free b ≡ true) ⊎ (has b bs ≡ false)
  pub kept : (c : ℕ) → has c bs ≡ true → has c after ≡ true
  pub others : (c : ℕ) → c ≢ b → (h'.size c ≡ h.size c) × (h'.free c ≡ h.free c)

new_block_at :
    (fuel size p : ℕ) (link : ℕ → Heap → Heap) (h : Heap) (r : Regions)
    → sbrk fuel ((size + 24) % 2 ^ 64) h.regions ≡ some (p, r)
    → (p == 2 ^ 64 - 1) ≡ false
    → is_mapped fuel p r ≡ true
    → new_block fuel size link h
      ≡ some (p + 24, link p (set_meta p size (record h { regions = r })))
unfolding new_block
new_block_at fuel size p link h r e n k = rw (new_block, e, n, k) refl

malloc_first :
    (fuel size : ℕ) (h : Heap) (r : ℕ × Heap)
    → (h.head == 0) ≡ true
    → new_block fuel size as_head h ≡ some r
    → malloc fuel size h ≡ some r
unfolding malloc
malloc_first fuel size h r z e = rw (malloc, z, e) refl

malloc_again :
    (fuel size b : ℕ) (h : Heap)
    → (h.head == 0) ≡ false
    → search fuel size h h.head ≡ some (again b)
    → malloc fuel size h ≡ some (b + 24, record h { free = update h.free b false })
unfolding malloc
malloc_again fuel size b h n e = rw (malloc, n, e) refl

malloc_more :
    (fuel size y : ℕ) (h : Heap) (r : ℕ × Heap)
    → (h.head == 0) ≡ false
    → search fuel size h h.head ≡ some (last y)
    → new_block fuel size (behind y) h ≡ some r
    → malloc fuel size h ≡ some r
unfolding malloc
malloc_more fuel size y h r n e k = rw (malloc, n, e, k) refl

-- What `malloc` returns, with the blocks of before.
Result : ℕ → ℕ → ℕ → Heap → List ℕ → Type 0
Result fuel low size h bs =
    (b : ℕ) × (h' : Heap) × (malloc fuel size h ≡ some (b + 24, h'))
    × Allocated fuel low size h bs b h'

malloc-last :
    (fuel low size : ℕ) (h : Heap) (ys : List ℕ) (y : ℕ)
    → Blocks fuel low h (ys ++ y ∷ [])
    → h.regions.brk + size + 88 < 1030792085504
    → search fuel size h h.head ≡ some (last y)
    → (h.head == 0) ≡ false
    → Result fuel low size h (ys ++ y ∷ [])
unfolding Result
malloc-last fuel low size h ys y k small e n =
    let (r, e1, top, ready) =
      sbrk_grows fuel (size + 24) h.regions k.ready (omega arith) (omega arith) in
    let p = h.regions.brk in
    let xs = ys ++ y ∷ [] in
    let wrap : (size + 24) % 2 ^ 64 ≡ size + 24 = omega arith in
    let made =
      new_block_at fuel size p (behind y) h r (ap (λ i. sbrk fuel i h.regions) wrap ∙ e1)
        (ground arith) (is_mapped-Ready fuel p r ready (omega (arith, top))) in
    let h' = behind y p (set_meta p size (record h { regions = r })) in
    let out = Laid-out h.size xs low p p k.laid (omega arith) in
    let live : p ≢ 0 = omega (arith, Laid-le h.size xs low p k.laid, k.positive) in
    let assoc : xs ++ p ∷ [] ≡ ys ++ y ∷ p ∷ [] = append_assoc ys (y ∷ []) (p ∷ []) in
    (
      p,
      h',
      malloc_more fuel size y h _ n e made,
      record {
        after = ys ++ y ∷ p ∷ [];
        blocks = record {
          chain =
              Chain-link (update h.next p 0) ys h.head y p
                (Chain-update h.next xs h.head p 0 out k.chain) out
                (Laid-distinct h.size xs low p k.laid) live (ground arith);
          laid =
              subst (λ l. Laid (update h.size p size) low l r.brk) assoc
                (Laid-snoc h.size xs low p p size r.brk k.laid (omega arith) (omega (arith, top)));
          positive = k.positive;
          ready = ready;
        };
        there = ground (arith, has-append p ys (y ∷ p ∷ []));
        room = ground arith;
        used = ground arith;
        was = inr out;
        kept = λ c i. ground (arith, i, has-append c ys (y ∷ []), has-append c ys (y ∷ p ∷ []));
        others = λ c d. (ground (arith, d), ground (arith, d));
      },
    )

malloc-Stopped :
    (fuel low size : ℕ) (h : Heap) (bs : List ℕ) (s : Stop)
    → Blocks fuel low h bs
    → h.regions.brk + size + 88 < 1030792085504
    → search fuel size h h.head ≡ some s
    → Stopped size h bs s
    → (h.head == 0) ≡ false
    → Result fuel low size h bs
unfolding Result Stopped
malloc-Stopped fuel low size h bs (again b) k small e t n = (
  b,
  record h { free = update h.free b false },
  malloc_again fuel size b h n e,
  record {
    after = bs;
    blocks = record { chain = k.chain; laid = k.laid; positive = k.positive; ready = k.ready };
    there = t.0;
    room = t.2;
    used = ground arith;
    was = inl t.1;
    kept = λ c i. i;
    others = λ c d. (refl, ground (arith, d));
  },
)
malloc-Stopped fuel low size h bs (last y) k small e (ys, eq) n =
    subst (Result fuel low size h) (sym eq)
      (malloc-last fuel low size h ys y (subst (Blocks fuel low h) eq k) small e n)

-- With fuel for each block and each region, a heap whose region holds what is below the break, and a
-- break below the stack after the call, `malloc` returns the address behind the header of a block with
-- room for the bytes, in use now, which was free before or is new; the blocks stay a list of pieces of
-- memory that do not overlap, below the break and in the heap's region, and no other block differs.
pub malloc-Allocated :
    (fuel low size : ℕ) (h : Heap) (bs : List ℕ)
    → Blocks fuel low h bs
    → length bs < fuel
    → h.regions.brk + size + 88 < 1030792085504
    → (b : ℕ) × (h' : Heap) × (malloc fuel size h ≡ some (b + 24, h'))
      × Allocated fuel low size h bs b h'
unfolding Result
malloc-Allocated fuel low size h [] k enough small =
    let (r, e, top, ready) =
      sbrk_grows fuel (size + 24) h.regions k.ready (omega arith) (omega arith) in
    let p = h.regions.brk in
    let wrap : (size + 24) % 2 ^ 64 ≡ size + 24 = omega arith in
    let made =
      new_block_at fuel size p as_head h r (ap (λ i. sbrk fuel i h.regions) wrap ∙ e) (ground arith)
        (is_mapped-Ready fuel p r ready (omega (arith, top))) in
    let h' = as_head p (set_meta p size (record h { regions = r })) in
    (
      p,
      h',
      malloc_first fuel size h _ (ground (arith, k.chain)) made,
      record {
        after = p ∷ [];
        blocks = record {
          chain = (refl, ground (arith, k.laid, k.positive), ground arith);
          laid = Laid-snoc h.size [] low p p size r.brk k.laid (omega arith) (omega (arith, top));
          positive = k.positive;
          ready = ready;
        };
        there = ground arith;
        room = ground arith;
        used = ground arith;
        was = inr refl;
        kept = λ c i. absurd (ground (arith, i));
        others = λ c d. (ground (arith, d), ground (arith, d));
      },
    )
malloc-Allocated fuel low size h (x ∷ bs) k enough small =
    let (s, e, t) = search-Stopped bs fuel size h x (refl, k.chain.1, k.chain.2) (omega arith) in
    let n : (h.head == 0) ≡ false = ground (arith, k.chain.0, k.chain.1) in
    malloc-Stopped fuel low size h (x ∷ bs) s k small (ap (search fuel size h) k.chain.0 ∙ e) t n
