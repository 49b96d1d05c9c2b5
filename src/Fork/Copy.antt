-- ===== src/Fork/Copy.antt =====
-- The regions of a child: the first loop of `fork_process` of sys/schedule.c.
use os.Common.{
  ℕ, zero, suc, ◌≤◌, ◌<◌, ◌≡◌, refl, ◌≢◌, ◌∙◌, ap, sym, arith, true, false, some, List, [], ◌∷◌,
  ◌==◌, length, has, Bool-cases, inl, inr,
}
use mathlib.Core.Path.{subst}
use os.Common.Links.{Links, distinct, Chain}
use os.Elf.{Space}
use os.Elf.Growth.{uncons}
use os.Fork.{copy_region, copy_regions}
use os.Fork.Behind.{Twin, Twins, outside, Behind, outside-next, copy_regions-Behind}

copy_regions_first :
    (fuel p z : ℕ) (free : List ℕ) (s : Space)
    → (p == 0) ≡ false
    → s.free ≡ z ∷ free
    → copy_regions (suc fuel) p 0 0 s
      ≡ copy_regions fuel ((copy_region p z free s).next p) z z (copy_region p z free s)
unfolding copy_regions
copy_regions_first fuel p z free s a e = rw (copy_regions, a, e) refl

-- A chain and its fields depend on those of its regions.
Chain-keep :
    (next next' : Links) (xs : List ℕ) (p : ℕ)
    → ((c : ℕ) → has c xs ≡ true → next' c ≡ next c)
    → Chain next p xs
    → Chain next' p xs
Chain-keep next next' [] p k c = c
Chain-keep next next' (x ∷ xs) p k c = (
  c.0,
  c.1,
  subst (λ q. Chain next' q xs) (sym (k x (ground arith)))
      (Chain-keep next next' xs (next x) (λ a h. k a (ground (arith, h))) c.2),
)

outside-has :
    (free : List ℕ) (y : ℕ) (xs : List ℕ) (c : ℕ)
    → outside free y xs ≡ true
    → has c xs ≡ true
    → (has c free ≡ false) × (c ≢ y)
outside-has free y [] c o h = absurd (ground (arith, h))
outside-has free y (x ∷ xs) c o h = elim (Bool-cases (x == c)) [
  | inl e ↦
      let same : x ≡ c = ground (arith, e) in
      subst (λ a. (has a free ≡ false) × (a ≢ y)) same (ground (arith, o), ground (arith, o))
  | inr n ↦ outside-has free y xs c (ground (arith, o)) (ground (arith, h, n))
]

Twins-keep :
    (s s1 s' : Space) (zs xs : List ℕ)
    → ((c : ℕ) → has c xs ≡ true → Twin s1 c s c)
    → Twins s' zs s1 xs
    → Twins s' zs s xs
Twins-keep s s1 s' [] [] k t = refl
Twins-keep s s1 s' [] (x ∷ xs) k t = t
Twins-keep s s1 s' (z ∷ zs) [] k t = t
Twins-keep s s1 s' (z ∷ zs) (x ∷ xs) k (t, ts) =
    let m = k x (ground arith) in
    (
      record {
        start = t.start ∙ m.start;
        ends = t.ends ∙ m.ends;
        kind = t.kind ∙ m.kind;
        flags = t.flags ∙ m.flags;
      },
      Twins-keep s s1 s' zs xs (λ c h. k c (ground (arith, h))) ts,
    )

first-Twins :
    (p x z : ℕ) (free : List ℕ) (s : Space) (xs : List ℕ) (s' : Space)
    → p ≡ x
    → outside (z ∷ free) 0 (x ∷ xs) ≡ true
    → distinct (z ∷ free) ≡ true
    → (g : Behind (copy_region p z free s) z xs s') → Twins s' (z ∷ g.zs) s (x ∷ xs)
first-Twins p x z free s xs s' e0 o' d' g =
    let t = g.fields z (ground (arith, d')) in
    (
      record {
        start = t.start ∙ ground (arith, e0);
        ends = t.ends ∙ ground (arith, e0);
        kind = t.kind ∙ ground (arith, e0);
        flags = t.flags ∙ ground (arith, e0);
      },
      Twins-keep s (copy_region p z free s) s' g.zs xs
          (λ c h.
            let out = (outside-has (z ∷ free) 0 xs c (ground (arith, o')) h).0 in
            record {
              start = ground (arith, out);
              ends = ground (arith, out);
              kind = ground (arith, out);
              flags = ground (arith, out);
            })
          g.twins,
    )

-- A region that was free is none of the parent's.
outside-own :
    (free xs : List ℕ) (c : ℕ) → outside free 0 xs ≡ true → has c free ≡ true → has c xs ≡ false
outside-own free xs c o h = elim (Bool-cases (has c xs)) [
  | inl b ↦ absurd (ground (arith, h, (outside-has free 0 xs c o b).0))
  | inr b ↦ b
]

-- With regions enough to hand out, none of which is a region of the parent, and fuel for each region
-- and one more, the child gets a list of regions with the fields of the parent's, one by one and in
-- order; its regions were free before and none of them is a region of the parent, whose list stays
-- as it is.
pub copy_regions-Twins :
    (x : ℕ) (xs : List ℕ) (fuel : ℕ) (s : Space)
    → Chain s.next s.vm (x ∷ xs)
    → suc (length xs) < fuel
    → length (x ∷ xs) ≤ length s.free
    → outside s.free 0 (x ∷ xs) ≡ true
    → distinct s.free ≡ true
    → has 0 s.free ≡ false
    → (vm : ℕ) × (s' : Space) × (zs : List ℕ) × (copy_regions fuel s.vm 0 0 s ≡ some (vm, s'))
      × Chain s'.next vm zs
      × Twins s' zs s (x ∷ xs)
      × Chain s'.next s.vm (x ∷ xs)
      × ((c : ℕ) → has c zs ≡ true → (has c s.free ≡ true) × (has c (x ∷ xs) ≡ false))
copy_regions-Twins x xs zero s c enough room o d n = absurd (omega arith)
copy_regions-Twins x xs (suc fuel) s c enough room o d n =
    let (z, free, from) = uncons s.free (omega arith) in
    let o' : outside (z ∷ free) 0 (x ∷ xs) ≡ true = ap (λ f. outside f 0 (x ∷ xs)) (sym from) ∙ o in
    let d' : distinct (z ∷ free) ≡ true = ap distinct (sym from) ∙ d in
    let n' : has 0 (z ∷ free) ≡ false = ap (has 0) (sym from) ∙ n in
    let s1 = copy_region s.vm z free s in
    let kept : (a : ℕ) → has a (x ∷ xs) ≡ true → s1.next a ≡ s.next a =
      λ a h. ground (arith, outside-has (z ∷ free) 0 (x ∷ xs) a o' h) in
    let next_p : s1.next s.vm ≡ s.next x = kept s.vm (ground (arith, c.0)) ∙ ap s.next c.0 in
    let next_z : s1.next z ≡ s1.next s.vm = ground (arith, o', c.0) in
    let chain1 = Chain-keep s.next s1.next (x ∷ xs) s.vm kept c in
    let (s', e, g) =
      copy_regions-Behind xs fuel (s1.next s.vm) z z s1
        (subst (λ a. Chain s1.next (s1.next a) xs) (sym c.0) chain1.2) next_z (omega arith)
        (omega (arith, ap length from)) (outside-next free 0 z xs (ground (arith, o'))) d' n' in
    (
      z,
      s',
      z ∷ g.zs,
      copy_regions_first fuel s.vm z free s (ground (arith, c.0, c.1)) from ∙ e,
      (refl, ground (arith, n'), g.chain),
      first-Twins s.vm x z free s xs s' c.0 o' d' g,
      Chain-keep s1.next s'.next (x ∷ xs) s.vm
          (λ a h.
            let out = outside-has (z ∷ free) 0 (x ∷ xs) a o' h in
            g.links a (ground (arith, out.0)) (ground (arith, out.0)))
          chain1,
      λ a h.
          let was : has a s.free ≡ true = ap (has a) from ∙ ground (arith, h, g.taken a) in
          (was, outside-own s.free (x ∷ xs) a o was),
    )
