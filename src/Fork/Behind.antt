-- ===== src/Fork/Behind.antt =====
-- Copies of regions at the end of a list, in `fork_process` of sys/schedule.c.
use os.Common.{
  ℕ, zero, suc, ◌≤◌, ◌<◌, ◌≡◌, refl, ◌≢◌, ◌∙◌, ap, sym, arith, Bool, true, false, not, ◌&&◌, some,
  List, [], ◌∷◌, ◌==◌, length, has,
}
use mathlib.Core.Path.{subst}
use os.Common.Links.{update, distinct, Chain}
use os.Elf.{Space}
use os.Elf.Growth.{uncons}
use os.Fork.{copy_region, copy_regions}

-- The fields of a region but its link are those of another.
pub record Twin (s' : Space) (z : ℕ) (s : Space) (x : ℕ) : Type 0 where
  pub start : s'.vm_start z ≡ s.vm_start x
  pub ends : s'.vm_end z ≡ s.vm_end x
  pub kind : s'.type z ≡ s.type x
  pub flags : s'.flag z ≡ s.flag x

-- Region by region.
abbrev pub Twins : Space → List ℕ → Space → List ℕ → Type 0
Twins s' [] s [] = true ≡ true
Twins s' [] s (x ∷ xs) = true ≡ false
Twins s' (z ∷ zs) s [] = true ≡ false
Twins s' (z ∷ zs) s (x ∷ xs) = Twin s' z s x × Twins s' zs s xs

-- None of the regions is free, nor is it `y`.
abbrev pub outside : List ℕ → ℕ → List ℕ → Bool
outside free y [] = true
outside free y (x ∷ xs) = (not (has x free) && not (x == y)) && outside free y xs

-- Copies at the end of the child's list, whose last region is `y`.
pub record Behind (s : Space) (y : ℕ) (xs : List ℕ) (s' : Space) : Type 0 where
  pub zs : List ℕ
  pub chain : Chain s'.next (s'.next y) zs
  pub twins : Twins s' zs s xs
  pub links : (c : ℕ) → has c s.free ≡ false → c ≢ y → s'.next c ≡ s.next c
  pub fields : (c : ℕ) → has c s.free ≡ false → Twin s' c s c
  pub taken : (c : ℕ) → has c zs ≡ true → has c s.free ≡ true

copy_regions_end :
    (fuel p y vm : ℕ) (s : Space)
    → (p == 0) ≡ true
    → copy_regions (suc fuel) p y vm s ≡ some (vm, s)
unfolding copy_regions
copy_regions_end fuel p y vm s z = rw (copy_regions, z) refl

abbrev linked : ℕ → ℕ → ℕ → List ℕ → Space → Space
linked p y z free s =
    let copied : Space = copy_region p z free s in record copied { next = update copied.next y z }

copy_regions_more :
    (fuel p y vm z : ℕ) (free : List ℕ) (s : Space)
    → (p == 0) ≡ false
    → (y == 0) ≡ false
    → s.free ≡ z ∷ free
    → copy_regions (suc fuel) p y vm s
      ≡ copy_regions fuel ((linked p y z free s).next p) z vm (linked p y z free s)
unfolding copy_regions
copy_regions_more fuel p y vm z free s a b e = rw (copy_regions, a, e, b) refl

pub outside-next :
    (free : List ℕ) (y z : ℕ) (xs : List ℕ)
    → outside (z ∷ free) y xs ≡ true
    → outside free z xs ≡ true
outside-next free y z [] o = refl
outside-next free y z (x ∷ xs) o =
    let ih = outside-next free y z xs (ground (arith, o)) in ground (arith, o, ih)

-- A chain of regions that are neither the copy nor `y`.
Chain-linked :
    (p y z : ℕ) (free : List ℕ) (s : Space) (xs : List ℕ) (q : ℕ)
    → outside (z ∷ free) y xs ≡ true
    → Chain s.next q xs
    → Chain (linked p y z free s).next q xs
Chain-linked p y z free s [] q o c = c
Chain-linked p y z free s (x ∷ xs) q o c =
    let same : (linked p y z free s).next x ≡ s.next x = ground (arith, o) in
    (
      c.0,
      c.1,
      subst (λ n. Chain (linked p y z free s).next n xs) (sym same)
          (Chain-linked p y z free s xs (s.next x) (ground (arith, o)) c.2),
    )

Twins-linked :
    (p y z : ℕ) (free : List ℕ) (s s' : Space) (zs xs : List ℕ)
    → outside (z ∷ free) y xs ≡ true
    → Twins s' zs (linked p y z free s) xs
    → Twins s' zs s xs
Twins-linked p y z free s s' [] [] o t = refl
Twins-linked p y z free s s' [] (x ∷ xs) o t = t
Twins-linked p y z free s s' (w ∷ zs) [] o t = t
Twins-linked p y z free s s' (w ∷ zs) (x ∷ xs) o (t, ts) = (
  record {
    start = ground (arith, o, t.start);
    ends = ground (arith, o, t.ends);
    kind = ground (arith, o, t.kind);
    flags = ground (arith, o, t.flags);
  },
  Twins-linked p y z free s s' zs xs (ground (arith, o)) ts,
)

Behind-cons :
    (p x y z : ℕ) (free : List ℕ) (s : Space) (xs : List ℕ) (s' : Space)
    → p ≡ x
    → s.free ≡ z ∷ free
    → outside (z ∷ free) y (x ∷ xs) ≡ true
    → distinct (y ∷ z ∷ free) ≡ true
    → has 0 (y ∷ z ∷ free) ≡ false
    → Behind (linked p y z free s) z xs s'
    → Behind s y (x ∷ xs) s'
Behind-cons p x y z free s xs s' e0 from o' d' n' g =
    let t = g.fields z (ground (arith, d')) in
    record {
      zs = z ∷ g.zs;
      chain = (
        g.links y (ground (arith, d')) (ground (arith, d')) ∙ ground arith,
        ground (arith, n'),
        g.chain,
      );
      twins = (
        record {
          start = t.start ∙ ground (arith, e0);
          ends = t.ends ∙ ground (arith, e0);
          kind = t.kind ∙ ground (arith, e0);
          flags = t.flags ∙ ground (arith, e0);
        },
        Twins-linked p y z free s s' g.zs xs (ground (arith, o')) g.twins,
      );
      links = λ c' h k.
          let h' : has c' (z ∷ free) ≡ false = ap (has c') (sym from) ∙ h in
          g.links c' (ground (arith, h')) (ground (arith, h')) ∙ ground (arith, h', k);
      fields = λ c' h.
          let h' : has c' (z ∷ free) ≡ false = ap (has c') (sym from) ∙ h in
          let f = g.fields c' (ground (arith, h')) in
          record {
            start = f.start ∙ ground (arith, h');
            ends = f.ends ∙ ground (arith, h');
            kind = f.kind ∙ ground (arith, h');
            flags = f.flags ∙ ground (arith, h');
          };
      taken = λ c' h. ap (has c') from ∙ ground (arith, h, g.taken c');
    }

pub copy_regions-Behind :
    (xs : List ℕ) (fuel p y vm : ℕ) (s : Space)
    → Chain s.next p xs
    → s.next y ≡ p
    → length xs < fuel
    → length xs ≤ length s.free
    → outside s.free y xs ≡ true
    → distinct (y ∷ s.free) ≡ true
    → has 0 (y ∷ s.free) ≡ false
    → (s' : Space) × (copy_regions fuel p y vm s ≡ some (vm, s')) × Behind s y xs s'
copy_regions-Behind xs zero p y vm s c l enough room o d n = absurd (omega arith)
copy_regions-Behind [] (suc fuel) p y vm s c l enough room o d n = (
  s,
  copy_regions_end fuel p y vm s (ground (arith, c)),
  record {
    zs = [];
    chain = l ∙ c;
    twins = refl;
    links = λ e h k. refl;
    fields = λ e h. record { start = refl; ends = refl; kind = refl; flags = refl };
    taken = λ e h. absurd (ground (arith, h));
  },
)
copy_regions-Behind (x ∷ xs) (suc fuel) p y vm s c l enough room o d n =
    let (z, free, from) = uncons s.free (omega arith) in
    let o' : outside (z ∷ free) y (x ∷ xs) ≡ true = ap (λ f. outside f y (x ∷ xs)) (sym from) ∙ o in
    let d' : distinct (y ∷ z ∷ free) ≡ true = ap (λ f. distinct (y ∷ f)) (sym from) ∙ d in
    let n' : has 0 (y ∷ z ∷ free) ≡ false = ap (λ f. has 0 (y ∷ f)) (sym from) ∙ n in
    let s1 = linked p y z free s in
    let e0 : p ≡ x = c.0 in
    let next_p : s1.next p ≡ s.next x = ground (arith, e0, o') in
    let next_z : s1.next z ≡ s1.next p = ground (arith, e0, o', d') in
    let chain1 = Chain-linked p y z free s xs (s.next x) (ground (arith, o')) c.2 in
    let (s', e, g) =
      copy_regions-Behind xs fuel (s1.next p) z vm s1
        (subst (λ q. Chain s1.next q xs) (sym next_p) chain1) next_z (omega arith)
        (omega (arith, ap length from)) (outside-next free y z xs (ground (arith, o')))
        (ground (arith, d')) (ground (arith, n')) in
    (
      s',
      copy_regions_more fuel p y vm z free s (ground (arith, e0, c.1)) (ground (arith, n')) from
          ∙ e,
      Behind-cons p x y z free s xs s' e0 from o' d' n' g,
    )
