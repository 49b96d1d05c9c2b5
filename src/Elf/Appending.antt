-- ===== src/Elf/Appending.antt =====
-- A region at the end of the list of a new task, in `load_elf` of sys/elf64.c.
use os.Common.{
  ℕ, ◌+◌, ◌%◌, ◌^◌, ◌<◌, ◌≡◌, refl, ◌≢◌, ◌∙◌, ap, sym, arith, true, false, some, List, [], ◌∷◌,
  ◌++◌, length-append, ltb, ◌==◌, if◌then◌else◌, length, has, has-append,
}
use mathlib.Core.Path.{subst}
use mathlib.Core.List.{append_assoc}
use os.Common.Links.{
  Links, update, distinct, Chain, Chain-update, Chain-snoc, last_node, last_node-Chain,
}
use os.Common.Int.{int_bits}
use os.Elf.{segment_end, Phdr, Space, set_vma, traverse_vmas, append_vma, add_segment}

Chain-same :
    (next next' : Links) (xs : List ℕ) (p : ℕ)
    → ((a : ℕ) → next' a ≡ next a)
    → Chain next p xs
    → Chain next' p xs
Chain-same next next' [] p s c = c
Chain-same next next' (x ∷ xs) p s c =
    (c.0, c.1, subst (λ q. Chain next' q xs) (sym (s x)) (Chain-same next next' xs (next x) s c.2))

-- A region: where it starts and ends, and its type.
abbrev pub Region : Type 0
Region = ℕ × ℕ × ℕ

abbrev pub Fields : Space → List ℕ → List Region → Type 0
Fields s [] [] = true ≡ true
Fields s [] (d ∷ ds) = true ≡ false
Fields s (x ∷ xs) [] = true ≡ false
Fields s (x ∷ xs) (d ∷ ds) =
    (s.vm_start x ≡ d.0) × (s.vm_end x ≡ d.1) × (s.type x ≡ d.2) × Fields s xs ds

-- The regions stand in the list at `ys` and then `y`, and `free` are the others that there are.
pub record Held (s : Space) (ys : List ℕ) (y : ℕ) (ds : List Region) : Type 0 where
  pub chain : Chain s.next s.vm (ys ++ y ∷ [])
  pub fields : Fields s (ys ++ y ∷ []) ds
  pub once : distinct (ys ++ y ∷ s.free) ≡ true
  pub live : has 0 s.free ≡ false
  pub count : s.vma_count ≡ length (ys ++ y ∷ [])

-- The new links after `traverse_vmas` and the assignment to `end_vma->next`.
linked :
    (next : Links) (vm : ℕ) (ys : List ℕ) (y z fuel : ℕ)
    → Chain next vm (ys ++ y ∷ [])
    → distinct (ys ++ y ∷ []) ≡ true
    → has z (ys ++ y ∷ []) ≡ false
    → z ≢ 0
    → length ys < fuel
    → (last_node fuel (update next z 0) vm ≡ some y)
      × Chain (update (update next z 0) y z) vm (ys ++ y ∷ z ∷ [])
linked next vm ys y z fuel c d out live h =
    let cut = Chain-update next (ys ++ y ∷ []) vm z 0 out c in
    let differ : z ≢ y = ground (arith, out, has-append z ys (y ∷ [])) in
    (
      last_node-Chain (update next z 0) ys fuel vm y cut h,
      Chain-same _ _ (ys ++ y ∷ z ∷ []) vm (λ a. ground (arith, differ))
          (Chain-snoc next ys vm y z c out d live),
    )

-- What `set_vma` makes: a region of its own, in front of no other.
pub record Placed (s : Space) (z : ℕ) (fs : List ℕ) (d : Region) (s1 : Space) : Type 0 where
  pub from : s.free ≡ z ∷ fs
  pub free : s1.free ≡ fs
  pub next : s1.next ≡ update s.next z 0
  pub start : s1.vm_start ≡ update s.vm_start z d.0
  pub ends : s1.vm_end ≡ update s.vm_end z d.1
  pub kind : s1.type ≡ update s.type z d.2
  pub vm : s1.vm ≡ s.vm
  pub count : s1.vma_count ≡ s.vma_count

Fields-snoc :
    (s s1 : Space) (z : ℕ) (fs : List ℕ) (d : Region) (xs : List ℕ) (ds : List Region)
    → Placed s z fs d s1
    → has z xs ≡ false
    → Fields s xs ds
    → Fields s1 (xs ++ z ∷ []) (ds ++ d ∷ [])
Fields-snoc s s1 z fs d [] [] p out f = (
  ap (λ g. g z) p.start ∙ ground arith,
  ap (λ g. g z) p.ends ∙ ground arith,
  ap (λ g. g z) p.kind ∙ ground arith,
  refl,
)
Fields-snoc s s1 z fs d [] (e ∷ ds) p out f = absurd (ground (arith, f))
Fields-snoc s s1 z fs d (x ∷ xs) [] p out f = absurd (ground (arith, f))
Fields-snoc s s1 z fs d (x ∷ xs) (e ∷ ds) p out f = (
  ap (λ g. g x) p.start ∙ ground (arith, out, f.0),
  ap (λ g. g x) p.ends ∙ ground (arith, out, f.1),
  ap (λ g. g x) p.kind ∙ ground (arith, out, f.2),
  Fields-snoc s s1 z fs d xs ds p (ground (arith, out)) f.3,
)

distinct-front : (xs zs : List ℕ) → distinct (xs ++ zs) ≡ true → distinct xs ≡ true
distinct-front [] zs d = refl
distinct-front (x ∷ xs) zs d =
    let ih = distinct-front xs zs (ground (arith, d)) in ground (arith, d, ih, has-append x xs zs)

distinct-middle :
    (xs : List ℕ) (z : ℕ) (zs : List ℕ) → distinct (xs ++ z ∷ zs) ≡ true → has z xs ≡ false
distinct-middle [] z zs d = refl
distinct-middle (x ∷ xs) z zs d =
    let ih = distinct-middle xs z zs (ground (arith, d)) in
    ground (arith, d, ih, has-append x xs (z ∷ zs))

-- The state after `append_vma`.
abbrev pub extended : Space → ℕ → ℕ → Space
extended s y z = record s { next = update s.next y z; vma_count = s.vma_count + 1 }

pub append_vma-Held :
    (fuel : ℕ) (s s1 : Space) (ys : List ℕ) (y z : ℕ) (fs : List ℕ) (d : Region) (ds : List Region)
    → Held s ys y ds
    → Placed s z fs d s1
    → length ys < fuel
    → (append_vma fuel z s1 ≡ some (extended s1 y z))
      × Held (extended s1 y z) (ys ++ y ∷ []) z (ds ++ d ∷ [])
unfolding append_vma traverse_vmas
append_vma-Held fuel s s1 ys y z fs d ds h p enough =
    let assoc : (zs : List ℕ) → (ys ++ y ∷ []) ++ z ∷ zs ≡ ys ++ y ∷ z ∷ zs =
      λ zs. append_assoc ys (y ∷ []) (z ∷ zs) in
    let all : distinct ((ys ++ y ∷ []) ++ z ∷ fs) ≡ true =
      ap distinct (assoc fs) ∙ ap (λ l. distinct (ys ++ y ∷ l)) (sym p.from) ∙ h.once in
    let out = distinct-middle (ys ++ y ∷ []) z fs all in
    let live : z ≢ 0 = ground (arith, h.live, ap (has 0) p.from) in
    let (last, chain) =
      linked s.next s.vm ys y z fuel h.chain (distinct-front (ys ++ y ∷ []) (z ∷ fs) all) out live
        enough in
    let last' : last_node fuel s1.next s1.vm ≡ some y = rw (p.next, p.vm) last in
    (
      rw (append_vma, last') refl,
      record {
        chain =
            subst (λ l. Chain (update s1.next y z) s1.vm l) (sym (assoc []))
              (rw (p.next, p.vm) chain);
        fields = Fields-snoc s s1 z fs d (ys ++ y ∷ []) ds p out h.fields;
        once = subst (λ l. distinct ((ys ++ y ∷ []) ++ z ∷ l) ≡ true) (sym p.free) all;
        live = ground (arith, h.live, ap (has 0) p.from, ap (has 0) p.free);
        count = omega (arith, h.count, p.count, length-append (ys ++ y ∷ []) (z ∷ []));
      },
    )

-- The region of a segment.
abbrev pub region_of : Phdr → Region
region_of ph = (ph.p_vaddr, segment_end ph, ph.p_type)

abbrev pub regions_of : List Phdr → List Region
regions_of [] = []
regions_of (ph ∷ phs) = if ph.p_type == 1 then region_of ph ∷ regions_of phs else regions_of phs

-- The state after `set_vma` for a segment.
abbrev pub segment_state : Space → ℕ → List ℕ → Phdr → Space
segment_state s z fs ph =
    let e_vaddr : ℕ = segment_end ph in
    record s {
      free = fs;
      next = update s.next z 0;
      vm_start = update s.vm_start z ph.p_vaddr;
      vm_end = update s.vm_end z e_vaddr;
      type = update s.type z ph.p_type;
      flag = update s.flag z 0;
      total_vm = (s.total_vm + int_bits ph.p_memsz) % 2 ^ 64;
      top_vaddr = if ltb s.top_vaddr e_vaddr then e_vaddr else s.top_vaddr;
    }

pub set_vma_at :
    (a b t f z : ℕ) (fs : List ℕ) (s : Space)
    → s.free ≡ z ∷ fs
    → set_vma a b t f s
      ≡ some (
        z,
        record s {
          free = fs;
          next = update s.next z 0;
          vm_start = update s.vm_start z a;
          vm_end = update s.vm_end z b;
          type = update s.type z t;
          flag = update s.flag z f;
        },
      )
unfolding set_vma
set_vma_at a b t f z fs s e = rw (set_vma, e) refl

pub add_segment_next :
    (fuel : ℕ) (ph : Phdr) (s : Space) (z : ℕ) (fs : List ℕ) (s2 : Space)
    → s.free ≡ z ∷ fs
    → (s.vm == 0) ≡ false
    → append_vma fuel z (segment_state s z fs ph) ≡ some s2
    → add_segment fuel ph s ≡ some s2
unfolding add_segment
add_segment_next fuel ph s z fs s2 e n a =
    rw (add_segment, set_vma_at ph.p_vaddr (segment_end ph) ph.p_type 0 z fs s e, n, a) refl

pub add_segment_first :
    (fuel : ℕ) (ph : Phdr) (s : Space) (z : ℕ) (fs : List ℕ)
    → s.free ≡ z ∷ fs
    → (s.vm == 0) ≡ true
    → add_segment fuel ph s
      ≡ some (record (segment_state s z fs ph) { vm = z; vma_count = s.vma_count + 1 })
unfolding add_segment
add_segment_first fuel ph s z fs e n =
    rw (add_segment, set_vma_at ph.p_vaddr (segment_end ph) ph.p_type 0 z fs s e, n) refl
