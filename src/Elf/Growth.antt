-- ===== src/Elf/Growth.antt =====
-- The regions of the segments of a new task: the loop of `load_elf` of sys/elf64.c.
use os.Common.{
  ℕ, suc, ◌+◌, ◌≤◌, ◌≡◌, refl, ◌∙◌, ap, sym, arith, true, false, some, List, [], ◌∷◌, ◌++◌,
  length-append, ltb, ◌==◌, if◌then◌else◌, length, has, Bool-cases, inl, inr,
}
use mathlib.Core.Path.{subst}
use mathlib.Core.List.{append_assoc, append-nil}
use os.Common.Links.{distinct, Chain-snoc_ne_zero}
use os.Elf.{segment_end, Phdr, Space, add_segment, add_segments}
use os.Elf.Appending.{
  Region, Held, Placed, append_vma-Held, extended, region_of, regions_of, segment_state,
  add_segment_next, add_segment_first,
}

-- Each loadable segment ends below `top`.
abbrev pub Below : ℕ → List Phdr → Type 0
Below top [] = true ≡ true
Below top (ph ∷ phs) = (ph.p_type ≡ 1 → segment_end ph ≤ top) × Below top phs

pub Below-le : (a b : ℕ) (phs : List Phdr) → a ≤ b → Below a phs → Below b phs
Below-le a b [] h w = refl
Below-le a b (ph ∷ phs) h w = (λ e. omega (arith, w.0 e), Below-le a b phs h w.1)

-- The state with the regions of these segments behind those that it had.
record Grown (s : Space) (n : ℕ) (ds : List Region) (phs : List Phdr) (s' : Space) : Type 0 where
  ys : List ℕ
  y : ℕ
  held : Held s' ys y (ds ++ regions_of phs)
  size : length ys ≡ n + length (regions_of phs)
  room : length s'.free + length (regions_of phs) ≡ length s.free
  higher : s.top_vaddr ≤ s'.top_vaddr
  below : Below s'.top_vaddr phs
  upper : (top : ℕ) → s.top_vaddr ≤ top → Below top phs → s'.top_vaddr ≤ top

add_segments_load :
    (fuel : ℕ) (ph : Phdr) (phs : List Phdr) (s s1 : Space)
    → (ph.p_type == 1) ≡ true
    → add_segment fuel ph s ≡ some s1
    → add_segments fuel (ph ∷ phs) s ≡ add_segments fuel phs s1
unfolding add_segments
add_segments_load fuel ph phs s s1 b e = rw (add_segments, b, e) refl

add_segments_skip :
    (fuel : ℕ) (ph : Phdr) (phs : List Phdr) (s : Space)
    → (ph.p_type == 1) ≡ false
    → add_segments fuel (ph ∷ phs) s ≡ add_segments fuel phs s
unfolding add_segments
add_segments_skip fuel ph phs s b = rw (add_segments, b) refl

pub uncons : (xs : List ℕ) → 1 ≤ length xs → (z : ℕ) × (zs : List ℕ) × (xs ≡ z ∷ zs)
uncons [] h = absurd (omega arith)
uncons (z ∷ zs) h = (z, zs, refl)

regions_of_load :
    (ph : Phdr) (phs : List Phdr)
    → (ph.p_type == 1) ≡ true
    → regions_of (ph ∷ phs) ≡ region_of ph ∷ regions_of phs
regions_of_load ph phs b = rw b refl

regions_of_skip :
    (ph : Phdr) (phs : List Phdr)
    → (ph.p_type == 1) ≡ false
    → regions_of (ph ∷ phs) ≡ regions_of phs
regions_of_skip ph phs b = rw b refl

Grown-skip :
    (s : Space) (n : ℕ) (ds : List Region) (ph : Phdr) (phs : List Phdr) (s' : Space)
    → (ph.p_type == 1) ≡ false
    → Grown s n ds phs s'
    → Grown s n ds (ph ∷ phs) s'
Grown-skip s n ds ph phs s' b g =
    let e = regions_of_skip ph phs b in
    let l = ap length e in
    record {
      ys = g.ys;
      y = g.y;
      held = subst (λ rs. Held s' g.ys g.y (ds ++ rs)) (sym e) g.held;
      size = omega (arith, g.size, l);
      room = omega (arith, g.room, l);
      higher = g.higher;
      below = (λ h. absurd (ground (arith, h, b)), g.below);
      upper = λ t h w. g.upper t h w.1;
    }

-- A first segment, or one more, and those behind it.
Grown-load :
    (s s1 : Space) (n : ℕ) (ds : List Region) (ph : Phdr) (phs : List Phdr) (s' : Space)
    → (ph.p_type == 1) ≡ true
    → length s.free ≡ suc (length s1.free)
    → s1.top_vaddr ≡ (if ltb s.top_vaddr (segment_end ph) then segment_end ph else s.top_vaddr)
    → Grown s1 (suc n) (ds ++ region_of ph ∷ []) phs s'
    → Grown s n ds (ph ∷ phs) s'
Grown-load s s1 n ds ph phs s' b free top g =
    let e = regions_of_load ph phs b in
    let l = ap length e in
    let assoc : ds ++ (region_of ph ∷ []) ++ regions_of phs ≡ ds ++ region_of ph ∷ regions_of phs =
      append_assoc ds (region_of ph ∷ []) (regions_of phs) in
    let high : (s.top_vaddr ≤ s1.top_vaddr) × (segment_end ph ≤ s1.top_vaddr) =
      (ground (arith, top), ground (arith, top)) in
    record {
      ys = g.ys;
      y = g.y;
      held = subst (Held s' g.ys g.y) (assoc ∙ ap (λ rs. ds ++ rs) (sym e)) g.held;
      size = omega (arith, g.size, l);
      room = omega (arith, g.room, l, free);
      higher = omega (arith, g.higher, high.0);
      below = (λ h. omega (arith, g.higher, high.1), g.below);
      upper = λ t h w. g.upper t (ground (arith, top, h, w.0 (ground (arith, b)))) w.1;
    }

add_segments_nil : (fuel : ℕ) (s : Space) → add_segments fuel [] s ≡ some s
unfolding add_segments
add_segments_nil fuel s = refl

add_segments-Grown :
    (fuel : ℕ) (phs : List Phdr) (s : Space) (ys : List ℕ) (y : ℕ) (ds : List Region)
    → Held s ys y ds
    → length (regions_of phs) ≤ length s.free
    → length ys + length (regions_of phs) ≤ fuel
    → (s' : Space) × (add_segments fuel phs s ≡ some s') × Grown s (length ys) ds phs s'
add_segments-Grown fuel [] s ys y ds h room enough = (
  s,
  add_segments_nil fuel s,
  record {
    ys = ys;
    y = y;
    held = subst (Held s ys y) (sym (append-nil ds)) h;
    size = omega arith;
    room = omega arith;
    higher = omega arith;
    below = refl;
    upper = λ t h w. h;
  },
)
add_segments-Grown fuel (ph ∷ phs) s ys y ds h room enough = elim (Bool-cases (ph.p_type == 1)) [
  | inr b ↦
      let (s', e, g) =
        add_segments-Grown fuel phs s ys y ds h (ground (arith, b, room))
          (ground (arith, b, enough)) in
      (s', add_segments_skip fuel ph phs s b ∙ e, Grown-skip s (length ys) ds ph phs s' b g)
  | inl b ↦
      let l = ap length (regions_of_load ph phs b) in
      let (z, fs, from) = uncons s.free (omega (arith, room, l)) in
      let s1 = segment_state s z fs ph in
      let placed : Placed s z fs (region_of ph) s1 = record {
        from = from;
        free = refl;
        next = refl;
        start = refl;
        ends = refl;
        kind = refl;
        vm = refl;
        count = refl;
      } in
      let used : (s.vm == 0) ≡ false =
        ground (arith, Chain-snoc_ne_zero s.next ys s.vm y h.chain) in
      let (done, held) =
        append_vma-Held fuel s s1 ys y z fs (region_of ph) ds h placed (omega (arith, enough, l)) in
      let s2 = extended s1 y z in
      let len = length-append ys (y ∷ []) in
      let free = ap length from in
      let (s', e, g) =
        add_segments-Grown fuel phs s2 (ys ++ y ∷ []) z (ds ++ region_of ph ∷ []) held
          (omega (arith, room, l, free)) (omega (arith, enough, l, len)) in
      let len1 : length (ys ++ y ∷ []) ≡ suc (length ys) = omega (arith, len) in
      (
        s',
        add_segments_load fuel ph phs s s2 b (add_segment_next fuel ph s z fs s2 from used done)
            ∙ e,
        Grown-load s s2 (length ys) ds ph phs s' b free refl
            (subst (λ k. Grown s2 k (ds ++ region_of ph ∷ []) phs s') len1 g),
      )
]

-- A task without regions yet, and regions to hand out.
pub record Fresh (s : Space) : Type 0 where
  pub vm : s.vm ≡ 0
  pub count : s.vma_count ≡ 0
  pub top : s.top_vaddr ≡ 0
  pub once : distinct s.free ≡ true
  pub live : has 0 s.free ≡ false

-- The state with the regions of the segments only.
pub record Segmented (s : Space) (phs : List Phdr) (s' : Space) : Type 0 where
  pub ys : List ℕ
  pub y : ℕ
  pub held : Held s' ys y (regions_of phs)
  pub size : suc (length ys) ≡ length (regions_of phs)
  pub room : length s'.free + length (regions_of phs) ≡ length s.free
  pub below : Below s'.top_vaddr phs
  pub upper : (top : ℕ) → Below top phs → s'.top_vaddr ≤ top

first_state : Space → ℕ → List ℕ → Phdr → Space
first_state s z fs ph = record (segment_state s z fs ph) { vm = z; vma_count = s.vma_count + 1 }

first-Held :
    (s : Space) (z : ℕ) (fs : List ℕ) (ph : Phdr)
    → Fresh s
    → s.free ≡ z ∷ fs
    → Held (first_state s z fs ph) [] z (region_of ph ∷ [])
unfolding first_state
first-Held s z fs ph f e = record {
  chain = (refl, ground (arith, f.live, ap (has 0) e), ground arith);
  fields = (ground arith, ground arith, ground arith, refl);
  once = sym (ap distinct e) ∙ f.once;
  live = ground (arith, f.live, ap (has 0) e);
  count = omega (arith, f.count);
}

pub add_segments-Segmented :
    (fuel : ℕ) (phs : List Phdr) (s : Space)
    → Fresh s
    → 1 ≤ length (regions_of phs)
    → length (regions_of phs) ≤ length s.free
    → length (regions_of phs) ≤ fuel
    → (s' : Space) × (add_segments fuel phs s ≡ some s') × Segmented s phs s'
unfolding first_state
add_segments-Segmented fuel [] s f some_ room enough = absurd (omega arith)
add_segments-Segmented fuel (ph ∷ phs) s f some_ room enough = elim (Bool-cases (ph.p_type == 1)) [
  | inr b ↦
      let l = regions_of_skip ph phs b in
      let len = ap length l in
      let (s', e, g) =
        add_segments-Segmented fuel phs s f (omega (arith, some_, len)) (omega (arith, room, len))
          (omega (arith, enough, len)) in
      (
        s',
        add_segments_skip fuel ph phs s b ∙ e,
        record {
          ys = g.ys;
          y = g.y;
          held = subst (Held s' g.ys g.y) (sym l) g.held;
          size = omega (arith, g.size, len);
          room = omega (arith, g.room, len);
          below = (λ h. absurd (ground (arith, h, b)), g.below);
          upper = λ t w. g.upper t w.1;
        },
      )
  | inl b ↦
      let len = ap length (regions_of_load ph phs b) in
      let (z, fs, from) = uncons s.free (omega (arith, room, len)) in
      let s2 = first_state s z fs ph in
      let free = ap length from in
      let (s', e, g) =
        add_segments-Grown fuel phs s2 [] z (region_of ph ∷ []) (first-Held s z fs ph f from)
          (omega (arith, room, len, free)) (omega (arith, enough, len)) in
      let high : segment_end ph ≤ s2.top_vaddr = ground arith in
      (
        s',
        add_segments_load fuel ph phs s s2 b
              (add_segment_first fuel ph s z fs from (ground (arith, f.vm)))
            ∙ e,
        record {
          ys = g.ys;
          y = g.y;
          held = subst (Held s' g.ys g.y) (sym (regions_of_load ph phs b)) g.held;
          size = omega (arith, g.size, len);
          room = omega (arith, g.room, len, free);
          below = (λ h. omega (arith, g.higher, high), g.below);
          upper = λ t w. g.upper t (ground (arith, f.top, w.0 (ground (arith, b)))) w.1;
        },
      )
]
