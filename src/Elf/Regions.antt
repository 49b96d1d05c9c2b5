-- ===== src/Elf/Regions.antt =====
-- The list of regions of a new task: `load_elf` of sys/elf64.c.
use os.Common.{
  ℕ, ◌+◌, ◌-◌, ◌*◌, ◌/◌, ◌%◌, ◌^◌, ◌≤◌, ◌<◌, ◌≡◌, refl, ap, arith, some, List, [], ◌∷◌, ◌++◌,
  length-append, length, true, ◌==◌, if◌then◌else◌, Bool-cases, inl, inr,
}
use mathlib.Core.Path.{subst}
use os.Common.Int.{int_bits_small}
use os.Common.Links.{update}
use os.Elf.{
  Phdr, Space, heap, stack, perm_rw, user_stack_top, user_stack_size, append_vma, add_segments,
  add_heap, add_stack, add_regions, segment_end,
}
use os.Elf.Appending.{Region, Held, Placed, append_vma-Held, extended, regions_of, set_vma_at}
use os.Elf.Growth.{Below, Below-le, uncons, Fresh, add_segments-Segmented}

-- Where the heap starts.
abbrev pub heap_base : ℕ → ℕ
heap_base top = ((top + 2 ^ 64 - 1) % 2 ^ 64 / 4096 + 1) * 4096 % 2 ^ 64

abbrev heap_state : Space → ℕ → List ℕ → ℕ → Space
heap_state s z fs start = record s {
  free = fs;
  next = update s.next z 0;
  vm_start = update s.vm_start z start;
  vm_end = update s.vm_end z start;
  type = update s.type z heap;
  flag = update s.flag z perm_rw;
  start_brk = start;
  brk = start;
}

abbrev stack_state : Space → ℕ → List ℕ → Space
stack_state s z fs = record s {
  free = fs;
  next = update s.next z 0;
  vm_start = update s.vm_start z (user_stack_top - user_stack_size);
  vm_end = update s.vm_end z user_stack_top;
  type = update s.type z stack;
  flag = update s.flag z perm_rw;
  total_vm = s.total_vm + user_stack_size;
  start_stack = user_stack_top - 8;
}

add_heap_at :
    (fuel : ℕ) (s : Space) (z : ℕ) (fs : List ℕ) (s2 : Space)
    → s.free ≡ z ∷ fs
    → append_vma fuel z (heap_state s z fs (heap_base s.top_vaddr)) ≡ some s2
    → add_heap fuel s ≡ some s2
unfolding add_heap
add_heap_at fuel s z fs s2 e h =
    rw
      (
        add_heap,
        set_vma_at (heap_base s.top_vaddr) (heap_base s.top_vaddr) heap perm_rw z fs s e,
        h,
      )
      refl

add_stack_at :
    (fuel : ℕ) (s : Space) (z : ℕ) (fs : List ℕ) (s2 : Space)
    → s.free ≡ z ∷ fs
    → append_vma fuel z (stack_state s z fs) ≡ some s2
    → add_stack fuel s ≡ some s2
unfolding add_stack
add_stack_at fuel s z fs s2 e h =
    rw
      (
        add_stack,
        set_vma_at (user_stack_top - user_stack_size) user_stack_top stack perm_rw z fs s e,
        h,
      )
      refl

add_regions_at :
    (fuel : ℕ) (phs : List Phdr) (s s1 s2 s3 : Space)
    → add_segments fuel phs s ≡ some s1
    → add_heap fuel s1 ≡ some s2
    → add_stack fuel s2 ≡ some s3
    → add_regions fuel phs s ≡ some s3
unfolding add_regions
add_regions_at fuel phs s s1 s2 s3 e1 e2 e3 = rw (add_regions, e1, e2, e3) refl

-- A page boundary at the top of the segments or above it.
heap_base_above : (top : ℕ) → top < 2 ^ 63 → (top ≤ heap_base top) × (heap_base top % 4096 ≡ 0)
heap_base_above top h = (omega arith, omega arith)

-- The loadable segments have less than 2 gigabytes each and end below 2^63.
abbrev pub Sized : List Phdr → Type 0
Sized [] = true ≡ true
Sized (ph ∷ phs) =
    (ph.p_type ≡ 1 → (ph.p_memsz < 2 ^ 31) × (ph.p_vaddr + ph.p_memsz < 2 ^ 63)) × Sized phs

segment_end_small :
    (ph : Phdr)
    → ph.p_memsz < 2 ^ 31
    → ph.p_vaddr + ph.p_memsz < 2 ^ 63
    → segment_end ph ≡ ph.p_vaddr + ph.p_memsz
unfolding segment_end
segment_end_small ph h k = rw (int_bits_small ph.p_memsz h) (omega arith)

Sized-Below : (phs : List Phdr) → Sized phs → Below (2 ^ 63 - 1) phs
Sized-Below [] w = refl
Sized-Below (ph ∷ phs) w =
    (λ e. (let (h, k) = w.0 e in omega (arith, k, segment_end_small ph h k)), Sized-Below phs w.1)

-- The loadable segments by the fields of their headers: where each starts, where it ends, its type.
abbrev pub segment_regions : List Phdr → List Region
segment_regions [] = []
segment_regions (ph ∷ phs) =
    if ph.p_type == 1
    then (ph.p_vaddr, ph.p_vaddr + ph.p_memsz, ph.p_type) ∷ segment_regions phs
    else segment_regions phs

regions_of-segment_regions : (phs : List Phdr) → Sized phs → regions_of phs ≡ segment_regions phs
regions_of-segment_regions [] w = refl
regions_of-segment_regions (ph ∷ phs) w = elim (Bool-cases (ph.p_type == 1)) [
  | inl b ↦
      let (h, k) = w.0 (ground (arith, b)) in
      rw (b, segment_end_small ph h k, regions_of-segment_regions phs w.1) refl
  | inr b ↦ rw b (regions_of-segment_regions phs w.1)
]

-- Each loadable segment ends at `top` or below.
abbrev pub EndsBelow : ℕ → List Phdr → Type 0
EndsBelow top [] = true ≡ true
EndsBelow top (ph ∷ phs) = (ph.p_type ≡ 1 → ph.p_vaddr + ph.p_memsz ≤ top) × EndsBelow top phs

Below-EndsBelow : (top : ℕ) (phs : List Phdr) → Sized phs → Below top phs → EndsBelow top phs
Below-EndsBelow top [] w b = refl
Below-EndsBelow top (ph ∷ phs) w b = (
  λ e. (let (h, k) = w.0 e in omega (arith, b.0 e, segment_end_small ph h k)),
  Below-EndsBelow top phs w.1 b.1,
)

-- The regions that stand at the end, with the heap at `b`.
abbrev pub all_regions : List Phdr → ℕ → List Region
all_regions phs b =
    (segment_regions phs ++ (b, b, heap) ∷ [])
    ++ (user_stack_top - user_stack_size, user_stack_top, stack) ∷ []

-- For a fresh task with regions enough, and loadable segments of less than 2 gigabytes each that end
-- below 2^63, the loader comes to
-- an end, with fuel for each region; the list of regions then holds those of the loadable segments, in
-- order, an empty heap at a page boundary above all of them, at which `start_brk` and `brk` are, and
-- the stack; the count of the regions is that of the list.
pub add_regions-Held :
    (fuel : ℕ) (phs : List Phdr) (s : Space)
    → Fresh s
    → 1 ≤ length (segment_regions phs)
    → length (segment_regions phs) + 2 ≤ length s.free
    → length (segment_regions phs) + 2 ≤ fuel
    → Sized phs
    → (s' : Space) × (ys : List ℕ) × (y : ℕ) × (add_regions fuel phs s ≡ some s')
      × Held s' ys y (all_regions phs s'.brk)
      × (s'.start_brk ≡ s'.brk)
      × (s'.brk % 4096 ≡ 0)
      × EndsBelow s'.brk phs
      × (s'.start_stack ≡ user_stack_top - 8)
add_regions-Held fuel phs s f some_ room enough w =
    let plain = regions_of-segment_regions phs w in
    let len = ap length plain in
    let (s1, e1, g) =
      add_segments-Segmented fuel phs s f (omega (arith, len)) (omega (arith, len))
        (omega (arith, len)) in
    let low = Sized-Below phs w in
    let held0 = subst (Held s1 g.ys g.y) plain g.held in
    let (z, fs, from) = uncons s1.free (omega (arith, g.room, len)) in
    let free = ap length from in
    let b = heap_base s1.top_vaddr in
    let (above, aligned) = heap_base_above s1.top_vaddr (omega (arith, g.upper (2 ^ 63 - 1) low)) in
    let placed : Placed s1 z fs (b, b, heap) (heap_state s1 z fs b) = record {
      from = from;
      free = refl;
      next = refl;
      start = refl;
      ends = refl;
      kind = refl;
      vm = refl;
      count = refl;
    } in
    let (done, held) =
      append_vma-Held fuel s1 (heap_state s1 z fs b) g.ys g.y z fs (b, b, heap)
        (segment_regions phs) held0 placed (omega (arith, g.size, len)) in
    let s2 = extended (heap_state s1 z fs b) g.y z in
    let (z2, fs2, from2) = uncons fs (omega (arith, g.room, free, len)) in
    let placed2 : Placed s2 z2 fs2 (user_stack_top - user_stack_size, user_stack_top, stack)
        (stack_state s2 z2 fs2) =
      record {
        from = from2;
        free = refl;
        next = refl;
        start = refl;
        ends = refl;
        kind = refl;
        vm = refl;
        count = refl;
      } in
    let (done2, held2) =
      append_vma-Held fuel s2 (stack_state s2 z2 fs2) (g.ys ++ g.y ∷ []) z z2 fs2 _
        (segment_regions phs ++ (b, b, heap) ∷ []) held placed2
        (omega (arith, g.size, length-append g.ys (g.y ∷ []), len)) in
    let s3 = extended (stack_state s2 z2 fs2) z z2 in
    (
      s3,
      _,
      z2,
      add_regions_at fuel phs s s1 s2 s3 e1 (add_heap_at fuel s1 z fs s2 from done)
          (add_stack_at fuel s2 z2 fs2 s3 from2 done2),
      held2,
      refl,
      aligned,
      Below-EndsBelow b phs w (Below-le s1.top_vaddr b phs above g.below),
      refl,
    )
