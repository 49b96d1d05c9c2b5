-- ===== src/Elf/Segments.antt =====
-- The bytes of the segments in the memory of the new task: the loop of `load_elf` of sys/elf64.c.
use os.Common.{
  ℕ, ◌+◌, ◌-◌, ◌%◌, ◌^◌, ◌≤◌, ◌<◌, ◌≡◌, refl, ap, sym, ◌∙◌, arith, true, List, [], ◌∷◌, ◌==◌,
  if◌then◌else◌, Bool-cases, ◌⊎◌, inl, inr,
}
use mathlib.Core.Path.{subst}
use os.Common.Int.{int_bits, int_bits_small}
use os.Strings.{Memory, memmove}
use os.Strings.Blocks.{memmove-memcpy, memcpy-block}
use os.Elf.{Phdr, clear, copy_segment, copy_segments}

-- The segment does not take the address.
abbrev pub Outside : ℕ → Phdr → Type 0
Outside a ph = (a < ph.p_vaddr) ⊎ (ph.p_vaddr + ph.p_memsz ≤ a)

-- The segment, of less than 2 gigabytes, fits below the image, which ends in the address space.
pub record Fits (ehdr : ℕ) (ph : Phdr) : Type 0 where
  pub file : ph.p_filesz ≤ ph.p_memsz
  pub small : ph.p_memsz < 2 ^ 31
  pub below : ph.p_vaddr + ph.p_memsz ≤ ehdr
  pub image : ehdr + ph.p_offset + ph.p_filesz < 2 ^ 64

-- The bytes of the file, and 0 behind them.
pub record Loaded (ehdr : ℕ) (m : Memory) (ph : Phdr) (m' : Memory) : Type 0 where
  pub bytes : (i : ℕ) → i < ph.p_filesz → m' (ph.p_vaddr + i) ≡ m (ehdr + ph.p_offset + i)
  pub bss : (i : ℕ) → ph.p_filesz ≤ i → i < ph.p_memsz → m' (ph.p_vaddr + i) ≡ 0

clear-outside :
    (m : Memory) (addr count a : ℕ) → (a < addr) ⊎ (addr + count ≤ a) → clear m addr count a ≡ m a
unfolding clear
clear-outside m addr count a h = ground arith

clear-inside :
    (m : Memory) (addr count a : ℕ) → addr ≤ a → a < addr + count → clear m addr count a ≡ 0
unfolding clear
clear-inside m addr count a h1 h2 = ground arith

-- Then the counts are those of the header.
copy_segment_small :
    (ehdr : ℕ) (ph : Phdr) (m : Memory)
    → Fits ehdr ph
    → copy_segment ehdr ph m
      ≡ clear
          (memmove m (ehdr + ph.p_offset) ph.p_vaddr ph.p_filesz)
          (ph.p_vaddr + ph.p_filesz)
          (ph.p_memsz - ph.p_filesz)
unfolding copy_segment
copy_segment_small ehdr ph m f =
    let whole : int_bits ph.p_memsz ≡ ph.p_memsz = int_bits_small ph.p_memsz f.small in
    let file : ph.p_filesz % 2 ^ 32 ≡ ph.p_filesz = omega (arith, f.file, f.small) in
    let rest : (ph.p_memsz + 2 ^ 64 - ph.p_filesz) % 2 ^ 32 ≡ ph.p_memsz - ph.p_filesz =
      omega (arith, f.file, f.small) in
    rw (whole, file, rest) refl

copy_segment-Outside :
    (ehdr : ℕ) (ph : Phdr) (m : Memory) (a : ℕ)
    → Fits ehdr ph
    → Outside a ph
    → copy_segment ehdr ph m a ≡ m a
copy_segment-Outside ehdr ph m a f o =
    let block =
      memcpy-block m (ehdr + ph.p_offset) ph.p_vaddr ph.p_filesz (inl (omega (arith, f.below))) in
    ap (λ (r : Memory). r a) (copy_segment_small ehdr ph m f)
    ∙ clear-outside _ _ _ a (ground (arith, f.file, o))
    ∙ rw (memmove-memcpy m (ehdr + ph.p_offset) ph.p_vaddr ph.p_filesz f.image)
        (block.1 a (ground (arith, f.file, o)))

copy_segment-Loaded :
    (ehdr : ℕ) (ph : Phdr) (m : Memory) → Fits ehdr ph → Loaded ehdr m ph (copy_segment ehdr ph m)
copy_segment-Loaded ehdr ph m f =
    let block =
      memcpy-block m (ehdr + ph.p_offset) ph.p_vaddr ph.p_filesz (inl (omega (arith, f.below))) in
    record {
      bytes = λ i h.
          ap (λ (r : Memory). r (ph.p_vaddr + i)) (copy_segment_small ehdr ph m f)
          ∙ clear-outside _ _ _ (ph.p_vaddr + i) (inl (omega arith))
          ∙ rw (memmove-memcpy m (ehdr + ph.p_offset) ph.p_vaddr ph.p_filesz f.image) (block.0 i h);
      bss = λ i h1 h2.
          ap (λ (r : Memory). r (ph.p_vaddr + i)) (copy_segment_small ehdr ph m f)
          ∙ clear-inside _ _ _ (ph.p_vaddr + i) (omega arith) (omega (arith, f.file));
    }

-- What holds of each loadable segment.
abbrev pub Each : (Phdr → Type 0) → List Phdr → Type 0
Each P [] = true ≡ true
Each P (ph ∷ phs) = (ph.p_type ≡ 1 → P ph) × Each P phs

Each-map :
    (P Q : Phdr → Type 0) (phs : List Phdr) → ((ph : Phdr) → P ph → Q ph) → Each P phs → Each Q phs
Each-map P Q [] f h = refl
Each-map P Q (ph ∷ phs) f h = (λ e. f ph (h.0 e), Each-map P Q phs f h.1)

-- No two segments share a byte.
abbrev pub Apart : Phdr → Phdr → Type 0
Apart p q = (p.p_vaddr + p.p_memsz ≤ q.p_vaddr) ⊎ (q.p_vaddr + q.p_memsz ≤ p.p_vaddr)

abbrev pub Disjoint : List Phdr → Type 0
Disjoint [] = true ≡ true
Disjoint (ph ∷ phs) = (ph.p_type ≡ 1 → Each (Apart ph) phs) × Disjoint phs

copy_segments_cons :
    (ehdr : ℕ) (ph : Phdr) (phs : List Phdr) (m : Memory)
    → copy_segments ehdr (ph ∷ phs) m
      ≡ copy_segments ehdr phs (if ph.p_type == 1 then copy_segment ehdr ph m else m)
unfolding copy_segments
copy_segments_cons ehdr ph phs m = refl

copy_segments-Outside :
    (ehdr : ℕ) (phs : List Phdr) (m : Memory) (a : ℕ)
    → Each (Fits ehdr) phs
    → Each (Outside a) phs
    → copy_segments ehdr phs m a ≡ m a
unfolding copy_segments
copy_segments-Outside ehdr [] m a f o = refl
copy_segments-Outside ehdr (ph ∷ phs) m a f o = elim (Bool-cases (ph.p_type == 1)) [
  | inl b ↦
      let e : ph.p_type ≡ 1 = ground (arith, b) in
      copy_segments-Outside ehdr phs (if ph.p_type == 1 then copy_segment ehdr ph m else m) a f.1
        o.1
      ∙ rw b (copy_segment-Outside ehdr ph m a (f.0 e) (o.0 e))
  | inr b ↦
      copy_segments-Outside ehdr phs (if ph.p_type == 1 then copy_segment ehdr ph m else m) a f.1
        o.1
      ∙ rw b refl
]

-- The image stays as it is.
loaded_first :
    (ehdr : ℕ) (ph : Phdr) (m : Memory) (a : ℕ)
    → (ph.p_type ≡ 1 → Fits ehdr ph)
    → ehdr ≤ a
    → (if ph.p_type == 1 then copy_segment ehdr ph m else m) a ≡ m a
loaded_first ehdr ph m a f h = elim (Bool-cases (ph.p_type == 1)) [
  | inl b ↦
      let fits = f (ground (arith, b)) in
      rw b (copy_segment-Outside ehdr ph m a fits (inr (omega (arith, fits.below))))
  | inr b ↦ rw b refl
]

Each-Loaded :
    (ehdr : ℕ) (phs : List Phdr) (m : Memory)
    → Each (Fits ehdr) phs
    → Disjoint phs
    → Each (λ ph. Loaded ehdr m ph (copy_segments ehdr phs m)) phs
Each-Loaded ehdr [] m f d = refl
Each-Loaded ehdr (ph ∷ phs) m f d =
    let m1 : Memory = if ph.p_type == 1 then copy_segment ehdr ph m else m in
    let last : copy_segments ehdr (ph ∷ phs) m ≡ copy_segments ehdr phs m1 =
      copy_segments_cons ehdr ph phs m in
    subst (λ r. Each (λ p. Loaded ehdr m p r) (ph ∷ phs)) (sym last)
      (
        λ e.
            let fits = f.0 e in
            let here = copy_segment-Loaded ehdr ph m fits in
            let m1_lem : m1 ≡ copy_segment ehdr ph m = rw e refl in
            let kept : (i : ℕ)
                → i < ph.p_memsz
                → copy_segments ehdr phs m1 (ph.p_vaddr + i)
                  ≡ copy_segment ehdr ph m (ph.p_vaddr + i) =
              λ i h.
                copy_segments-Outside ehdr phs m1 (ph.p_vaddr + i) f.1 (
                  Each-map (Apart ph) (Outside (ph.p_vaddr + i)) phs (λ q s. ground (arith, s))
                    (d.0 e))
                ∙ ap (λ mem. mem (ph.p_vaddr + i)) m1_lem in
            record {
              bytes = λ i h. kept i (omega (arith, fits.file)) ∙ here.bytes i h;
              bss = λ i h1 h2. kept i h2 ∙ here.bss i h1 h2;
            },
        Each-map (λ p. Loaded ehdr m1 p (copy_segments ehdr phs m1))
            (λ p. Loaded ehdr m p (copy_segments ehdr phs m1)) phs
            (λ p l. record {
              bytes = λ i h.
                  l.bytes i h ∙ loaded_first ehdr ph m (ehdr + p.p_offset + i) f.0 (omega arith);
              bss = l.bss;
            })
            (Each-Loaded ehdr phs m1 f.1 d.1),
      )

-- For segments that fit below the image and share no bytes, the memory holds each loadable segment's
-- bytes of the image at its address when all are copied, and 0 for the bytes that the file lacks;
-- no byte outside of the loadable segments has changed.
pub copy_segments-Loaded :
    (ehdr : ℕ) (phs : List Phdr) (m : Memory)
    → Each (Fits ehdr) phs
    → Disjoint phs
    → Each (λ ph. Loaded ehdr m ph (copy_segments ehdr phs m)) phs
      × ((a : ℕ) → Each (Outside a) phs → copy_segments ehdr phs m a ≡ m a)
copy_segments-Loaded ehdr phs m f d =
    (Each-Loaded ehdr phs m f d, λ a o. copy_segments-Outside ehdr phs m a f o)
