-- ===== src/Examples/Programs.antt =====
-- A command line, a small program, its arguments, and the memory of a process and of its child.
use os.Common.{
  has, true, ℕ, ◌+◌, ◌*◌, ◌-◌, ◌%◌, ◌≤◌, ◌≡◌, refl, arith, false, some, List, [], ◌∷◌, ◌==◌,
  if◌then◌else◌, get_or, ◌⊎◌, inl,
}
use os.Common.Links.{Chain}
use os.Strings.{Memory}
use os.Strings.Copy.{Strings}
use os.Shell.{Cmd, ecmd, parsecmd}
use os.Shell.Ends.{intact, parsecmd-ends}
use os.Shell.Words.{parsecmd-Line}
use os.Elf.{Phdr, Space, copy_segments, add_regions, store_arguments, user_stack_top}
use os.Elf.Stack.{Layout, store_arguments-Layout}
use os.Elf.Segments.{Each, Loaded, Outside, copy_segments-Loaded}
use os.Elf.Appending.{Held}
use os.Elf.Regions.{all_regions, EndsBelow, add_regions-Held}
use os.Heap.{Heap, malloc}
use os.Heap.Alloc.{Allocated, malloc-Allocated}
use os.Fork.{copy_regions}
use os.Fork.Behind.{Twins}
use os.Fork.Copy.{copy_regions-Twins}

-- "ls -l" at the address 100.
abbrev line : Memory
line a = get_or (b'l' ∷ b's' ∷ 32 ∷ b'-' ∷ b'l' ∷ []) (a - 100) 0

abbrev words : List (List ℕ)
words = (b'l' ∷ b's' ∷ []) ∷ (b'-' ∷ b'l' ∷ []) ∷ []

parsecmd-Line_example :
    (m' : Memory) × (src : ℕ) × (parsecmd 9 line 100 ≡ some (m', src, ecmd (100 ∷ 103 ∷ [])))
    × Strings m' (100 ∷ 103 ∷ []) words
parsecmd-Line_example =
    parsecmd-Line 9 line 100 words
      (
        omega arith,
        (refl, refl, (refl, refl, refl)),
        (omega arith, (refl, refl, (refl, refl, refl)), refl),
      )
      (omega arith) (omega arith)

parsecmd-ends_example :
    (m' : Memory) × (src : ℕ) × (command : Cmd) × (parsecmd 9 line 100 ≡ some (m', src, command))
    × ((intact command ≡ false)
        ⊎ ((src ≤ 106) × ((a : ℕ) → (m' a ≡ line a) ⊎ ((m' a ≡ 0) × (100 ≤ a) × (a ≤ 105)))))
parsecmd-ends_example = parsecmd-ends 9 105 line 100 (refl, refl) (omega arith) (omega arith)

store_arguments-Layout_example :
    (m' : Memory) × (sp : ℕ) × (store_arguments words words 4000 (λ a. 7) ≡ some (m', sp))
    × Layout words words (λ a. 7) 4000 m' sp
store_arguments-Layout_example =
    store_arguments-Layout words words 4000 (λ a. 7) refl refl refl refl (omega arith) (omega arith)

-- Code of 16 bytes, data of 8 with 8 more for zeros, and a note that is not loaded.
abbrev code : Phdr
code = record {
  p_type = 1;
  p_flags = 5;
  p_offset = 64;
  p_vaddr = 4096;
  p_filesz = 16;
  p_memsz = 16;
}

abbrev data_segment : Phdr
data_segment = record {
  p_type = 1;
  p_flags = 6;
  p_offset = 80;
  p_vaddr = 8192;
  p_filesz = 8;
  p_memsz = 16;
}

abbrev note : Phdr
note = record { p_type = 4; p_flags = 4; p_offset = 0; p_vaddr = 0; p_filesz = 9; p_memsz = 9 }

abbrev phdrs : List Phdr
phdrs = code ∷ note ∷ data_segment ∷ []

copy_segments-Loaded_example :
    Each (λ ph. Loaded 100000 (λ a. a) ph (copy_segments 100000 phdrs (λ a. a))) phdrs
    × ((a : ℕ) → Each (Outside a) phdrs → copy_segments 100000 phdrs (λ a. a) a ≡ a)
copy_segments-Loaded_example =
    copy_segments-Loaded 100000 phdrs (λ a. a)
      (
        (λ e. record {
          file = omega arith;
          small = omega arith;
          below = omega arith;
          image = omega arith;
        }),
        (
          (λ e. record {
            file = omega arith;
            small = omega arith;
            below = omega arith;
            image = omega arith;
          }),
          (
            (λ e. record {
              file = omega arith;
              small = omega arith;
              below = omega arith;
              image = omega arith;
            }),
            refl,
          ),
        ),
      )
      (
        (λ e. ((λ d. absurd (omega arith)), ((λ d. inl (omega arith)), refl))),
        ((λ e. absurd (omega arith)), ((λ e. refl), refl)),
      )

-- No region is in use, and six are free.
abbrev no_regions : Space
no_regions = record {
  free = 10 ∷ 20 ∷ 30 ∷ 40 ∷ 50 ∷ 60 ∷ [];
  next = λ a. 0;
  vm_start = λ a. 0;
  vm_end = λ a. 0;
  type = λ a. 0;
  flag = λ a. 0;
  vm = 0;
  vma_count = 0;
  total_vm = 0;
  top_vaddr = 0;
  start_brk = 0;
  brk = 0;
  start_stack = 0;
}

add_regions-Held_example :
    (s' : Space) × (ys : List ℕ) × (y : ℕ) × (add_regions 6 phdrs no_regions ≡ some s')
    × Held s' ys y (all_regions phdrs s'.brk)
    × (s'.start_brk ≡ s'.brk)
    × (s'.brk % 4096 ≡ 0)
    × EndsBelow s'.brk phdrs
    × (s'.start_stack ≡ user_stack_top - 8)
add_regions-Held_example =
    add_regions-Held 6 phdrs no_regions
      (record { vm = refl; count = refl; top = refl; once = refl; live = refl }) (omega arith)
      (omega arith) (omega arith)
      (
        (λ e. (omega arith, omega arith)),
        ((λ e. (omega arith, omega arith)), ((λ e. (omega arith, omega arith)), refl)),
      )

-- A process with a region for its heap, and no block yet.
abbrev new_heap : Heap
new_heap = record {
  head = 0;
  size = λ a. 0;
  next = λ a. 0;
  free = λ a. false;
  regions = record { vm = 7; brk = 12288; next = λ a. 0; type = λ a. 3; vm_end = λ a. 12288 };
}

malloc-Allocated_example :
    (b : ℕ) × (h' : Heap) × (malloc 3 100 new_heap ≡ some (b + 24, h'))
    × Allocated 3 12288 100 new_heap [] b h'
malloc-Allocated_example =
    malloc-Allocated 3 12288 100 new_heap []
      (record {
        chain = refl;
        laid = omega arith;
        positive = omega arith;
        ready = record {
          xs = 7 ∷ [];
          chain = (refl, omega arith, refl);
          enough = omega arith;
          has_heap = omega arith;
          covered = omega arith;
        };
      })
      (omega arith) (omega arith)

-- Two regions of a parent.
abbrev parent : Space
parent = record no_regions { next = λ a. if a == 3 then 4 else 0; vm_end = λ a. a * 4096; vm = 3 }

copy_regions-Twins_example :
    (vm : ℕ) × (s' : Space) × (zs : List ℕ) × (copy_regions 4 3 0 0 parent ≡ some (vm, s'))
    × Chain s'.next vm zs
    × Twins s' zs parent (3 ∷ 4 ∷ [])
    × Chain s'.next 3 (3 ∷ 4 ∷ [])
    × ((c : ℕ) → has c zs ≡ true → (has c parent.free ≡ true) × (has c (3 ∷ 4 ∷ []) ≡ false))
copy_regions-Twins_example =
    copy_regions-Twins 3 (4 ∷ []) 4 parent (refl, omega arith, (refl, omega arith, refl))
      (omega arith) (omega arith) refl refl refl
