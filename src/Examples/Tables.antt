-- ===== src/Examples/Tables.antt =====
-- Page tables of four levels on the pages 1 to 4, with eight pages in all.
use os.Common.{ℕ, ◌*◌, ◌≡◌, ◌≢◌, true, false, refl, arith, some, [], ◌∷◌, ltb, ◌==◌, if◌then◌else◌}
use os.Pages.{Pmap}
use os.Paging.{
  frame_of, upper_indices, Paging, translate, walk, map_page, get_phys, get_pdt, get_pdpt, get_pmlt,
  kmmap,
}
use os.Paging.Descent.{Stock}
use os.Paging.Slot.{slots-entries}
use os.Paging.Mapping.{map_page-translate}
use os.Elf.{Space}
use os.Fork.{share_page}
use os.Fork.Share.{share_page-translate}
use os.Faults.{is_cow, is_rw, goes_on, handle_pg_fault, make_private}
use os.Faults.Private.{Copied, make_private-Copied}
use os.Faults.Search.{handle_pg_fault-Chain}

-- The pages 1 to 5 are in use, the last of them twice, and 6, 7 and 8 are free.
abbrev pmap : Pmap
pmap = record {
  base = λ p. p * 4096;
  map_count = λ p. if p == 5 then 2 else if ltb p 5 then 1 else 0;
  next = λ p. if p == 6 then 7 else if p == 7 then 8 else 0;
  freelist_head = 6;
  free_pg_count = 3;
  entry_count = 8;
}

pmap-Stock : Stock pmap (6 ∷ 7 ∷ 8 ∷ [])
pmap-Stock = record {
  frees = record {
    chain = (refl, omega arith, (refl, omega arith, (refl, omega arith, refl)));
    once = refl;
    within = λ p h. ground arith;
    unmapped = λ p e. ground arith;
    apart = λ p q e d h. omega arith;
  };
  aligned = λ p e. omega arith;
  low = λ p e. omega (arith, e);
}

-- The address 0 leads through the pages 1 to 4 to the page 5, which is shared.
abbrev entries : ℕ → ℕ → ℕ
entries table i =
    if i == 510
    then (if table == 4096 then 4099 else 0)
    else if i == 0
    then (if table == 4096
        then 8199
        else if table == 8192
        then 12295
        else if table == 12288
        then 16391
        else if table == 16384
        then 20997
        else 0)
    else 0

abbrev paging : Paging
paging = record { pmap = pmap; entry = entries; root = 4096; init_root = 4096; kern_free_addr = 0 }

slots-entries_example :
    (translate entries 4096 (get_pmlt 0) ≡ some 4096)
    × (translate entries 4096 (get_pdpt 0) ≡ some 8192)
    × (translate entries 4096 (get_pdt 0) ≡ some 12288)
    × (translate entries 4096 (get_phys 0) ≡ some 16384)
unfolding walk
slots-entries_example =
    slots-entries entries 4096 0 8192 12288 16384 (omega arith) refl refl refl refl refl

-- No table stands behind the index 1 of the top table.
map_page-translate_example :
    let q2 = map_page 36864 549755813898 7 paging in
    translate q2.entry q2.root 549755813898 ≡ some 36874
unfolding walk translate os.Paging.page_at
map_page-translate_example =
    map_page-translate paging (6 ∷ 7 ∷ 8 ∷ []) 36864 549755813898 7 pmap-Stock (omega arith)
      (refl, (λ p h. ground arith), (λ h. absurd (ground (arith, h)))) refl (omega arith)
      (omega arith) (omega arith) (omega arith)

-- The same tables, with the page 5 writable at the address 0; the child's top table at 40960 is empty.
abbrev unshared : Paging
unshared = record paging {
  entry = λ table i. if table == 16384 then (if i == 0 then 20487 else 0) else entries table i;
}

share_page-translate_example :
    let s = share_page 40960 16384 10 unshared in
    (leaf : ℕ) × (walk s.entry (upper_indices 10) 40960 ≡ some leaf)
    × (leaf ≢ 16384)
    × (s.entry leaf 0 ≡ s.entry 16384 0)
    × (frame_of (s.entry 16384 0) ≡ 20480)
    × (is_cow (s.entry 16384 0) ≡ true)
    × (is_rw (s.entry 16384 0) ≡ false)
    × (translate s.entry 40960 10 ≡ some 20490)
    × (s.root ≡ 4096)
unfolding walk translate os.Paging.page_at
share_page-translate_example =
    share_page-translate unshared (6 ∷ 7 ∷ 8 ∷ []) 40960 16384 10 20480 refl (omega arith)
      (omega arith) pmap-Stock (omega arith) (λ p h. ground arith)
      (refl, (λ p h. ground arith), (λ h. absurd (ground (arith, h)))) refl

make_private-Copied_example : Copied paging 10 16384 20480 5 24576 6 (make_private 16384 0 paging)
unfolding walk
make_private-Copied_example =
    make_private-Copied paging 6 (7 ∷ 8 ∷ []) 10 16384 5 pmap-Stock
      (
        refl,
        (λ p h. ground arith),
        (λ e. (
          refl,
          (λ p h. ground arith),
          (λ e. (refl, (λ p h. ground arith), (λ e. (refl, (λ p h. ground arith))))),
        )),
      )
      refl (omega arith, omega arith) (omega arith) refl (omega arith)

-- One region, of two pages.
abbrev space : Space
space = record {
  free = [];
  next = λ a. 0;
  vm_start = λ a. 8192;
  vm_end = λ a. 16384;
  type = λ a. 1;
  flag = λ a. 0;
  vm = 7;
  vma_count = 1;
  total_vm = 0;
  top_vaddr = 0;
  start_brk = 0;
  brk = 0;
  start_stack = 0;
}

handle_pg_fault-Chain_example :
    handle_pg_fault 2 4 9000 space paging ≡ some (goes_on (kmmap 8192 8192 7 paging))
handle_pg_fault-Chain_example =
    handle_pg_fault-Chain (7 ∷ []) 2 4 9000 space paging (refl, omega arith, refl) (omega arith)
      (omega arith) refl
