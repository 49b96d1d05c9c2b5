-- ===== src/Paging/Init.antt =====
-- `init_pging` of sys/pging.c: the page tables that the kernel starts with.
use Prim.Native.Nat.{bit_or}
use os.Common.{ℕ, zero, suc, ◌+◌, ◌-◌, ◌*◌, ◌/◌, ◌%◌}
use os.Paging.{Paging, set_entry, map_page}

-- The four frames before `physfree`: the tables of the four levels, the top one first.
abbrev pub top_table : ℕ → ℕ
top_table physfree = physfree - 4 * 4096

abbrev pub second_table : ℕ → ℕ
second_table physfree = physfree - 3 * 4096

abbrev pub third_table : ℕ → ℕ
third_table physfree = physfree - 2 * 4096

abbrev pub last_table : ℕ → ℕ
last_table physfree = physfree - 4096

-- `kern_size`
abbrev pub kern_size : ℕ → ℕ
kern_size physfree = (physfree - 0x200000) / 4096

-- The loop over the pages of the kernel, with its rounds left. Entries past the 512 of the table
-- are those of the frames behind it.
unfoldable pub map_kernel : ℕ → ℕ → ℕ → ℕ → Paging → Paging
map_kernel zero pt i kern p = p
map_kernel (suc left) pt i kern p =
    map_kernel left pt (i + 1) (kern + 4096)
      (set_entry (pt + i / 512 * 4096) (i % 512) (bit_or kern 3) p)

-- The tables linked, with the indices of KERNBASE.
unfoldable pub link_tables : ℕ → Paging → Paging
link_tables physfree p =
    let a = top_table physfree in
    let b = second_table physfree in
    let c = third_table physfree in
    set_entry c 1 (bit_or (last_table physfree) 3)
      (set_entry b 510 (bit_or c 3) (set_entry a 511 (bit_or b 3) (set_entry a 510 (bit_or a 3) p)))

-- Up to the load of cr3.
unfoldable pub init_tables : ℕ → Paging → Paging
init_tables physfree p =
    map_kernel (kern_size physfree) (last_table physfree) 0 0x200000
      (record (link_tables physfree p) {
        root = top_table physfree;
        init_root = top_table physfree;
      })

-- `ALIGN_UP`, in 64 bits.
abbrev pub page_up : ℕ → ℕ
page_up x = (x - 1) / 4096 * 4096 + 4096

-- `kern_temp_addr` is the page after the kernel's end, and `kern_free_addr` the one behind it.
unfoldable pub init_pging : ℕ → Paging → Paging
init_pging physfree p =
    let temp = page_up (18446744071562067968 + physfree) + 4096 in
    map_page 0xb8000 18446744071562821632 3
      (record (init_tables physfree p) { kern_free_addr = temp + 4096 })
