-- ===== src/Paging/Boot.antt =====
-- The address space that `init_pging` leaves: the kernel, the video memory and the way back.
use Prim.Native.Nat.{bit_or}
use os.Common.{ℕ, ◌+◌, ◌-◌, ◌*◌, ◌/◌, ◌%◌, ◌^◌, ◌≤◌, ◌<◌, ◌≡◌, ◌⊎◌, false}
use os.Pages.{get_free_page}
use os.Paging.{Paging, is_present, set_entry, zero_page}
use os.Paging.Init.{third_table, init_tables}

module _ (physfree : ℕ) (p : Paging) (aligned : physfree % 4096 ≡ 0)
    (behind : 0x200000 + 4 * 4096 ≤ physfree) (fits : physfree ≤ 0x400000)
    (no_table : is_present (p.entry (third_table physfree) 0) ≡ false)
    (fresh_aligned : (get_free_page p.pmap).0 % 4096 ≡ 0)
    (fresh_low : (get_free_page p.pmap).0 < 2 ^ 48)
    (fresh_apart : ((get_free_page p.pmap).0 + 5 * 4096 ≤ physfree)
      ⊎ (physfree ≤ (get_free_page p.pmap).0)) where
  abbrev fresh : ℕ
  fresh = (get_free_page p.pmap).0

  abbrev start : Paging
  start = record (init_tables physfree p) {
    kern_free_addr = (18446744071562067968 + physfree - 1) / 4096 * 4096 + 4096 + 4096 + 4096;
  }

  -- With the table for the video memory made.
  abbrev made : Paging
  made =
      set_entry (third_table physfree) 0 (bit_or fresh 3)
        (zero_page fresh (record start { pmap = (get_free_page p.pmap).1 }))

  abbrev booted : Paging
  booted = set_entry fresh 184 (bit_or 0xb8000 3) made
