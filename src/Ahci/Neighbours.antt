-- ===== src/Ahci/Neighbours.antt =====
-- What preparing a command, in `ahci_write` and `ahci_read` of sys/ahci.c, does to the tables of the
-- other slots.
use os.Common.{
  ℕ, ◌+◌, ◌-◌, ◌*◌, ◌/◌, ◌%◌, ◌^◌, ◌≤◌, ◌<◌, ◌≡◌, ◌≢◌, ◌⊎◌, refl, true, false, ◌&&◌, leb, ltb, ◌==◌,
  ==_self, ==_of_ne, arith,
}
use os.Ahci.{CmdTable, DmaMemory}
use os.Ahci.Command.{Direction, clear_range, table_length, prepare_command}
use os.Ahci.Port.{table_address}
use os.Ahci.Layout.{IsApart, table_address-IsApart}

-- The fields of a table in its 256 bytes: the FIS and 8 entries.
pub record SameTable (t t' : CmdTable) : Type 0 where
  pub fis : t'.cfis ≡ t.cfis
  pub entries : (e : ℕ) → e < 8 → t'.prdt_entry e ≡ t.prdt_entry e

clear_range-SameTable :
    (first a : ℕ) (t : CmdTable) → IsApart first a → SameTable t (clear_range first 256 a t)
unfolding clear_range
clear_range-SameTable first a t h =
    let off : (leb first a && ltb a (first + 256)) ≡ false = ground (arith, h) in
    record {
      fis = rw off refl;
      entries = λ e small.
          let out : (leb first (a + 128 + e * 16) && ltb (a + 128 + e * 16) (first + 256)) ≡ false =
            ground (arith, h) in
          rw out refl;
    }

-- Where the header of slot `i` of port `p` names the slot's table, preparing a command of 1 to 16
-- sectors there leaves the tables of all other slots and ports, and all other headers, as they are,
-- and the header announces one entry.
pub prepare_command-SameTable :
    (d : Direction) (p i q j clb startl starth count buf : ℕ) (m : DmaMemory)
    → p < 32
    → i < 32
    → q < 32
    → j < 32
    → (p ≢ q) ⊎ (i ≢ j)
    → 0 < count
    → count ≤ 16
    → (m.header (clb + i * 32)).ctba ≡ table_address p i
    → let m' = prepare_command d clb i startl starth count buf m in
      SameTable (m.table (table_address q j)) (m'.table (table_address q j))
      × ((a : ℕ) → a ≢ clb + i * 32 → m'.header a ≡ m.header a)
      × ((m'.header (clb + i * 32)).prdtl ≡ 1)
unfolding prepare_command table_length
prepare_command-SameTable d p i q j clb startl starth count buf m hp hi hq hj ne some_sectors few
      at =
    let apart = table_address-IsApart p q i j hp hq hi hj ne in
    let t = m.table (table_address q j) in
    let other : table_address q j ≢ (m.header (clb + i * 32)).ctba =
      λ e. ground (arith, e, at, apart) in
    let one : (count + 2 ^ 32 - 1) % 2 ^ 32 / 16 % 2 ^ 16 + 1 ≡ 1 = omega arith in
    let same = clear_range-SameTable (table_address p i) (table_address q j) t apart in
    (
      rw (==_of_ne (table_address q j) (m.header (clb + i * 32)).ctba other, one, at) same,
      λ a off. rw (==_of_ne a (clb + i * 32) off) refl,
      rw (==_self (clb + i * 32), one) refl,
    )

-- With 17 to 128 sectors, which take two to eight entries, clearing the table also clears the command
-- in the table of the next slot.
pub prepare_command_spills :
    (d : Direction) (p i clb startl starth count buf : ℕ) (m : DmaMemory)
    → p < 32
    → i < 31
    → 16 < count
    → count ≤ 128
    → (m.header (clb + i * 32)).ctba ≡ table_address p i
    → ((prepare_command d clb i startl starth count buf m).table
        (table_address p i + 256)).cfis.command
      ≡ 0
unfolding prepare_command table_length clear_range
prepare_command_spills d p i clb startl starth count buf m hp hi many few at =
    let n = ((count + 2 ^ 32 - 1) % 2 ^ 32 / 16 % 2 ^ 16 + 1) % 2 ^ 16 in
    let two : 2 ≤ n = omega arith in
    let other : ((table_address p i + 256) == (m.header (clb + i * 32)).ctba) ≡ false =
      ground (arith, at) in
    let hit : (leb (m.header (clb + i * 32)).ctba (table_address p i + 256)
          && ltb (table_address p i + 256) ((m.header (clb + i * 32)).ctba + (240 + n * 16)))
        ≡ true =
      ground (arith, at, two) in
    rw (other, hit) refl
