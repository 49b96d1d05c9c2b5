-- ===== src/Examples/Hardware.antt =====
-- The disk driver and the search of the bus.
use os.Common.{◌≢◌, ℕ, ◌+◌, ◌-◌, ◌*◌, ◌≡◌, refl, arith, inr, some}
use os.Ahci.{DmaMemory, Readings}
use os.Ahci.Command.{writing, reading, no_fis, no_entry, prepare_command}
use os.Ahci.Table.{Covers, prepare_command-Covers, prepare_command_counts}
use os.Ahci.Port.{no_header, Rebased, port_rebase, table_address}
use os.Ahci.Layout.{IsLaid, port_rebase-IsLaid}
use os.Ahci.Neighbours.{SameTable, prepare_command-SameTable}
use os.Pci.{PciDevice, Config}
use os.Pci.Found.{Found}

abbrev memory : DmaMemory
memory = record {
  header = λ a. no_header;
  table = λ a. record { cfis = no_fis; prdt_entry = λ j. no_entry };
}

-- Slot 0 is busy, the drive is ready, and the command ends at once.
abbrev answers : Readings
answers = record { sact = 1; busy_slots = 0; tfd = λ n. 0x50; ci = λ n. 0; is_rwc = λ n. 0 }

prepare_command-Covers_example :
    let m = prepare_command writing 0x800000 1 8 0 20 0x30C000 memory in
    let h = m.header (0x800000 + 1 * 32) in
    Covers (m.table h.ctba).prdt_entry 0 h.prdtl 0x30C000 (0x30C000 + 20 * 512)
prepare_command-Covers_example =
    prepare_command-Covers writing 0x800000 1 8 0 20 0x30C000 memory (omega arith) (omega arith)
      (omega arith)

prepare_command_counts_example :
    let m = prepare_command reading 0x800000 1 0x12345678 0xABCD 20 0x30C000 memory in
    let h = m.header (0x800000 + 1 * 32) in
    let f = (m.table h.ctba).cfis in
    (f.lba0
        + f.lba1 * 256
        + f.lba2 * 65536
        + f.lba3 * 16777216
        + f.lba4 * 4294967296
        + f.lba5 * 1099511627776
      ≡ 0xABCD12345678)
    × (f.count + (h.prdtl - 1) * 16 ≡ 20)
    × (f.command ≡ 0x25)
    × (h.w ≡ 0)
prepare_command_counts_example =
    prepare_command_counts reading 0x800000 1 0x12345678 0xABCD 20 0x30C000 memory (omega arith)
      (omega arith) (omega arith)

port_rebase-IsLaid_example :
    (x : Rebased) × (port_rebase 2 (λ n. 6) 3 memory ≡ some x)
    × (x.clb ≡ 8388608 + 3 * 1024)
    × (x.fb ≡ 8421376 + 3 * 256)
    × IsLaid 3 x.clb x.memory 31
port_rebase-IsLaid_example =
    port_rebase-IsLaid 2 (λ n. 6) 3 31 memory (omega arith) (omega arith)
      (λ n. (0, omega arith, refl)) (λ n. (0, omega arith, refl))

-- The header of slot 0 of port 0 names its table.
abbrev laid_out : DmaMemory
laid_out = record memory { header = λ a. record no_header { ctba = 8429568 } }

prepare_command-SameTable_example :
    let m' = prepare_command writing 0x800000 0 8 0 16 0x30C000 laid_out in
    SameTable (laid_out.table (table_address 0 5)) (m'.table (table_address 0 5))
    × ((a : ℕ) → a ≢ 0x800000 + 0 * 32 → m'.header a ≡ laid_out.header a)
    × ((m'.header (0x800000 + 0 * 32)).prdtl ≡ 1)
unfolding table_address
prepare_command-SameTable_example =
    prepare_command-SameTable writing 0 0 0 5 0x800000 8 0 16 0x30C000 laid_out (omega arith)
      (omega arith) (omega arith) (omega arith) (inr (omega arith)) (omega arith) (omega arith) refl

-- A bus with a disk controller in every place.
abbrev disks : Config
disks = λ a. 0x01060100

abbrev wanted : PciDevice
wanted = record {
  vendor = 0x8086;
  device = 0x2922;
  type = 1;
  subtype = 6;
  prog = 1;
  header = 0;
  bar5 = 0;
  interrupt = 0;
}
