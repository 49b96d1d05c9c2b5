-- ===== src/Ahci/Command.antt =====
-- A transfer: `ahci_write` and `ahci_read` of sys/ahci.c. A loop that waits for the controller runs on
-- fuel; the wait for the drive has the limit of the source.
use os.Common.{
  ℕ, zero, suc, ◌+◌, ◌-◌, ◌*◌, ◌/◌, ◌%◌, ◌^◌, Option, none, some, List, [], ◌∷◌, Bool, ◌||◌, ◌&&◌,
  leb, ltb, ◌==◌, if◌then◌else◌,
}
use mathlib.Core.Option
use os.Common.Int.{ℤ, pos, minus_one}
use os.Common.Links.{update}
use os.Ahci.{
  PrdtEntry, FisRegH2d, CmdTable, CmdHeader, DmaMemory, Readings, RegWrite, is_rwc, ci, bit_at,
  find_cmdslot,
}

-- What differs between `ahci_write` and `ahci_read`: the direction bit of the header, the
-- interrupt bit of the full entries and the command.
pub record Direction : Type 0 where
  pub w : ℕ
  pub intr : ℕ
  pub command : ℕ

abbrev pub writing : Direction
writing = record { w = 1; intr = 1; command = 0x35 }

abbrev pub reading : Direction
reading = record { w = 0; intr = 0; command = 0x25 }

-- `(uint16_t)((count-1)>>4) + 1`, stored in 16 bits.
unfoldable pub table_length : ℕ → ℕ
table_length count = ((count + 2 ^ 32 - 1) % 2 ^ 32 / 16 % 2 ^ 16 + 1) % 2 ^ 16

abbrev pub no_entry : PrdtEntry
no_entry = record { dba = 0; dbc = 0; i = 0 }

abbrev pub no_fis : FisRegH2d
no_fis = record {
  fis_type = 0;
  pmport = 0;
  c = 0;
  command = 0;
  featurel = 0;
  lba0 = 0;
  lba1 = 0;
  lba2 = 0;
  device = 0;
  lba3 = 0;
  lba4 = 0;
  lba5 = 0;
  featureh = 0;
  count = 0;
  icc = 0;
  control = 0;
  aux = 0;
}

-- The `memset` of a table: 256 bytes, of which 128 are entries of 16, and `prdtl - 1` entries more.
unfoldable pub clear_table : ℕ → CmdTable → CmdTable
clear_table prdtl t = record {
  cfis = no_fis;
  prdt_entry = λ j. if ltb j (prdtl + 7) then no_entry else t.prdt_entry j;
}

-- The same `memset`, of `len` bytes from `first` on, seen from a table at `a`: those of its fields that
-- are in the range are cleared. Tables and ranges start at multiples of 16.
unfoldable pub clear_range : ℕ → ℕ → ℕ → CmdTable → CmdTable
clear_range first len a t = record {
  cfis =
      if leb first a && ltb a (first + len)
      then record no_fis { aux = if ltb (a + 16) (first + len) then 0 else t.cfis.aux }
      else t.cfis;
  prdt_entry = λ j.
      if leb first (a + 128 + j * 16) && ltb (a + 128 + j * 16) (first + len)
      then no_entry
      else t.prdt_entry j;
}

-- The loop over the entries of 16 sectors, with its rounds left; it leaves the entries, `ptr` and
-- `count`.
unfoldable pub fill_entries : ℕ → ℕ → ℕ → ℕ → ℕ → (ℕ → PrdtEntry) → (ℕ → PrdtEntry) × ℕ × ℕ
fill_entries intr zero i ptr count entries = (entries, ptr, count)
fill_entries intr (suc left) i ptr count entries =
    fill_entries intr left (i + 1) ((ptr + 16 * 512) % 2 ^ 64) ((count + 2 ^ 32 - 16) % 2 ^ 32)
      (update entries i (record { dba = ptr; dbc = 16 * 512 - 1; i = intr }))

-- The entry after the loop: `(count << 9) - 1` in the 22 bits of `dbc`.
unfoldable pub last_entry : ℕ → ℕ → PrdtEntry
last_entry ptr count = record {
  dba = ptr;
  dbc = (count * 512 % 2 ^ 32 + 2 ^ 32 - 1) % 2 ^ 32 % 2 ^ 22;
  i = 0;
}

-- The command FIS.
unfoldable pub command_fis : ℕ → ℕ → ℕ → ℕ → FisRegH2d
command_fis command startl starth count = record no_fis {
  fis_type = 0x27;
  c = 1;
  command = command;
  lba0 = startl % 256;
  lba1 = startl / 2 ^ 8 % 256;
  lba2 = startl / 2 ^ 16 % 256;
  device = 64;
  lba3 = startl / 2 ^ 24 % 256;
  lba4 = starth % 256;
  lba5 = starth / 2 ^ 8 % 256;
  count = count % 2 ^ 16;
}

-- The table of a command: cleared, then its entries and its FIS.
unfoldable pub fill_table : Direction → ℕ → ℕ → ℕ → ℕ → ℕ → CmdTable → CmdTable
fill_table d n startl starth count buf t =
    let filled = fill_entries d.intr (n - 1) 0 buf count (clear_table n t).prdt_entry in
    record {
      cfis = command_fis d.command startl starth filled.2;
      prdt_entry = update filled.0 (n - 1) (last_entry filled.1 filled.2);
    }

-- The header and the table of a command, in the memory that `clb` points into. A table has 256 bytes:
-- where there is more than one entry, the `memset` reaches into the tables behind.
unfoldable pub prepare_command : Direction → ℕ → ℕ → ℕ → ℕ → ℕ → ℕ → DmaMemory → DmaMemory
prepare_command d clb slot startl starth count buf m =
    let at = clb + slot * 32 in
    let n = table_length count in
    let h : CmdHeader = record (m.header at) { cfl = 5; w = d.w; c = 1; prdtl = n } in
    record {
      header = update m.header at h;
      table =
          update (λ a. clear_range h.ctba (240 + n * 16) a (m.table a)) h.ctba
            (fill_table d n startl starth count buf (m.table h.ctba));
    }

-- `port->tfd & (ATA_DEV_BUSY | ATA_DEV_DRQ)`
abbrev pub is_busy : ℕ → Bool
is_busy tfd = bit_at tfd 7 == 1 || bit_at tfd 3 == 1

-- The wait for the drive, with the rounds left: the final `spin`.
unfoldable pub spin_wait : ℕ → (ℕ → ℕ) → ℕ → ℕ
spin_wait zero tfd spin = spin
spin_wait (suc left) tfd spin =
    let rest = spin_wait left tfd (spin + 1) in if is_busy (tfd spin) then rest else spin

abbrev pub spin_limit : ℕ
spin_limit = 3000000

-- `port->is_rwc & HBA_PxIS_TFES`
abbrev pub is_failed : ℕ → Bool
is_failed status = bit_at status 30 == 1

-- The loop that waits for the controller to clear the slot's bit, and the test after it. On round
-- `n` it reads the registers for the `n`-th time; `none` is a lack of fuel.
unfoldable pub finish_wait : ℕ → Readings → ℕ → ℕ → Option ℤ
finish_wait zero r slot n = none
finish_wait (suc fuel) r slot n =
    let rest = finish_wait fuel r slot (n + 1) in
    if bit_at (r.ci n) slot == 0
    then some (if is_failed (r.is_rwc n) then pos 0 else pos 1)
    else (if is_failed (r.is_rwc n) then some (pos 0) else rest)

-- What a transfer leaves: its result, the memory and the writes of the port's registers.
pub record TransferResult : Type 0 where
  pub code : ℤ
  pub memory : DmaMemory
  pub writes : List RegWrite

abbrev pub clear_status : RegWrite
clear_status = is_rwc (2 ^ 32 - 1)

-- From the wait for the drive on.
unfoldable pub issue : ℕ → ℕ → Readings → ℕ → DmaMemory → Option TransferResult
issue fuel limit r slot m =
    if spin_wait limit r.tfd 0 == limit
    then some (record { code = pos 0; memory = m; writes = clear_status ∷ [] })
    else Option.map
        (λ (result : ℤ).
          let o : TransferResult = record {
            code = result;
            memory = m;
            writes = clear_status ∷ ci (2 ^ slot) ∷ [];
          } in
          o)
        (finish_wait fuel r slot 0)

unfoldable pub dma_transfer :
    Direction → ℕ → Readings → ℕ → ℕ → ℕ → ℕ → ℕ → DmaMemory → Option TransferResult
dma_transfer d fuel r clb startl starth count buf m = elim (find_cmdslot r) [
  | none ↦ some (record { code = minus_one; memory = m; writes = clear_status ∷ [] })
  | some slot ↦ issue fuel spin_limit r slot (prepare_command d clb slot startl starth count buf m)
]

unfoldable pub ahci_write : ℕ → Readings → ℕ → ℕ → ℕ → ℕ → ℕ → DmaMemory → Option TransferResult
ahci_write = dma_transfer writing

unfoldable pub ahci_read : ℕ → Readings → ℕ → ℕ → ℕ → ℕ → ℕ → DmaMemory → Option TransferResult
ahci_read = dma_transfer reading
