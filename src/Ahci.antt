-- ===== src/Ahci.antt =====
-- The disk driver of sys/ahci.c and the structures of include/sys/ahci.h that it fills: the command
-- list, the command tables, the search for a free slot, a transfer and the set-up of a port. What
-- the controller answers is a parameter, a sequence of values for each register that is read.
use Prim.Native.Nat.{bit_or}
use os.Common.{
  ℕ, zero, suc, ◌+◌, ◌-◌, ◌*◌, ◌/◌, ◌%◌, ◌^◌, ◌≡◌, Option, none, some, List, [], ◌∷◌, Bool, true,
  false, ◌||◌, ltb, ◌==◌, if◌then◌else◌,
}
use os.Common.Int.{ℤ, pos, minus_one}
use os.Common.Links.{update}
pub mod Command
pub mod Slots
pub mod Table
pub mod Outcome
pub mod Port
pub mod Layout
pub mod Neighbours
pub mod Probe

-- `hba_prdt_entry_t`, without its reserved fields.
pub record PrdtEntry : Type 0 where
  pub dba : ℕ
  pub dbc : ℕ
  pub i : ℕ

-- `fis_reg_h2d_t`, without its reserved fields.
pub record FisRegH2d : Type 0 where
  pub fis_type : ℕ
  pub pmport : ℕ
  pub c : ℕ
  pub command : ℕ
  pub featurel : ℕ
  pub lba0 : ℕ
  pub lba1 : ℕ
  pub lba2 : ℕ
  pub device : ℕ
  pub lba3 : ℕ
  pub lba4 : ℕ
  pub lba5 : ℕ
  pub featureh : ℕ
  pub count : ℕ
  pub icc : ℕ
  pub control : ℕ
  pub aux : ℕ

-- `hba_cmd_tbl_t`: the driver uses the command FIS and the entries.
pub record CmdTable : Type 0 where
  pub cfis : FisRegH2d
  pub prdt_entry : ℕ → PrdtEntry

-- `hba_cmd_header_t`, without its reserved fields.
pub record CmdHeader : Type 0 where
  pub cfl : ℕ
  pub a : ℕ
  pub w : ℕ
  pub p : ℕ
  pub r : ℕ
  pub b : ℕ
  pub c : ℕ
  pub pmp : ℕ
  pub prdtl : ℕ
  pub prdbc : ℕ
  pub ctba : ℕ

-- The memory that the controller reads: headers and tables by their addresses.
pub record DmaMemory : Type 0 where
  pub header : ℕ → CmdHeader
  pub table : ℕ → CmdTable

-- The successive values read from the registers of a port: `sact` and `ci` once for the slot, then
-- `tfd`, `ci` and `is_rwc` on each round of a wait.
pub record Readings : Type 0 where
  pub sact : ℕ
  pub busy_slots : ℕ
  pub tfd : ℕ → ℕ
  pub ci : ℕ → ℕ
  pub is_rwc : ℕ → ℕ

-- A write of a register of a port.
pub data RegWrite : Type 0 where
  is_rwc : ℕ → RegWrite
  ci : ℕ → RegWrite

-- `x & (1 << k)`, as 0 or 1.
abbrev pub bit_at : ℕ → ℕ → ℕ
bit_at x zero = x % 2
bit_at x (suc k) = bit_at (x / 2) k

-- The loop of `find_cmdslot`, with the rounds left.
unfoldable pub free_slot : ℕ → ℕ → ℕ → Option ℕ
free_slot zero i slots = none
free_slot (suc left) i slots =
    let rest = free_slot left (i + 1) (slots / 2) in if slots % 2 == 0 then some i else rest

-- `find_cmdslot`; `none` is its -1.
unfoldable pub find_cmdslot : Readings → Option ℕ
find_cmdslot r = free_slot 32 0 (bit_or r.sact r.busy_slots)
