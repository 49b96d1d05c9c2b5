-- ===== src/Pci.antt =====
-- The search of the PCI bus in sys/pci.c, for the disk controller. What the bus answers to an
-- address is a parameter; the writes of a function's configuration are part of the result.
use Prim.Native.Nat.{bit_or}
use os.Common.{
  ℕ, zero, suc, ◌+◌, ◌-◌, ◌*◌, ◌/◌, ◌%◌, ◌^◌, ◌≡◌, Option, none, some, List, [], ◌∷◌, Bool, true,
  false, ◌==◌, ◌&&◌, not, if◌then◌else◌,
}
use os.Common.Int.{ℤ, pos}
pub mod Address
pub mod Walk
pub mod Found

-- `pci_device_t`
pub record PciDevice : Type 0 where
  pub vendor : ℕ
  pub device : ℕ
  pub type : ℕ
  pub subtype : ℕ
  pub prog : ℕ
  pub header : ℕ
  pub bar5 : ℕ
  pub interrupt : ℕ

abbrev pub abar_base : ℕ
abar_base = 0x30000000

-- The value of port 0xCF8 for a function's configuration.
unfoldable pub config_address : ℕ → ℕ → ℕ → ℕ → ℕ
config_address bus slot func offset =
    bit_or
      (bit_or (bit_or (bit_or (bus * 2 ^ 16) (slot * 2 ^ 11)) (func * 2 ^ 8)) (offset - offset % 4))
      0x80000000

-- What the bus reads at port 0xCFC, by the value of port 0xCF8.
abbrev pub Config : Type 0
Config = ℕ → ℕ

unfoldable pub config_read : Config → ℕ → ℕ → ℕ → ℕ → ℕ
config_read config bus slot func offset = config (config_address bus slot func offset)

-- A write: the values of ports 0xCF8 and 0xCFC.
unfoldable pub config_write : ℕ → ℕ → ℕ → ℕ → ℕ → ℕ × ℕ
config_write bus slot func offset word = (config_address bus slot func offset, word)

-- `pciCheckModel`, which does not use its `model`.
unfoldable pub check_model : Config → ℕ → ℕ → ℕ → Bool
check_model config bus slot model = not (config_read config bus slot 0 0 % 2 ^ 16 == 0xFFFF)

-- `class|subclass|prog`
unfoldable pub class_code : PciDevice → ℕ
class_code d = bit_or (bit_or (d.type * 2 ^ 24) (d.subtype * 2 ^ 16)) (d.prog * 2 ^ 8)

-- The test of a function in the inner loop.
unfoldable pub is_wanted : Config → PciDevice → ℕ → ℕ → ℕ → Bool
is_wanted config d bus slot k =
    not (config_read config bus slot k 0 == 0xFFFFFFFF)
    && (let class = config_read config bus slot k 8 in class - class % 256 == class_code d)

-- The inner loop: the functions from `left - 1` down to 0.
unfoldable pub find_function : ℕ → Config → PciDevice → ℕ → ℕ → Option ℕ
find_function zero config d bus slot = none
find_function (suc k) config d bus slot =
    let rest = find_function k config d bus slot in
    if is_wanted config d bus slot k then some k else rest

-- The function that the loop starts from: 8 for a device of several functions, 1 for another.
unfoldable pub first_function : Config → ℕ → ℕ → ℕ
first_function config bus slot =
    if config_read config bus slot 0 0xC / 2 ^ 23 % 2 == 1 then 8 else 1

-- A slot in the loops over the bus.
unfoldable pub try_slot : Config → PciDevice → ℕ → ℕ → Option ℕ
try_slot config d bus slot =
    if check_model config bus slot (bit_or (d.device * 2 ^ 16) d.vendor)
    then find_function (first_function config bus slot + 1) config d bus slot
    else none

-- A bus, a slot and a function.
abbrev pub Place : Type 0
Place = ℕ × ℕ × ℕ

-- The loop over the slots of a bus, and the one over the buses, with their rounds left.
unfoldable pub walk_slots : ℕ → Config → PciDevice → ℕ → ℕ → Option Place
walk_slots zero config d bus slot = none
walk_slots (suc left) config d bus slot = elim (try_slot config d bus slot) [
  | some k ↦ some (bus, slot, k)
  | none ↦ walk_slots left config d bus (slot + 1)
]

unfoldable pub walk_buses : ℕ → Config → PciDevice → ℕ → Option Place
walk_buses zero config d bus = none
walk_buses (suc left) config d bus = elim (walk_slots 32 config d bus 0) [
  | some place ↦ some place
  | none ↦ walk_buses left config d (bus + 1)
]

-- What the search leaves: its result, the device and the writes.
pub record Walked : Type 0 where
  pub result : ℤ
  pub device : PciDevice
  pub writes : List (ℕ × ℕ)

unfoldable pub take_device : Config → PciDevice → Place → Walked
take_device config d (bus, slot, k) = record {
  result = pos 1;
  device = record d { bar5 = abar_base; interrupt = config_read config bus slot k 0x3C % 256 };
  writes = config_write bus slot k 0x24 abar_base ∷ [];
}

unfoldable pub pci_walk_bf : Config → PciDevice → Walked
pci_walk_bf config d = elim (walk_buses 256 config d 0) [
  | some place ↦ take_device config d place
  | none ↦ record { result = pos 0; device = d; writes = [] }
]
