-- ===== src/Pci/Found.antt =====
-- The result of `pciWalk_bf`.
use os.Common.{ℕ, ◌%◌, ◌<◌, Option, none, some, [], ◌∷◌}
use os.Common.Int.{pos}
use os.Pci.{PciDevice, Config, Place, config_address, config_read, Walked, take_device, abar_base}
use os.Pci.Walk.{Offers}

-- How the search may end. The device that it takes gets its base register 5 set, in the place and
-- in the record, and its interrupt line is read.
pub data Found (config : Config) (d : PciDevice) : Walked → Type 0 where
  absent :
      ((b : ℕ) → b < 256 → (s : ℕ) → s < 32 → Offers config d b s none)
      → Found config d (record { result = pos 0; device = d; writes = [] })
  present :
      (b s k : ℕ)
      → b < 256
      → s < 32
      → Offers config d b s (some k)
      → ((i : ℕ) → i < b → (j : ℕ) → j < 32 → Offers config d i j none)
      → ((j : ℕ) → j < s → Offers config d b j none)
      → Found config d (record {
        result = pos 1;
        device = record d { bar5 = abar_base; interrupt = config_read config b s k 0x3C % 256 };
        writes = (config_address b s k 0x24, abar_base) ∷ [];
      })

walked : Config → PciDevice → Option Place → Walked
walked config d o = elim o [
  | some place ↦ take_device config d place
  | none ↦ record { result = pos 0; device = d; writes = [] }
]
