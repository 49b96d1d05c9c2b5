-- ===== src/Pci/Address.antt =====
-- The address of a word of a function's configuration.
use Prim.Native.Nat.{bit_or}
use os.Common.{ℕ, ◌+◌, ◌-◌, ◌*◌, ◌%◌, ◌<◌, ◌≡◌, ◌∙◌, arith}
use os.Common.Bits.{bit_or_shifted, bit_or_comm}
use os.Pci.{config_address}

-- A multiple of 2 ^ 8, and one of 2 ^ 12, with a field below.
below_byte : (a b : ℕ) → b < 256 → bit_or (a * 256) b ≡ a * 256 + b
below_byte a b h = bit_or_shifted 8 a b h

-- The top bit on 31 bits.
top_bit : (a : ℕ) → a < 2147483648 → bit_or a 2147483648 ≡ 2147483648 + a
top_bit a h = bit_or_comm a 2147483648 ∙ bit_or_shifted 31 1 a h

-- With the fields in their widths the address is their sum.
pub config_address_lem :
    (bus slot func offset : ℕ)
    → bus < 256
    → slot < 32
    → func < 8
    → offset < 256
    → config_address bus slot func offset
      ≡ 2147483648 + bus * 65536 + slot * 2048 + func * 256 + (offset - offset % 4)
unfolding config_address
config_address_lem bus slot func offset hb hs hf ho =
    let e1 : (bus * 32 + slot) * 2048 ≡ bus * 65536 + slot * 2048 = omega arith in
    let e2 : ((bus * 32 + slot) * 8 + func) * 256 ≡ (bus * 32 + slot) * 2048 + func * 256 =
      omega arith in
    rw
      (
        bit_or_shifted 16 bus (slot * 2048) (omega arith),
        ← e1,
        bit_or_shifted 11 (bus * 32 + slot) (func * 256) (omega arith),
        ← e2,
        below_byte ((bus * 32 + slot) * 8 + func) (offset - offset % 4) (omega arith),
        top_bit (((bus * 32 + slot) * 8 + func) * 256 + (offset - offset % 4)) (omega arith),
      )
      (omega arith)

-- Function 8 of a slot with an even number is addressed as function 0 of the next slot: the walk,
-- which starts from function 8 in a device of several functions, reads its neighbour there.
pub config_address_eight :
    (bus half offset : ℕ)
    → bus < 256
    → half < 16
    → offset < 256
    → config_address bus (half * 2) 8 offset ≡ config_address bus (half * 2 + 1) 0 offset
unfolding config_address
config_address_eight bus half offset hb hs ho =
    let e1 : (bus * 16 + half) * 4096 ≡ bus * 65536 + half * 2 * 2048 = omega arith in
    let e2 : bus * 65536 + half * 2 * 2048 + 2048 ≡ (bus * 32 + half * 2 + 1) * 8 * 256 =
      omega arith in
    rw
      (
        config_address_lem bus (half * 2 + 1) 0 offset hb (omega arith) (omega arith) ho,
        bit_or_shifted 16 bus (half * 2 * 2048) (omega arith),
        ← e1,
        bit_or_shifted 12 (bus * 16 + half) 2048 (omega arith),
        e1,
        e2,
        below_byte ((bus * 32 + half * 2 + 1) * 8) (offset - offset % 4) (omega arith),
        top_bit ((bus * 32 + half * 2 + 1) * 8 * 256 + (offset - offset % 4)) (omega arith),
      )
      (omega arith)
