-- ===== src/Ahci/Slots.antt =====
-- `find_cmdslot`: the first command slot that is neither active nor issued.
use Prim.Native.Nat.{bit_or, max}
use os.Common.{
  ℕ, zero, suc, ◌+◌, ◌/◌, ◌%◌, ◌<◌, ◌≡◌, ◌≢◌, Option, none, some, inl, inr, ◌==◌, Bool-cases, arith,
}
use os.Common.Bits.{bit_or-halves}
use os.Ahci.{Readings, bit_at, free_slot, find_cmdslot}

bit_at-bit_or : (k a b : ℕ) → bit_at (bit_or a b) k ≡ max (bit_at a k) (bit_at b k)
bit_at-bit_or zero a b = omega (arith, bit_or-halves a b)
bit_at-bit_or (suc k) a b =
    let e : bit_or a b / 2 ≡ bit_or (a / 2) (b / 2) = omega (arith, bit_or-halves a b) in
    rw e (bit_at-bit_or k (a / 2) (b / 2))

-- What the loop finds among the bits of `slots`: the first that is 0.
abbrev pub Found : ℕ → ℕ → ℕ → Option ℕ → Type 0
Found left i slots none = (j : ℕ) → j < left → bit_at slots j ≢ 0
Found left i slots (some k) =
    (d : ℕ) × (k ≡ i + d)
    × (d < left)
    × (bit_at slots d ≡ 0)
    × ((j : ℕ) → j < d → bit_at slots j ≢ 0)

-- A first bit that is 1, before bits that are not 0.
nonzero_suc :
    (slots n : ℕ)
    → slots % 2 ≢ 0
    → ((j : ℕ) → j < n → bit_at (slots / 2) j ≢ 0)
    → (j : ℕ) → j < suc n
    → bit_at slots j ≢ 0
nonzero_suc slots n odd f zero h = odd
nonzero_suc slots n odd f (suc j) h = f j (omega arith)

-- It moves the search on.
Found-suc :
    (left i slots : ℕ) (o : Option ℕ)
    → slots % 2 ≢ 0
    → Found left (i + 1) (slots / 2) o
    → Found (suc left) i slots o
Found-suc left i slots none odd f = nonzero_suc slots left odd f
Found-suc left i slots (some k) odd (d, e, lt, free, least) =
    (suc d, omega arith, omega arith, free, nonzero_suc slots d odd least)

free_slot-Found : (left i slots : ℕ) → Found left i slots (free_slot left i slots)
unfolding free_slot
free_slot-Found zero i slots = λ j h. absurd (omega arith)
free_slot-Found (suc left) i slots = elim (Bool-cases (slots % 2 == 0)) [
  | inl e ↦ rw e (0, omega arith, omega arith, ground arith, λ j h. absurd (omega arith))
  | inr e ↦
      rw e (Found-suc left i slots _ (ground arith) (free_slot-Found left (i + 1) (slots / 2)))
]

-- A slot that the driver may use.
abbrev pub IsFree : Readings → ℕ → Type 0
IsFree r k = (bit_at r.sact k ≡ 0) × (bit_at r.busy_slots k ≡ 0)

abbrev pub IsLeastFree : Readings → Option ℕ → Type 0
IsLeastFree r none = (j : ℕ) → j < 32 → ¬ IsFree r j
IsLeastFree r (some k) = (k < 32) × IsFree r k × ((j : ℕ) → j < k → ¬ IsFree r j)

busy_of_IsFree : (r : Readings) (j : ℕ) → bit_at (bit_or r.sact r.busy_slots) j ≢ 0 → ¬ IsFree r j
busy_of_IsFree r j h f = h (omega (arith, bit_at-bit_or j r.sact r.busy_slots))

IsLeastFree-Found :
    (r : Readings) (o : Option ℕ) → Found 32 0 (bit_or r.sact r.busy_slots) o → IsLeastFree r o
IsLeastFree-Found r none f = λ j h. busy_of_IsFree r j (f j h)
IsLeastFree-Found r (some k) (d, e, lt, free, least) =
    let s : d ≡ k = omega arith in
    rw (← s) (
      lt,
      (
        omega (arith, bit_at-bit_or d r.sact r.busy_slots),
        omega (arith, bit_at-bit_or d r.sact r.busy_slots),
      ),
      λ j h. busy_of_IsFree r j (least j h),
    )

-- The search returns the least of the 32 slots whose bit is clear in both registers, and fails
-- only if there is none.
pub find_cmdslot-IsLeastFree : (r : Readings) → IsLeastFree r (find_cmdslot r)
unfolding find_cmdslot
find_cmdslot-IsLeastFree r = IsLeastFree-Found r _ (free_slot-Found 32 0 _)
