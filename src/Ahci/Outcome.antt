-- ===== src/Ahci/Outcome.antt =====
-- How a transfer ends: every way, with what the controller's registers showed.
use os.Common.{ℕ, ◌^◌, ◌<◌, ◌≡◌, ◌≢◌, none, some, [], ◌∷◌, true, false}
use os.Common.Int.{ℤ, pos, minus_one}
use os.Ahci.{DmaMemory, Readings, ci, bit_at}
use os.Ahci.Slots.{IsLeastFree}
use os.Ahci.Command.{TransferResult, is_busy, is_failed, clear_status}

-- The wait for the drive used up its `limit`, or the drive was ready at one of its readings.
abbrev pub IsHung : ℕ → Readings → Type 0
IsHung limit r = (n : ℕ) → n < limit → is_busy (r.tfd n) ≡ true

abbrev pub IsReady : ℕ → Readings → Type 0
IsReady limit r = (n : ℕ) × (n < limit) × (is_busy (r.tfd n) ≡ false)

-- Round `k` of the wait for the controller sees neither the end of the command nor an error.
abbrev pub IsPending : Readings → ℕ → ℕ → Type 0
IsPending r slot k = (bit_at (r.ci k) slot ≢ 0) × (is_failed (r.is_rwc k) ≡ false)

-- The wait for the controller: by an error, or by the command's end without one, on the first
-- round that shows either.
pub data Finished (r : Readings) (slot : ℕ) : ℤ → Type 0 where
  by_error :
      (k : ℕ)
      → ((j : ℕ) → j < k → IsPending r slot j)
      → is_failed (r.is_rwc k) ≡ true
      → Finished r slot (pos 0)
  by_end :
      (k : ℕ)
      → ((j : ℕ) → j < k → IsPending r slot j)
      → bit_at (r.ci k) slot ≡ 0
      → is_failed (r.is_rwc k) ≡ false
      → Finished r slot (pos 1)

-- How a transfer may end: `m` is the memory before it, and `prepared slot` the memory with the
-- command in that slot.
pub data Ended (limit : ℕ) (r : Readings) (m : DmaMemory) (prepared : ℕ → DmaMemory)
    : TransferResult → Type 0 where
  no_slot :
      IsLeastFree r none
      → Ended limit r m prepared
          (record { code = minus_one; memory = m; writes = clear_status ∷ [] })
  hung :
      (slot : ℕ)
      → IsLeastFree r (some slot)
      → IsHung limit r
      → Ended limit r m prepared
          (record { code = pos 0; memory = prepared slot; writes = clear_status ∷ [] })
  issued :
      (slot : ℕ) (result : ℤ)
      → IsLeastFree r (some slot)
      → IsReady limit r
      → Finished r slot result
      → Ended limit r m prepared (record {
        code = result;
        memory = prepared slot;
        writes = clear_status ∷ ci (2 ^ slot) ∷ [];
      })
