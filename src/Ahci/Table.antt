-- ===== src/Ahci/Table.antt =====
-- The command that `prepare_command` lays out: what its entries describe and what its FIS asks for.
use os.Common.{
  ℕ, zero, suc, ◌+◌, ◌-◌, ◌*◌, ◌/◌, ◌%◌, ◌^◌, ◌≤◌, ◌<◌, ◌≡◌, refl, sym, ◌∙◌, ap, arith, ==_self,
  ==_of_ne,
}
use mathlib.Core.Path.{subst}
use os.Common.Links.{update}
use os.Ahci.{PrdtEntry, CmdTable, CmdHeader, DmaMemory}
use os.Ahci.Command.{
  Direction, prepare_command, fill_table, table_length, fill_entries, last_entry, command_fis,
  clear_table,
}

-- The `n` entries from index `i` on describe the bytes from `a` up to `b`, end to end.
abbrev pub Covers : (ℕ → PrdtEntry) → ℕ → ℕ → ℕ → ℕ → Type 0
Covers e i zero a b = a ≡ b
Covers e i (suc n) a b = ((e i).dba ≡ a) × Covers e (i + 1) n (a + (e i).dbc + 1) b

-- A full entry: 16 sectors at `a`.
abbrev pub IsFull : PrdtEntry → ℕ → ℕ → Type 0
IsFull e intr a = (e.dba ≡ a) × (e.dbc ≡ 8191) × (e.i ≡ intr)

module _ (intr : ℕ) where
  -- The loop leaves the entries below its index alone.
  fill_before :
      (left i ptr count : ℕ) (e : ℕ → PrdtEntry) (j : ℕ)
      → j < i
      → (fill_entries intr left i ptr count e).0 j ≡ e j
  unfolding fill_entries
  fill_before zero i ptr count e j h = refl
  fill_before (suc left) i ptr count e j h =
      fill_before left (i + 1) _ _ _ j (omega arith) ∙ (rw (==_of_ne j i (omega arith)) refl)

  -- What the loop leaves in `ptr` and `count`.
  pub fill_rest :
      (left i ptr count : ℕ) (e : ℕ → PrdtEntry)
      → ptr + left * 8192 < 2 ^ 64
      → left * 16 ≤ count
      → count < 2 ^ 32
      → ((fill_entries intr left i ptr count e).1 ≡ ptr + left * 8192)
        × ((fill_entries intr left i ptr count e).2 ≡ count - left * 16)
  unfolding fill_entries
  fill_rest zero i ptr count e hp hc hw = omega arith
  fill_rest (suc left) i ptr count e hp hc hw = omega (
    arith,
    fill_rest left (i + 1) ((ptr + 16 * 512) % 2 ^ 64) ((count + 2 ^ 32 - 16) % 2 ^ 32)
        (update e i (record { dba = ptr; dbc = 16 * 512 - 1; i = intr })) (omega arith)
        (omega arith) (omega arith),
  )

  -- Each entry that the loop fills is full.
  pub fill_entry :
      (left i ptr count : ℕ) (e : ℕ → PrdtEntry) (k : ℕ)
      → ptr + left * 8192 < 2 ^ 64
      → k < left
      → IsFull ((fill_entries intr left i ptr count e).0 (i + k)) intr (ptr + k * 8192)
  unfolding fill_entries
  fill_entry zero i ptr count e k hp hk = absurd (omega arith)
  fill_entry (suc left) i ptr count e zero hp hk =
      let e0 : i + 0 ≡ i = omega arith in
      rw
        (
          e0,
          fill_before left (i + 1) ((ptr + 16 * 512) % 2 ^ 64) ((count + 2 ^ 32 - 16) % 2 ^ 32)
              (update e i (record { dba = ptr; dbc = 16 * 512 - 1; i = intr })) i (omega arith),
          ==_self i,
        )
        (omega arith, refl, refl)
  fill_entry (suc left) i ptr count e (suc k) hp hk =
      let s : i + suc k ≡ i + 1 + k = omega arith in
      let ih =
        fill_entry left (i + 1) ((ptr + 16 * 512) % 2 ^ 64) ((count + 2 ^ 32 - 16) % 2 ^ 32)
          (update e i (record { dba = ptr; dbc = 16 * 512 - 1; i = intr })) k (omega arith)
          (omega arith) in
      rw s (omega (arith, ih.0), ih.1, ih.2)

-- Full entries with one more behind them cover what they describe.
Covers-full :
    (e : ℕ → PrdtEntry) (intr n i a b : ℕ)
    → ((k : ℕ) → k < n → IsFull (e (i + k)) intr (a + k * 8192))
    → (e (i + n)).dba ≡ a + n * 8192
    → a + n * 8192 + (e (i + n)).dbc + 1 ≡ b
    → Covers e i (suc n) a b
Covers-full e intr zero i a b full last end =
    let s : i + 0 ≡ i = omega arith in
    (
      ap (λ x. (e x).dba) (sym s) ∙ last ∙ (omega arith),
      ap (λ x. a + (e x).dbc + 1) (sym s) ∙ (omega arith),
    )
Covers-full e intr (suc n) i a b full last end =
    let s : i + 0 ≡ i = omega arith in
    let z = full 0 (omega arith) in
    let shift = λ (k : ℕ). let t : i + 1 + k ≡ i + suc k = omega arith in t in
    let next : a + (e i).dbc + 1 ≡ a + 8192 = omega (arith, ap (λ x. (e x).dbc) (sym s), z.1) in
    (
      ap (λ x. (e x).dba) (sym s) ∙ z.0 ∙ (omega arith),
      rw next (
          Covers-full e intr n (i + 1) (a + 8192) b
            (λ k h.
              let f = full (suc k) (omega arith) in rw (shift k) (omega (arith, f.0), f.1, f.2))
            (rw (shift n) (omega (arith, last))) (rw (shift n) (omega (arith, end)))),
    )

-- The number of entries, for a transfer of at most 2 ^ 20 - 16 sectors.
table_length_small :
    (count : ℕ) → 0 < count → count ≤ 1048560 → table_length count ≡ (count - 1) / 16 + 1
unfolding table_length
table_length_small count pos small = omega arith

module _ (d : Direction) (startl starth count buf : ℕ) (t : CmdTable) (some_sectors : 0 < count)
    (few : count ≤ 1048560) (in_range : buf + count * 512 < 2 ^ 64) where
  -- The entries before the last.
  abbrev full : ℕ
  full = (count - 1) / 16

  abbrev filled : CmdTable
  filled = fill_table d (full + 1) startl starth count buf t

  -- Each entry before the last describes 16 sectors of the buffer.
  pub filled-IsFull : (k : ℕ) → k < full → IsFull (filled.prdt_entry k) d.intr (buf + k * 8192)
  unfolding fill_table
  filled-IsFull k h = rw (==_of_ne k (full + 1 - 1) (omega arith)) (
      let e : full + 1 - 1 ≡ full = omega arith in
      let z : 0 + k ≡ k = omega arith in
      rw e (
        rw z at (
          fill_entry d.intr full 0 buf count (clear_table (full + 1) t).prdt_entry k (omega arith)
            h)))

  -- The last one describes the sectors that are left.
  pub filled_last :
      ((filled.prdt_entry full).dba ≡ buf + full * 8192)
      × ((filled.prdt_entry full).dbc + 1 ≡ (count - full * 16) * 512)
      × ((filled.prdt_entry full).i ≡ 0)
      × (filled.cfis ≡ command_fis d.command startl starth (count - full * 16))
  unfolding fill_table last_entry
  filled_last =
      let e : full + 1 - 1 ≡ full = omega arith in
      let rest =
        fill_rest d.intr full 0 buf count (clear_table (full + 1) t).prdt_entry (omega arith)
          (omega arith) (omega arith) in
      rw (e, ==_self full, rest.0, rest.1) (refl, omega arith, refl, refl)

  -- They describe the buffer, end to end.
  pub filled-Covers : Covers filled.prdt_entry 0 (full + 1) buf (buf + count * 512)
  filled-Covers =
      let e : suc full ≡ full + 1 = omega arith in
      let z = λ (k : ℕ). let z' : 0 + k ≡ k = omega arith in z' in
      subst (λ n. Covers filled.prdt_entry 0 n buf (buf + count * 512)) e
        (Covers-full filled.prdt_entry d.intr full 0 buf (buf + count * 512)
          (λ k h. rw (z k) (filled-IsFull k h)) (rw (z full) filled_last.0)
          (rw (z full) (omega (arith, filled_last.1))))

module _ (d : Direction) (clb slot startl starth count buf : ℕ) (m : DmaMemory)
    (some_sectors : 0 < count) (few : count ≤ 1048560) (in_range : buf + count * 512 < 2 ^ 64) where
  abbrev after : DmaMemory
  after = prepare_command d clb slot startl starth count buf m

  abbrev header : CmdHeader
  header = after.header (clb + slot * 32)

  abbrev table : CmdTable
  table = after.table header.ctba

  -- The table that the header points to.
  table-filled :
      table
      ≡ fill_table d
          ((count - 1) / 16 + 1)
          startl
          starth
          count
          buf
          (m.table (m.header (clb + slot * 32)).ctba)
  unfolding prepare_command
  table-filled =
      rw
        (
          ==_self (clb + slot * 32),
          ==_self (m.header (clb + slot * 32)).ctba,
          table_length_small count some_sectors few,
        )
        refl

  header_length : header.prdtl ≡ (count - 1) / 16 + 1
  unfolding prepare_command
  header_length = rw (==_self (clb + slot * 32)) (table_length_small count some_sectors few)

  header_w : header.w ≡ d.w
  unfolding prepare_command
  header_w = rw (==_self (clb + slot * 32)) refl

  -- Of a transfer of 1 to 1048560 sectors, the entries that the header announces describe exactly
  -- the buffer, end to end and in order.
  pub prepare_command-Covers : Covers table.prdt_entry 0 header.prdtl buf (buf + count * 512)
  prepare_command-Covers =
      rw (table-filled, header_length)
        (filled-Covers d startl starth count buf (m.table (m.header (clb + slot * 32)).ctba)
          some_sectors few in_range)

  -- The FIS names the first sector by the low 48 bits of its number, and says as its count the
  -- sectors that the last entry describes: those of the full entries before it are left out.
  pub prepare_command_counts :
      (table.cfis.lba0
          + table.cfis.lba1 * 2 ^ 8
          + table.cfis.lba2 * 2 ^ 16
          + table.cfis.lba3 * 2 ^ 24
          + table.cfis.lba4 * 2 ^ 32
          + table.cfis.lba5 * 2 ^ 40
        ≡ startl % 2 ^ 32 + starth % 2 ^ 16 * 2 ^ 32)
      × (table.cfis.count + (header.prdtl - 1) * 16 ≡ count)
      × (table.cfis.command ≡ d.command)
      × (header.w ≡ d.w)
  unfolding command_fis
  prepare_command_counts =
      let last =
        filled_last d startl starth count buf (m.table (m.header (clb + slot * 32)).ctba)
          some_sectors few in_range in
      rw (table-filled, header_length, last.3) (omega arith, omega arith, refl, header_w)
