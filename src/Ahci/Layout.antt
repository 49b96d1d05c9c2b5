-- ===== src/Ahci/Layout.antt =====
-- The memory that `port_rebase` lays out for a port.
use os.Common.{
  ℕ, zero, suc, ◌+◌, ◌*◌, ◌≤◌, ◌<◌, ◌≡◌, ◌≢◌, ◌⊎◌, inl, inr, refl, some, ◌==◌, ==_self, ==_of_ne,
  Bool-cases, arith,
}
use native.Mathlib.Decide.{dec_lt}
use mathlib.Core.Path.{subst}
use os.Ahci.{CmdTable, DmaMemory, bit_at}
use os.Ahci.Command.{clear_table, no_fis, no_entry}
use os.Ahci.Port.{
  wait_clear, stop_cmd, start_cmd, list_address, fis_address, table_address, set_tables, Rebased,
  port_rebase,
}

-- A slot as `port_rebase` leaves it: its header points to its own table of 8 entries, all clear.
abbrev pub IsClear : CmdTable → Type 0
IsClear t = (t.cfis ≡ no_fis) × ((j : ℕ) → j < 8 → t.prdt_entry j ≡ no_entry)

abbrev pub IsLaid : ℕ → ℕ → DmaMemory → ℕ → Type 0
IsLaid portno at m i =
    ((m.header (at + i * 32)).prdtl ≡ 8)
    × ((m.header (at + i * 32)).ctba ≡ table_address portno i)
    × IsClear (m.table (table_address portno i))

clear_table-IsClear : (t : CmdTable) → IsClear (clear_table 1 t)
unfolding clear_table
clear_table-IsClear t = (refl, λ j h. ground arith)

pub table_address_lem :
    (p i : ℕ) → p < 32 → i < 32 → table_address p i ≡ 8429568 + p * 8192 + i * 256
unfolding table_address
table_address_lem p i hp hi = omega arith

-- The areas of 256 bytes at `a` and `b` do not meet.
abbrev pub IsApart : ℕ → ℕ → Type 0
IsApart a b = (a + 256 ≤ b) ⊎ (b + 256 ≤ a)

-- The tables of two slots, of one port or of two, do not meet.
pub table_address-IsApart :
    (p q i j : ℕ)
    → p < 32
    → q < 32
    → i < 32
    → j < 32
    → (p ≢ q) ⊎ (i ≢ j)
    → IsApart (table_address p i) (table_address q j)
table_address-IsApart p q i j hp hq hi hj ne =
    rw (table_address_lem p i hp hi, table_address_lem q j hq hj)
      (elim (dec_lt (p * 32 + i) (q * 32 + j)) [
        | yes h ↦ inl (omega arith)
        | no h ↦ inr (ground arith)
      ])

table_address_ne : (p i j : ℕ) → p < 32 → i < 32 → j < i → table_address p j ≢ table_address p i
table_address_ne p i j hp hi h e =
    absurd (omega (arith, table_address_lem p i hp hi, table_address_lem p j hp (omega arith), e))

module _ (portno at : ℕ) (valid : portno < 32) where
  -- The loop leaves the slots behind it as they are.
  set_tables_before :
      (left i : ℕ) (m : DmaMemory) (j : ℕ)
      → i + left ≤ 32
      → j < i
      → IsLaid portno at m j
      → IsLaid portno at (set_tables left portno at i m) j
  unfolding set_tables
  set_tables_before zero i m j fits h laid = laid
  set_tables_before (suc left) i m j fits h laid =
      set_tables_before left (i + 1) _ j (omega arith) (omega arith) (
        rw
          (
            ==_of_ne (at + j * 32) (at + i * 32) (omega arith),
            ==_of_ne (table_address portno j) (table_address portno i)
                (table_address_ne portno i j valid (omega arith) h),
          )
          laid)

  set_tables-IsLaid :
      (left i : ℕ) (m : DmaMemory) (j : ℕ)
      → i + left ≤ 32
      → i ≤ j
      → j < i + left
      → IsLaid portno at (set_tables left portno at i m) j
  unfolding set_tables
  set_tables-IsLaid zero i m j fits lo hi = absurd (omega arith)
  set_tables-IsLaid (suc left) i m j fits lo hi = elim (dec_lt i j) [
    | yes p ↦ set_tables-IsLaid left (i + 1) _ j (omega arith) (omega arith) (omega arith)
    | no p ↦
        (let same : i ≡ j = omega arith in
          subst (IsLaid portno at (set_tables (suc left) portno at i m)) same (
            set_tables_before left (i + 1) _ i (omega arith) (omega arith) (
              rw (==_self (at + i * 32), ==_self (table_address portno i))
                (refl, refl, clear_table-IsClear _))))
  ]

-- Each wait for a bit of the command register ends within the fuel.
abbrev pub Settles : ℕ → (ℕ → ℕ) → ℕ → Type 0
Settles fuel cmd k = (n : ℕ) → (d : ℕ) × (d < fuel) × (bit_at (cmd (n + d)) k ≡ 0)

wait_clear_total :
    (fuel : ℕ) (cmd : ℕ → ℕ) (k n d : ℕ)
    → d < fuel
    → bit_at (cmd (n + d)) k ≡ 0
    → (next : ℕ) × (wait_clear fuel cmd k n ≡ some next)
unfolding wait_clear
wait_clear_total zero cmd k n d h e = absurd (omega arith)
wait_clear_total (suc fuel) cmd k n zero h e =
    let z : n + 0 ≡ n = omega arith in (n + 1, rw (rw z at e) refl)
wait_clear_total (suc fuel) cmd k n (suc d) h e = elim (Bool-cases (bit_at (cmd n) k == 0)) [
  | inl now ↦ (n + 1, rw now refl)
  | inr later ↦
      (let s : n + suc d ≡ n + 1 + d = omega arith in
        rw later (wait_clear_total fuel cmd k (n + 1) d (omega arith) (rw s at e)))
]

pub wait_ends :
    (fuel : ℕ) (cmd : ℕ → ℕ) (k n : ℕ)
    → Settles fuel cmd k
    → (next : ℕ) × (wait_clear fuel cmd k n ≡ some next)
wait_ends fuel cmd k n settles = let (d, h, e) = settles n in wait_clear_total fuel cmd k n d h e

-- If the waits for the command register end, `port_rebase` of one of the 32 ports returns: the
-- port's registers hold the addresses of its command list and FIS area, and each of the 32 headers
-- of the list, such as header `i`, points to its own table of 8 entries, which is clear.
pub port_rebase-IsLaid :
    (fuel : ℕ) (cmd : ℕ → ℕ) (portno i : ℕ) (m : DmaMemory)
    → portno < 32
    → i < 32
    → Settles fuel cmd 15
    → Settles fuel cmd 14
    → (x : Rebased) × (port_rebase fuel cmd portno m ≡ some x)
      × (x.clb ≡ 8388608 + portno * 1024)
      × (x.fb ≡ 8421376 + portno * 256)
      × IsLaid portno x.clb x.memory i
unfolding port_rebase stop_cmd start_cmd list_address fis_address
port_rebase-IsLaid fuel cmd portno i m valid h idle stopped =
    let (a, ea) = wait_ends fuel cmd 15 1 idle in
    let (b, eb) = wait_ends fuel cmd 14 (a + 1) stopped in
    let (c, ec) = wait_ends fuel cmd 15 b idle in
    rw (ea, eb, ec)
      (
        _,
        refl,
        omega arith,
        omega arith,
        set_tables-IsLaid portno _ valid 32 0 _ i (omega arith) (omega arith) (omega arith),
      )
