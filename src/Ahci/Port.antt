-- ===== src/Ahci/Port.antt =====
-- The set-up of the controller in sys/ahci.c: `port_rebase` with `stop_cmd` and `start_cmd`,
-- `check_type` and `probe_port`. The command register of a port is read again in each wait: its
-- successive values are a parameter, and each wait has fuel.
use os.Common.{
  ℕ, zero, suc, ◌+◌, ◌-◌, ◌*◌, ◌/◌, ◌%◌, ◌^◌, Option, none, some, List, [], ◌∷◌, ◌++◌, ◌==◌, not,
  if◌then◌else◌, ◌>>=◌,
}
use os.Common.Links.{update}
use os.Ahci.{CmdHeader, DmaMemory, bit_at}
use os.Ahci.Command.{clear_table}

-- `x & ~(1 << k)` and `x | (1 << k)`
abbrev pub clear_bit : ℕ → ℕ → ℕ
clear_bit x k = x - bit_at x k * 2 ^ k

abbrev pub set_bit : ℕ → ℕ → ℕ
set_bit x k = if bit_at x k == 0 then x + 2 ^ k else x

-- `while (port->cmd & (1 << k));` from the `n`-th reading on: the number of the next reading.
unfoldable pub wait_clear : ℕ → (ℕ → ℕ) → ℕ → ℕ → Option ℕ
wait_clear zero cmd k n = none
wait_clear (suc fuel) cmd k n =
    let rest = wait_clear fuel cmd k (n + 1) in if bit_at (cmd n) k == 0 then some (n + 1) else rest

-- The values that a function writes to the command register, and the number of the next reading.
abbrev pub Written : Type 0
Written = List ℕ × ℕ

unfoldable pub stop_cmd : ℕ → (ℕ → ℕ) → ℕ → Option Written
stop_cmd fuel cmd n = do
  a ← wait_clear fuel cmd 15 (n + 1)
  b ← wait_clear fuel cmd 14 (a + 1)
  some (clear_bit (cmd n) 0 ∷ clear_bit (cmd a) 4 ∷ [], b)

unfoldable pub start_cmd : ℕ → (ℕ → ℕ) → ℕ → Option Written
start_cmd fuel cmd n = do
  a ← wait_clear fuel cmd 15 n
  some (set_bit (cmd a) 4 ∷ set_bit (cmd (a + 1)) 0 ∷ [], a + 2)

-- The addresses of the command list, of the FIS area and of a slot's table.
abbrev pub ahci_base : ℕ
ahci_base = 0x800000

unfoldable pub list_address : ℕ → ℕ
list_address portno = (ahci_base + portno * 2 ^ 10) % 2 ^ 32

unfoldable pub fis_address : ℕ → ℕ
fis_address portno = (ahci_base + 32 * 2 ^ 10 + portno * 2 ^ 8) % 2 ^ 32

unfoldable pub table_address : ℕ → ℕ → ℕ
table_address portno i = (ahci_base + 40 * 2 ^ 10 + portno * 2 ^ 13 + i * 2 ^ 8) % 2 ^ 32

abbrev pub no_header : CmdHeader
no_header = record {
  cfl = 0;
  a = 0;
  w = 0;
  p = 0;
  r = 0;
  b = 0;
  c = 0;
  pmp = 0;
  prdtl = 0;
  prdbc = 0;
  ctba = 0;
}

-- `memset((void*)(port->clb), 0, 1024)`: the headers, with the rounds left.
unfoldable pub clear_headers : ℕ → ℕ → ℕ → (ℕ → CmdHeader) → ℕ → CmdHeader
clear_headers zero at i header = header
clear_headers (suc left) at i header =
    clear_headers left at (i + 1) (update header (at + i * 32) no_header)

-- The loop over the headers: each gets the length and the address of its table, and the `memset`
-- clears the table's 256 bytes.
unfoldable pub set_tables : ℕ → ℕ → ℕ → ℕ → DmaMemory → DmaMemory
set_tables zero portno at i m = m
set_tables (suc left) portno at i m =
    let slot = at + i * 32 in
    let table = table_address portno i in
    set_tables left portno at (i + 1) (record {
      header = update m.header slot (record (m.header slot) { prdtl = 8; ctba = table });
      table = update m.table table (clear_table 1 (m.table table));
    })

-- What `port_rebase` leaves: the registers `clb` and `fb`, the memory, and the values written to
-- the command register.
pub record Rebased : Type 0 where
  pub clb : ℕ
  pub fb : ℕ
  pub memory : DmaMemory
  pub commands : List ℕ

unfoldable pub port_rebase : ℕ → (ℕ → ℕ) → ℕ → DmaMemory → Option Rebased
port_rebase fuel cmd portno m = do
  (stopped, n) ← stop_cmd fuel cmd 0
  let at = list_address portno
  let cleared : DmaMemory = record m { header = clear_headers 32 at 0 m.header }
  (started, _) ← start_cmd fuel cmd n
  some (record {
    clb = at;
    fb = fis_address portno;
    memory = set_tables 32 portno at 0 cleared;
    commands = stopped ++ started;
  })

-- `check_type`, from the registers `ssts` and `sig`.
unfoldable pub check_type : ℕ → ℕ → ℕ
check_type ssts sig =
    let ipm = ssts / 2 ^ 8 % 16 in
    let det = ssts % 16 in
    if not (det == 3)
    then 0
    else (if not (ipm == 1)
        then 0
        else (if sig == 0xEB140101
            then 0xEB140101
            else (if sig == 0xC33C0101
                then 0xC33C0101
                else (if sig == 0x96690101 then 0x96690101 else 0x101))))

-- The loop of `probe_port` over the bits of `pi`: each port implemented and its type.
unfoldable pub probe_ports : ℕ → ℕ → ℕ → (ℕ → ℕ) → (ℕ → ℕ) → List (ℕ × ℕ)
probe_ports zero i pi ssts sig = []
probe_ports (suc left) i pi ssts sig =
    let rest = probe_ports left (i + 1) (pi / 2) ssts sig in
    if pi % 2 == 1 then (i, check_type (ssts i) (sig i)) ∷ rest else rest

-- What `probe_port` writes to `cap` and `ghc`, and the ports that it reports. The readings of
-- `ghc` and of `cap` are parameters.
pub record Probed : Type 0 where
  pub cap : List ℕ
  pub ghc : List ℕ
  pub found : List (ℕ × ℕ)

unfoldable pub probe_port : ℕ → (ℕ → ℕ) → (ℕ → ℕ) → ℕ → (ℕ → ℕ) → (ℕ → ℕ) → Option Probed
probe_port fuel cap ghc pi ssts sig = do
  _ ← wait_clear fuel ghc 0 2
  some (record {
    cap = clear_bit (cap 0) 26 ∷ clear_bit (cap 1) 14 ∷ [];
    ghc = set_bit (ghc 0) 31 ∷ set_bit (ghc 1) 0 ∷ [];
    found = probe_ports 32 0 pi ssts sig;
  })
