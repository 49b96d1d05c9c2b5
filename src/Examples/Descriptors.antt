-- ===== src/Examples/Descriptors.antt =====
-- Descriptors over a system that is one number.
use os.Common.{
  ◌≢◌, ℕ, suc, ◌+◌, ◌<◌, ◌≡◌, refl, arith, true, some, List, [], ◌∷◌, ltb, if◌then◌else◌,
}
use os.Common.Int.{ℤ, pos, minus_one}
use os.Pool.{free_fd_from, get_free_fd}
use os.Files.{Table, sys_open, sys_close, sys_read}
use os.Files.Table.{sys_close-sys_open, sys_read-attempts}

-- The descriptors 0 to 2 are in use.
abbrev table : Table
table n = if ltb n 3 then 1 else 0

-- Every file is at 700; closing one succeeds.
abbrev open_any : List ℕ → ℕ → ℕ × ℕ
open_any name s = (700, s + 1)

abbrev close_any : ℕ → ℕ → ℤ × ℕ
close_any filep s = (pos 0, s + 1)

sys_close-sys_open_example :
    let (r, table1, s1) = sys_open open_any (some (b'a' ∷ b'\n' ∷ [])) table 5 in
    let (ret, table2, s2) = sys_close close_any 3 table1 s1 in
    (r ≡ pos 3)
    × (3 < 50)
    × (table 3 ≡ 0)
    × ((i : ℕ) → i < 3 → table i ≢ 0)
    × (ret ≡ pos 0)
    × ((q : ℕ) → table2 q ≡ table q)
unfolding get_free_fd free_fd_from
sys_close-sys_open_example =
    sys_close-sys_open open_any close_any (b'a' ∷ b'\n' ∷ []) table 5 3 refl (omega arith)

-- Nothing can be read before time 8; each interrupt is one unit of time.
abbrev read_at : ℕ → ℕ → ℕ → ℤ × ℕ
read_at filep count s = if ltb s 8 then (minus_one, s) else (pos count, s)

sys_read-attempts_example : sys_read 4 read_at suc 0 true 10 table 5 ≡ some (pos 10, 8)
sys_read-attempts_example =
    sys_read-attempts read_at suc 3 4 0 10 10 table 5 (omega arith) (omega arith) (omega arith) refl
      refl (omega arith)
