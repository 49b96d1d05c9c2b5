-- ===== src/Faults/Search.antt =====
-- The region that a page fault falls in, `handle_pg_fault` of sys/isr.c.
use os.Common.{
  ℕ, zero, suc, ◌-◌, ◌%◌, ◌<◌, ◌≡◌, refl, arith, false, ◌&&◌, some, List, [], ◌∷◌, ltb, leb, ◌==◌,
  if◌then◌else◌, length,
}
use os.Common.Links.{Chain}
use os.Elf.{Space}
use os.Paging.{Paging, kmmap}
use os.Faults.{find_region, on_missing, handle_pg_fault, kernbase, halts, goes_on}

-- The first of the regions that the address is in, or 0.
abbrev pub region_at : Space → ℕ → List ℕ → ℕ
region_at s addr [] = 0
region_at s addr (x ∷ xs) =
    if leb (s.vm_start x) addr && ltb addr (s.vm_end x) then x else region_at s addr xs

find_region-Chain :
    (xs : List ℕ) (fuel : ℕ) (s : Space) (addr p : ℕ)
    → Chain s.next p xs
    → length xs < fuel
    → find_region fuel s addr p ≡ some (region_at s addr xs)
unfolding find_region
find_region-Chain xs zero s addr p c h = absurd (omega arith)
find_region-Chain [] (suc fuel) s addr p c h = ground (arith, c)
find_region-Chain (x ∷ xs) (suc fuel) s addr p c h =
    let ih = find_region-Chain xs fuel s addr (s.next x) c.2 (omega arith) in
    rw c.0 (ground (arith, ih, c.1))

-- A fault of a user's access to a page that is not present ends the handler, with fuel for each
-- region: the process goes on with the pages of the first region that the address is in mapped; where
-- there is none, the panic halts the kernel.
pub handle_pg_fault-Chain :
    (xs : List ℕ) (fuel err addr : ℕ) (s : Space) (p : Paging)
    → Chain s.next s.vm xs
    → length xs < fuel
    → addr < kernbase
    → err % 2 ≡ 0
    → handle_pg_fault fuel err addr s p
      ≡ some (
          let x = region_at s addr xs in
          if x == 0 then halts else goes_on (kmmap (s.vm_start x) (s.vm_end x - s.vm_start x) 7 p))
unfolding handle_pg_fault on_missing
handle_pg_fault-Chain xs fuel err addr s p c h user missing =
    let user' : leb kernbase addr ≡ false = ground arith in
    let missing' : (err % 2 == 1) ≡ false = ground arith in
    rw (handle_pg_fault, user', missing', find_region-Chain xs fuel s addr s.vm c h) refl
