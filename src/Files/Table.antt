-- ===== src/Files/Table.antt =====
-- What the system calls do with the table of descriptors.
use os.Common.{
  ℕ, zero, suc, ◌<◌, ◌≡◌, refl, ◌≢◌, ◌∙◌, arith, Bool, true, false, some, List, leb, ◌==◌,
  if◌then◌else◌,
}
use mathlib.Core.Path.{subst}
use os.Common.Int.{ℤ, pos, negsuc, is_negative}
use os.Common.Links.{update}
use os.Pool.{get_free_fd}
use os.Pool.Vmas.{Found, get_free_fd-Found}
use os.Files.{Table, cut_last, put_open, open_at, sys_open, sys_close, read_until, sys_read}

module _ {S : Type 0} (tfs_open : List ℕ → S → ℕ × S) where
  open_at-free :
      (name : List ℕ) (fdarr : Table) (s : S) (fd : ℕ)
      → get_free_fd fdarr ≡ pos fd
      → (tfs_open (cut_last name) s).0 ≢ 0
      → sys_open tfs_open (some name) fdarr s
        ≡ (pos fd, update fdarr fd (tfs_open (cut_last name) s).0, (tfs_open (cut_last name) s).1)
  unfolding sys_open open_at put_open
  open_at-free name fdarr s fd e opened =
      let nz : ((tfs_open (cut_last name) s).0 == 0) ≡ false = ground (arith, opened) in
      rw (e, nz) refl

  -- Where a descriptor is free and the file opens, the call returns the least free descriptor and puts
  -- the file there; closing that descriptor then closes that file, returns its result, and leaves the
  -- table as it was before.
  pub sys_close-sys_open :
      (close : ℕ → S → ℤ × S) (name : List ℕ) (fdarr : Table) (s : S) (fd : ℕ)
      → get_free_fd fdarr ≡ pos fd
      → (tfs_open (cut_last name) s).0 ≢ 0
      → let (r, table, s1) = sys_open tfs_open (some name) fdarr s in
        let (ret, table2, s2) = sys_close close fd table s1 in
        (r ≡ pos fd)
        × (fd < 50)
        × (fdarr fd ≡ 0)
        × ((i : ℕ) → i < fd → fdarr i ≢ 0)
        × (ret ≡ (close (tfs_open (cut_last name) s).0 s1).0)
        × ((q : ℕ) → table2 q ≡ fdarr q)
  unfolding sys_close
  sys_close-sys_open close name fdarr s fd e opened =
      let found : Found fdarr 0 50 (pos fd) =
        subst (Found fdarr 0 50) e (get_free_fd-Found fdarr) in
      let nz : ((tfs_open (cut_last name) s).0 == 0) ≡ false = ground (arith, opened) in
      let self : (fd == fd) ≡ true = ground arith in
      rw (open_at-free name fdarr s fd e opened, self, nz)
        (
          refl,
          found.1,
          found.2,
          λ i h. found.3 i (omega arith) h,
          refl,
          λ q. ground (arith, found.2),
        )

module _ {S : Type 0} (read : S → ℤ × S) (halt : S → S) where
  -- The system after a number of attempts, each followed by a halt.
  abbrev pub attempts : ℕ → S → S
  attempts zero s = s
  attempts (suc k) s = attempts k (halt (read s).1)

  -- Do the first attempts all fail?
  abbrev pub fails : ℕ → S → Bool
  fails zero s = true
  fails (suc k) s = if is_negative (read s).0 then fails k (halt (read s).1) else false

  read_until_done :
      (fuel n : ℕ) (s : S)
      → (read s).0 ≡ pos n
      → read_until (suc fuel) read halt s ≡ some (pos n, (read s).1)
  unfolding read_until
  read_until_done fuel n s e = rw (read_until, e) refl

  read_until_wait :
      (fuel : ℕ) (s : S) (z : ℤ)
      → (read s).0 ≡ z
      → is_negative z ≡ true
      → read_until (suc fuel) read halt s ≡ read_until fuel read halt (halt (read s).1)
  unfolding read_until
  read_until_wait fuel s (pos n) e h = absurd (ground (arith, h))
  read_until_wait fuel s (negsuc n) e h = rw (read_until, e) refl

  read_until-attempts :
      (k fuel n : ℕ) (s : S)
      → fails k s ≡ true
      → (read (attempts k s)).0 ≡ pos n
      → k < fuel
      → read_until fuel read halt s ≡ some (pos n, (read (attempts k s)).1)
  read_until-attempts k zero n s f e enough = absurd (omega arith)
  read_until-attempts zero (suc fuel) n s f e enough = read_until_done fuel n s e
  read_until-attempts (suc k) (suc fuel) n s f e enough =
      let waits : is_negative (read s).0 ≡ true = ground (arith, f) in
      read_until_wait fuel s (read s).0 refl waits
      ∙ read_until-attempts k fuel n (halt (read s).1)
          (subst (λ b. (if b then fails k (halt (read s).1) else false) ≡ true) waits f) e
          (omega arith)

-- A read through an open descriptor, with a buffer, of some bytes waits through every attempt that
-- fails: with fuel for each, it ends with the first result that is not negative.
pub sys_read-attempts :
    {S : Type 0} (read : ℕ → ℕ → S → ℤ × S) (halt : S → S) (k fuel fd count n : ℕ) (fdarr : Table)
    (s : S)
    → fd < 50
    → count ≢ 0
    → fdarr fd ≢ 0
    → fails (read (fdarr fd) count) halt k s ≡ true
    → (read (fdarr fd) count (attempts (read (fdarr fd) count) halt k s)).0 ≡ pos n
    → k < fuel
    → sys_read fuel read halt fd true count fdarr s
      ≡ some (pos n, (read (fdarr fd) count (attempts (read (fdarr fd) count) halt k s)).1)
unfolding sys_read
sys_read-attempts read halt k fuel fd count n fdarr s small nz live f e enough =
    let a : leb 50 fd ≡ false = ground arith in
    let b : (count == 0) ≡ false = ground arith in
    let c : (fdarr fd == 0) ≡ false = ground (arith, live) in
    rw (a, b, c) (read_until-attempts (read (fdarr fd) count) halt k fuel n s f e enough)
