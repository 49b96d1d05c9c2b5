-- ===== src/Ahci/Probe.antt =====
-- `probe_port`: which ports it reports, and of which type.
use os.Common.{
  ℕ, zero, suc, ◌+◌, ◌/◌, ◌%◌, ◌<◌, ◌≡◌, ◌≢◌, ◌↔◌, inl, inr, refl, Option, none, some, List, [],
  ◌∷◌, ◌==◌, if◌then◌else◌, ==_self, ==_of_ne, Bool-cases, arith,
}
use os.Ahci.{bit_at}
use os.Ahci.Port.{probe_ports, check_type, Probed, probe_port}
use os.Ahci.Layout.{Settles, wait_ends}

-- The first report on a port.
abbrev pub reported : ℕ → List (ℕ × ℕ) → Option ℕ
reported j [] = none
reported j ((i, kind) ∷ rest) = if i == j then some kind else reported j rest

module _ (ssts sig : ℕ → ℕ) where
  -- No port below the loop's index is reported.
  reported_before : (left i pi j : ℕ) → j < i → reported j (probe_ports left i pi ssts sig) ≡ none
  unfolding probe_ports
  reported_before zero i pi j h = refl
  reported_before (suc left) i pi j h = elim (Bool-cases (pi % 2 == 1)) [
    | inl e ↦
        rw (e, ==_of_ne i j (omega arith)) (reported_before left (i + 1) (pi / 2) j (omega arith))
    | inr e ↦ rw e (reported_before left (i + 1) (pi / 2) j (omega arith))
  ]

  -- Port `i + d`, for a `d` below the rounds left, is reported with its type if bit `d` is set.
  reported-probe_ports :
      (left i pi d : ℕ)
      → d < left
      → reported (i + d) (probe_ports left i pi ssts sig)
        ≡ (if bit_at pi d == 1 then some (check_type (ssts (i + d)) (sig (i + d))) else none)
  unfolding probe_ports
  reported-probe_ports zero i pi d h = absurd (omega arith)
  reported-probe_ports (suc left) i pi zero h =
      let z : i + 0 ≡ i = omega arith in
      rw z (elim (Bool-cases (pi % 2 == 1)) [
        | inl e ↦ rw (e, ==_self i) refl
        | inr e ↦ rw e (reported_before left (i + 1) (pi / 2) i (omega arith))
      ])
  reported-probe_ports (suc left) i pi (suc d) h =
      let s : i + suc d ≡ i + 1 + d = omega arith in
      let later = reported-probe_ports left (i + 1) (pi / 2) d (omega arith) in
      rw s (elim (Bool-cases (pi % 2 == 1)) [
        | inl e ↦ rw (e, ==_of_ne i (i + 1 + d) (omega arith)) later
        | inr e ↦ rw e later
      ])

-- Once the controller's reset ends, `probe_port` reports port `i` exactly when bit `i` of `pi` is
-- set, with the type that `check_type` gives for the port's own status and signature.
pub reported-probe_port :
    (fuel : ℕ) (cap ghc : ℕ → ℕ) (pi : ℕ) (ssts sig : ℕ → ℕ) (i : ℕ)
    → Settles fuel ghc 0
    → i < 32
    → (x : Probed) × (probe_port fuel cap ghc pi ssts sig ≡ some x)
      × (reported i x.found
          ≡ (if bit_at pi i == 1 then some (check_type (ssts i) (sig i)) else none))
unfolding probe_port
reported-probe_port fuel cap ghc pi ssts sig i settles h =
    let (a, ea) = wait_ends fuel ghc 0 2 settles in
    let z : 0 + i ≡ i = omega arith in
    rw ea (_, refl, rw z at (reported-probe_ports ssts sig 32 0 pi i h))

-- A port has a type other than 0 exactly when its status says that a device is there and active.
pub check_type-ne-zero :
    (ssts sig : ℕ) → (check_type ssts sig ≢ 0) ↔ ((ssts % 16 ≡ 3) × (ssts / 256 % 16 ≡ 1))
unfolding check_type
check_type-ne-zero ssts sig = ground arith
