-- ===== src/Pci/Walk.antt =====
-- What `pciWalk_bf` finds at the places that it reads.
use os.Common.{
  ℕ, zero, suc, ◌+◌, ◌%◌, ◌^◌, ◌≤◌, ◌<◌, ◌≡◌, refl, Option, none, some, true, false, inl, inr,
  Bool-cases, Option-cases, below_suc, ◌==◌, ◌⊎◌, arith,
}
use native.Mathlib.Decide.{dec_lt}
use mathlib.Core.Path.{subst}
use os.Pci.{
  PciDevice, Config, config_read, is_wanted, find_function, first_function, check_model, try_slot,
  Place, walk_slots, walk_buses,
}

module _ (config : Config) (d : PciDevice) where
  -- No function of a slot below `left` is wanted, or the one found is the highest that is.
  abbrev IsHighest : ℕ → ℕ → ℕ → Option ℕ → Type 0
  IsHighest left bus slot none = (k : ℕ) → k < left → is_wanted config d bus slot k ≡ false
  IsHighest left bus slot (some k) =
      (k < left)
      × (is_wanted config d bus slot k ≡ true)
      × ((j : ℕ) → k < j → j < left → is_wanted config d bus slot j ≡ false)

  IsHighest-suc :
      (left bus slot : ℕ) (o : Option ℕ)
      → is_wanted config d bus slot left ≡ false
      → IsHighest left bus slot o
      → IsHighest (suc left) bus slot o
  IsHighest-suc left bus slot none no_match h =
      λ k lt. below_suc (λ k. is_wanted config d bus slot k ≡ false) left h no_match k (omega arith)
  IsHighest-suc left bus slot (some k) no_match (lt, wanted, higher) = (
    omega arith,
    wanted,
    λ j above below. elim (dec_lt j left) [
      | yes p ↦ higher j above p
      | no p ↦ (let same : left ≡ j = omega arith in rw (← same) no_match)
    ],
  )

  find_function-IsHighest :
      (left bus slot : ℕ) → IsHighest left bus slot (find_function left config d bus slot)
  unfolding find_function
  find_function-IsHighest zero bus slot = λ k h. absurd (omega arith)
  find_function-IsHighest (suc left) bus slot =
      elim (Bool-cases (is_wanted config d bus slot left)) [
        | inl e ↦ rw e (omega arith, e, λ j above below. absurd (omega arith))
        | inr e ↦ rw e (IsHighest-suc left bus slot _ e (find_function-IsHighest left bus slot))
      ]

  -- What a slot offers to the search: nothing, since it is empty or none of the places read for its
  -- functions, 0 and 1 or 0 to 8, shows the class wanted, or the highest of these that does.
  abbrev pub Offers : ℕ → ℕ → Option ℕ → Type 0
  Offers bus slot none =
      (config_read config bus slot 0 0 % 2 ^ 16 ≡ 65535)
      ⊎ ((k : ℕ) → k ≤ first_function config bus slot → is_wanted config d bus slot k ≡ false)
  Offers bus slot (some k) =
      (k ≤ first_function config bus slot)
      × (is_wanted config d bus slot k ≡ true)
      × ((j : ℕ)
          → k < j
          → j ≤ first_function config bus slot
          → is_wanted config d bus slot j ≡ false)

  Offers-IsHighest :
      (bus slot : ℕ) (o : Option ℕ)
      → IsHighest (first_function config bus slot + 1) bus slot o
      → Offers bus slot o
  Offers-IsHighest bus slot none h = inr (λ k le. h k (omega arith))
  Offers-IsHighest bus slot (some k) (lt, wanted, higher) =
      (omega arith, wanted, λ j above le. higher j above (omega arith))

  try_slot-Offers : (bus slot : ℕ) → Offers bus slot (try_slot config d bus slot)
  unfolding try_slot check_model
  try_slot-Offers bus slot =
      elim (Bool-cases (config_read config bus slot 0 0 % 2 ^ 16 == 0xFFFF)) [
        | inl e ↦ rw e (inl (ground arith))
        | inr e ↦ rw e (
            Offers-IsHighest bus slot _
              (find_function-IsHighest (first_function config bus slot + 1) bus slot))
      ]

  -- Of `left` slots from `slot` on, none offers anything, or the place is in the first that does.
  abbrev IsFirstSlot : ℕ → ℕ → ℕ → Option Place → Type 0
  IsFirstSlot left bus slot none = (j : ℕ) → j < left → Offers bus (slot + j) none
  IsFirstSlot left bus slot (some (b, s, k)) =
      (e : ℕ) × (b ≡ bus)
      × (s ≡ slot + e)
      × (e < left)
      × Offers b s (some k)
      × ((j : ℕ) → j < e → Offers bus (slot + j) none)

  -- One slot more in front.
  in_front :
      (P : ℕ → Type 0) (a n : ℕ)
      → P a
      → ((j : ℕ) → j < n → P (a + 1 + j))
      → (j : ℕ) → j < suc n
      → P (a + j)
  in_front P a n first rest zero h = let z : a ≡ a + 0 = omega arith in subst P z first
  in_front P a n first rest (suc j) h =
      let s : a + 1 + j ≡ a + suc j = omega arith in subst P s (rest j (omega arith))

  IsFirstSlot-suc :
      (left bus slot : ℕ) (o : Option Place)
      → Offers bus slot none
      → IsFirstSlot left bus (slot + 1) o
      → IsFirstSlot (suc left) bus slot o
  IsFirstSlot-suc left bus slot none offers_none h =
      in_front (λ s. Offers bus s none) slot left offers_none h
  IsFirstSlot-suc left bus slot (some (b, s, k)) offers_none (e, eb, es, lt, offer, before) = (
    suc e,
    eb,
    omega arith,
    omega arith,
    offer,
    in_front (λ s. Offers bus s none) slot e offers_none before,
  )

  walk_slots-IsFirstSlot :
      (left bus slot : ℕ) → IsFirstSlot left bus slot (walk_slots left config d bus slot)
  unfolding walk_slots
  walk_slots-IsFirstSlot zero bus slot = λ j h. absurd (omega arith)
  walk_slots-IsFirstSlot (suc left) bus slot = elim (Option-cases (try_slot config d bus slot)) [
    | inl e ↦
        rw (e, walk_slots)
          (IsFirstSlot-suc left bus slot _ (rw e at (try_slot-Offers bus slot))
            (walk_slots-IsFirstSlot left bus (slot + 1)))
    | inr (k, e) ↦
        rw (e, walk_slots)
          (
            0,
            refl,
            omega arith,
            omega arith,
            rw e at (try_slot-Offers bus slot),
            λ j h. absurd (omega arith),
          )
  ]

  -- The same of `left` buses from `bus` on.
  abbrev pub IsFirstBus : ℕ → ℕ → Option Place → Type 0
  IsFirstBus left bus none = (i : ℕ) → i < left → (j : ℕ) → j < 32 → Offers (bus + i) j none
  IsFirstBus left bus (some (b, s, k)) =
      (e : ℕ) × (b ≡ bus + e)
      × (e < left)
      × (s < 32)
      × Offers b s (some k)
      × ((i : ℕ) → i < e → (j : ℕ) → j < 32 → Offers (bus + i) j none)
      × ((j : ℕ) → j < s → Offers b j none)

  from_zero :
      (bus e : ℕ)
      → ((j : ℕ) → j < e → Offers bus (0 + j) none)
      → (j : ℕ) → j < e
      → Offers bus j none
  from_zero bus e h j lt =
      let z : 0 + j ≡ j = omega arith in subst (λ s. Offers bus s none) z (h j lt)

  IsFirstBus-suc :
      (left bus : ℕ) (o : Option Place)
      → ((j : ℕ) → j < 32 → Offers bus j none)
      → IsFirstBus left (bus + 1) o
      → IsFirstBus (suc left) bus o
  IsFirstBus-suc left bus none all_none h =
      in_front (λ b. (j : ℕ) → j < 32 → Offers b j none) bus left all_none h
  IsFirstBus-suc left bus (some (b, s, k)) all_none (e, eb, lt, ls, offer, buses, slots) = (
    suc e,
    omega arith,
    omega arith,
    ls,
    offer,
    in_front (λ b. (j : ℕ) → j < 32 → Offers b j none) bus e all_none buses,
    slots,
  )

  -- A bus whose slots are searched decides, or leaves it to the next.
  IsFirstBus-slots :
      (left bus : ℕ) (o : Option Place) (rest : Option Place)
      → IsFirstSlot 32 bus 0 o
      → IsFirstBus left (bus + 1) rest
      → IsFirstBus (suc left) bus (elim o [ some place ↦ some place | none ↦ rest ])
  IsFirstBus-slots left bus none rest h later =
      IsFirstBus-suc left bus rest (from_zero bus 32 h) later
  IsFirstBus-slots left bus (some (b, s, k)) rest (e, eb, es, lt, offer, before) later =
      let same : e ≡ s = omega arith in
      (
        0,
        omega arith,
        omega arith,
        omega arith,
        offer,
        λ i h. absurd (omega arith),
        rw eb (rw same at (from_zero bus e before)),
      )

  pub walk_buses-IsFirstBus : (left bus : ℕ) → IsFirstBus left bus (walk_buses left config d bus)
  unfolding walk_buses
  walk_buses-IsFirstBus zero bus = λ i h. absurd (omega arith)
  walk_buses-IsFirstBus (suc left) bus =
      IsFirstBus-slots left bus (walk_slots 32 config d bus 0) (walk_buses left config d (bus + 1))
        (walk_slots-IsFirstSlot 32 bus 0) (walk_buses-IsFirstBus left (bus + 1))
