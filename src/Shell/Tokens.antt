-- ===== src/Shell/Tokens.antt =====
-- A token of the line, and what the parser of bin/sbush/sbush.c may change.
use os.Common.{
  ℕ, zero, suc, ◌+◌, ◌≤◌, ◌<◌, ◌≡◌, refl, arith, true, false, ◌||◌, some, [], ◌==◌, if◌then◌else◌,
  Bool-cases, inl, inr, ◌⊎◌,
}
use os.Common.Links.{update}
use os.Strings.{Memory}
use os.Shell.{skip_blanks, skip_word, is_end, cut, fetchtoken, add_entry, getexec_loop}

-- Up to a byte that is no blank.
pub skip_blanks-ends :
    (fuel : ℕ) (m : Memory) (q n : ℕ)
    → m n ≡ 0
    → q ≤ n
    → n < q + fuel
    → (r : ℕ) × (skip_blanks fuel m q ≡ some r) × (q ≤ r) × (r ≤ n)
unfolding skip_blanks
skip_blanks-ends zero m q n z h enough = absurd (omega arith)
skip_blanks-ends (suc fuel) m q n z h enough = elim (Bool-cases (m q == 32)) [
  | inl b ↦
      let below : q < n = ground (arith, b, z) in
      let (r, e, h1, h2) = skip_blanks-ends fuel m (suc q) n z (omega arith) (omega arith) in
      (r, rw b e, omega arith, h2)
  | inr b ↦ (q, rw b refl, omega arith, h)
]

skip_word-ends :
    (fuel : ℕ) (m : Memory) (q n : ℕ)
    → m n ≡ 0
    → q ≤ n
    → n < q + fuel
    → (r : ℕ) × (skip_word fuel m q ≡ some r) × (q ≤ r) × (r ≤ n)
unfolding skip_word
skip_word-ends zero m q n z h enough = absurd (omega arith)
skip_word-ends (suc fuel) m q n z h enough = elim (Bool-cases (is_end (m q) || m q == 32)) [
  | inl b ↦ (q, rw b refl, omega arith, h)
  | inr b ↦
      let below : q < n = ground (arith, b, z) in
      let (r, e, h1, h2) = skip_word-ends fuel m (suc q) n z (omega arith) (omega arith) in
      (r, rw b e, omega arith, h2)
]

-- From `ps` to `qs` the parser has gone forward, to the byte behind `n` at most, and has only put
-- null bytes on its way.
pub record Parsed (n : ℕ) (m : Memory) (ps : ℕ) (m' : Memory) (qs : ℕ) : Type 0 where
  pub forward : ps ≤ qs
  pub within : qs ≤ suc n
  pub nulls : (a : ℕ) → (m' a ≡ m a) ⊎ ((m' a ≡ 0) × (ps ≤ a) × (a ≤ n))

pub Parsed-trans :
    (n : ℕ) (m m' m'' : Memory) (ps qs rs : ℕ)
    → Parsed n m ps m' qs
    → Parsed n m' qs m'' rs
    → Parsed n m ps m'' rs
Parsed-trans n m m' m'' ps qs rs p q = record {
  forward = omega (arith, p.forward, q.forward);
  within = q.within;
  nulls = λ a. ground (arith, p.nulls a, q.nulls a, p.forward);
}

-- The two null bytes at the end of the line.
abbrev pub Ended : ℕ → Memory → Type 0
Ended n m = (m n ≡ 0) × (m (suc n) ≡ 0)

pub Parsed-Ended :
    (n : ℕ) (m m' : Memory) (ps qs : ℕ) → Parsed n m ps m' qs → Ended n m → Ended n m'
Parsed-Ended n m m' ps qs p e = (ground (arith, p.nulls n, e), ground (arith, p.nulls (suc n), e))

-- Null in place of a character of the line that is not null.
pub Parsed-update :
    (n : ℕ) (m : Memory) (ps c : ℕ)
    → Ended n m
    → ps ≤ suc n
    → m ps ≡ suc c
    → Parsed n m ps (update m ps 0) (suc ps)
Parsed-update n m ps c e h k =
    let below : ps < n = ground (arith, e, k) in
    record { forward = omega arith; within = omega arith; nulls = λ a. ground arith }

pub fetchtoken_at :
    (fuel : ℕ) (m : Memory) (ps q r : ℕ)
    → skip_blanks fuel m ps ≡ some q
    → skip_word fuel m q ≡ some r
    → fetchtoken fuel m ps ≡ some (cut m r)
unfolding fetchtoken
fetchtoken_at fuel m ps q r eq er = rw (fetchtoken, eq, er) refl

pub fetchtoken-Parsed :
    (fuel n : ℕ) (m : Memory) (ps : ℕ)
    → Ended n m
    → ps ≤ n
    → n < ps + fuel
    → (m' : Memory) × (qs : ℕ) × (fetchtoken fuel m ps ≡ some (m', qs))
      × Parsed n m ps m' qs
      × (ps < qs)
unfolding cut
fetchtoken-Parsed fuel n m ps e h enough =
    let (q, eq, q1, q2) = skip_blanks-ends fuel m ps n e.0 h enough in
    let (r, er, r1, r2) = skip_word-ends fuel m q n e.0 q2 (omega arith) in
    (
      if m r == 32 then update m r 0 else m,
      suc r,
      fetchtoken_at fuel m ps q r eq er,
      record { forward = omega arith; within = omega arith; nulls = λ a. ground arith },
      omega arith,
    )

pub getexec_loop_at :
    (fuel : ℕ) (m : Memory) (ps : ℕ) (m' : Memory) (qs : ℕ)
    → is_end (m ps) ≡ false
    → fetchtoken (suc fuel) m ps ≡ some (m', qs)
    → getexec_loop (suc fuel) m ps ≡ add_entry ps (getexec_loop fuel m' qs)
unfolding getexec_loop
getexec_loop_at fuel m ps m' qs b e = rw (getexec_loop, b, e) refl

pub getexec_loop_end :
    (fuel : ℕ) (m : Memory) (ps : ℕ)
    → is_end (m ps) ≡ true
    → getexec_loop (suc fuel) m ps ≡ some (m, ps, [])
unfolding getexec_loop
getexec_loop_end fuel m ps b = rw (getexec_loop, b) refl

pub Parsed-refl : (n : ℕ) (m : Memory) (ps : ℕ) → ps ≤ suc n → Parsed n m ps m ps
Parsed-refl n m ps h = record { forward = omega arith; within = h; nulls = λ a. inl refl }
