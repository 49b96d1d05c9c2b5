-- ===== src/Shell/Ends.antt =====
-- The parser of bin/sbush/sbush.c comes to an end, and changes the line only.
use os.Common.{
  ℕ, zero, suc, ◌+◌, ◌≤◌, ◌<◌, ◌≡◌, refl, ap, ◌∙◌, arith, Bool, leb, length, ◌&&◌, true, false,
  some, List, [], ◌∷◌, ◌==◌, Bool-cases, inl, inr, ◌⊎◌,
}
use os.Common.Links.{update}
use os.Strings.{Memory, strlen, strlen_from}
use os.Shell.{
  Cmd, ecmd, overrun, pcmd, bcmd, with_entries, skip_blanks, is_end, add_entry, getexec_loop, join,
  getpipe, background, parsecmd,
}
use os.Shell.Tokens.{
  skip_blanks-ends, Parsed, Parsed-trans, Ended, Parsed-Ended, Parsed-update, fetchtoken-Parsed,
  getexec_loop_at, getexec_loop_end, Parsed-refl,
}

getexec_loop-Parsed :
    (fuel n : ℕ) (m : Memory) (ps : ℕ)
    → Ended n m
    → ps ≤ suc n
    → suc n < ps + fuel
    → (m' : Memory) × (qs : ℕ) × (argv : List ℕ) × (getexec_loop fuel m ps ≡ some (m', qs, argv))
      × Parsed n m ps m' qs
      × (is_end (m' qs) ≡ true)
getexec_loop-Parsed zero n m ps e h enough = absurd (omega arith)
getexec_loop-Parsed (suc fuel) n m ps e h enough = elim (Bool-cases (is_end (m ps))) [
  | inl b ↦ (m, ps, [], getexec_loop_end fuel m ps b, Parsed-refl n m ps h, b)
  | inr b ↦
      let below : ps ≤ n = ground (arith, b, e) in
      let (m1, qs, e1, p1, further) = fetchtoken-Parsed (suc fuel) n m ps e below (omega arith) in
      let (m2, rs, argv, e2, p2, b2) =
        getexec_loop-Parsed fuel n m1 qs (Parsed-Ended n m m1 ps qs p1 e) p1.within (omega arith) in
      (
        m2,
        rs,
        ps ∷ argv,
        getexec_loop_at fuel m ps m1 qs b e1 ∙ ap (add_entry ps) e2,
        Parsed-trans n m m1 m2 ps qs rs p1 p2,
        b2,
      )
]

pub getpipe_one :
    (fuel : ℕ) (m : Memory) (src ps : ℕ) (m1 : Memory) (src1 : ℕ) (argv : List ℕ)
    → skip_blanks (suc fuel) m src ≡ some ps
    → getexec_loop (suc fuel) m ps ≡ some (m1, src1, argv)
    → (m1 src1 == 124) ≡ false
    → getpipe (suc fuel) m src ≡ some (m1, src1, with_entries argv)
unfolding getpipe
getpipe_one fuel m src ps m1 src1 argv e1 e2 b = rw (getpipe, e1, e2, b) refl

getpipe_more :
    (fuel : ℕ) (m : Memory) (src ps : ℕ) (m1 : Memory) (src1 : ℕ) (argv : List ℕ)
    → skip_blanks (suc fuel) m src ≡ some ps
    → getexec_loop (suc fuel) m ps ≡ some (m1, src1, argv)
    → (m1 src1 == 124) ≡ true
    → getpipe (suc fuel) m src
      ≡ join (with_entries argv) (getpipe fuel (update m1 src1 0) (suc src1))
unfolding getpipe
getpipe_more fuel m src ps m1 src1 argv e1 e2 b = rw (getpipe, e1, e2, b) refl

-- Blanks that are passed over.
Parsed-skip :
    (n : ℕ) (m m' : Memory) (ps qs rs : ℕ) → ps ≤ qs → Parsed n m qs m' rs → Parsed n m ps m' rs
Parsed-skip n m m' ps qs rs h p = record {
  forward = omega (arith, p.forward);
  within = p.within;
  nulls = λ a. ground (arith, p.nulls a);
}

getpipe-Parsed :
    (fuel n : ℕ) (m : Memory) (src : ℕ)
    → Ended n m
    → src ≤ suc n
    → suc n < src + fuel
    → (m' : Memory) × (qs : ℕ) × (command : Cmd) × (getpipe fuel m src ≡ some (m', qs, command))
      × Parsed n m src m' qs
getpipe-Parsed zero n m src e h enough = absurd (omega arith)
getpipe-Parsed (suc fuel) n m src e h enough =
    let (ps, e0, h1, h2) = skip_blanks-ends (suc fuel) m src (suc n) e.1 h enough in
    let (m1, qs, argv, e1, p, b1) = getexec_loop-Parsed (suc fuel) n m ps e h2 (omega arith) in
    let p1 = Parsed-skip n m m1 src ps qs h1 p in
    elim (Bool-cases (m1 qs == 124)) [
      | inr b ↦ (m1, qs, with_entries argv, getpipe_one fuel m src ps m1 qs argv e0 e1 b, p1)
      | inl b ↦
          let ended1 = Parsed-Ended n m m1 src qs p1 e in
          let p2 = Parsed-update n m1 qs 123 ended1 p1.within (ground (arith, b)) in
          let m2 = update m1 qs 0 in
          let (m3, rs, right, e3, p3) =
            getpipe-Parsed fuel n m2 (suc qs) (Parsed-Ended n m1 m2 qs (suc qs) p2 ended1) p2.within
              (omega (arith, p1.forward)) in
          (
            m3,
            rs,
            pcmd (with_entries argv) right,
            getpipe_more fuel m src ps m1 qs argv e0 e1 b ∙ ap (join (with_entries argv)) e3,
            Parsed-trans n m m1 m3 src qs rs p1 (Parsed-trans n m1 m2 m3 qs (suc qs) rs p2 p3),
          )
    ]

pub parsecmd_at :
    (fuel : ℕ) (m : Memory) (buf len : ℕ) (r : Memory × ℕ × Cmd)
    → strlen fuel m buf ≡ some len
    → getpipe fuel m buf ≡ some r
    → parsecmd fuel m buf ≡ some (background r)
unfolding parsecmd
parsecmd_at fuel m buf len r e1 e2 = rw (parsecmd, e1, e2) refl

strlen_from-ends :
    (fuel : ℕ) (m : Memory) (p len n : ℕ)
    → m n ≡ 0
    → p ≤ n
    → n < p + fuel
    → (r : ℕ) × (strlen_from fuel m p len ≡ some r)
unfolding strlen_from
strlen_from-ends zero m p len n z h enough = absurd (omega arith)
strlen_from-ends (suc fuel) m p len n z h enough = elim (Bool-cases (m p == 0)) [
  | inl b ↦ (len, rw b refl)
  | inr b ↦
      let below : p < n = ground (arith, b, z) in
      let (r, e) = strlen_from-ends fuel m (suc p) (suc len) n z (omega arith) (omega arith) in
      (r, rw b e)
]

pub strlen-ends :
    (fuel : ℕ) (m : Memory) (p n : ℕ)
    → m n ≡ 0
    → p ≤ n
    → n < p + fuel
    → (r : ℕ) × (strlen fuel m p ≡ some r)
unfolding strlen
strlen-ends fuel m p n z h enough = strlen_from-ends fuel m p 0 n z h enough

-- No command has more words than `argv` has entries.
abbrev pub intact : Cmd → Bool
intact (ecmd argv) = leb (length argv) 10
intact overrun = false
intact (pcmd left right) = intact left && intact right
intact (bcmd command) = intact command

-- Where the line has two null bytes at its end and there is fuel for each of its bytes, `parsecmd`
-- ends. Either a command has more than ten words, and has been written past its `argv`, or `parsecmd`
-- comes to the second null byte at most, and the bytes that it changes are bytes of the line, which
-- become null.
pub parsecmd-ends :
    (fuel n : ℕ) (m : Memory) (buf : ℕ)
    → (m n ≡ 0) × (m (suc n) ≡ 0)
    → buf ≤ n
    → suc n < buf + fuel
    → (m' : Memory) × (src : ℕ) × (command : Cmd) × (parsecmd fuel m buf ≡ some (m', src, command))
      × ((intact command ≡ false)
          ⊎ ((src ≤ suc n) × ((a : ℕ) → (m' a ≡ m a) ⊎ ((m' a ≡ 0) × (buf ≤ a) × (a ≤ n)))))
unfolding background
parsecmd-ends fuel n m buf e h enough =
    let (len, e0) = strlen-ends fuel m buf n e.0 h (omega arith) in
    let (m1, qs, command, e1, p) = getpipe-Parsed fuel n m buf e (omega arith) enough in
    let eq = parsecmd_at fuel m buf len (m1, qs, command) e0 e1 in
    elim (Bool-cases (m1 qs == 38)) [
      | inr b ↦ (m1, qs, command, eq ∙ rw (background, b) refl, inr (p.within, p.nulls))
      | inl b ↦
          let p1 =
            Parsed-update n m1 qs 37 (Parsed-Ended n m m1 buf qs p e) p.within
              (ground (arith, b)) in
          let all = Parsed-trans n m m1 (update m1 qs 0) buf qs (suc qs) p p1 in
          (
            update m1 qs 0,
            qs,
            bcmd command,
            eq ∙ rw (background, b) refl,
            inr (p.within, all.nulls),
          )
    ]
