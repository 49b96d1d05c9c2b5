-- ===== src/Terminal/Read.antt =====
-- `term_read` of sys/kprintf.c: what a reader is given, and what stays in the buffer.
use os.Common.{
  true, ℕ, zero, suc, ◌+◌, ◌≤◌, ◌≡◌, refl, ◌≢◌, ◌∙◌, ap, arith, false, List, [], ◌∷◌, ◌++◌, ◌==◌,
  if◌then◌else◌, length, drop, Bool-cases, inl, inr,
}
use os.Common.Int.{ℤ, pos, minus_one}
use os.Terminal.{Terminal, term_pop, term_read, read_loop, read_round, is_delim}
use os.Terminal.Ring.{popped, term_pop_empty}
use os.Terminal.Line.{Body, Holds, used-Body, term_pop-Body, delims, delims-append}

-- The bytes up to and including the first delimiter, but at most `n`.
abbrev pub take_line : ℕ → List ℕ → List ℕ
take_line zero xs = []
take_line (suc n) [] = []
take_line (suc n) (x ∷ xs) = if is_delim x then x ∷ [] else x ∷ take_line n xs

-- What is left when they are taken.
abbrev pub drop_line : ℕ → List ℕ → List ℕ
drop_line n xs = drop (length (take_line n xs)) xs

-- A delimiter ends the line before what follows it.
take_line-append :
    (n : ℕ) (xs ys : List ℕ) → delims xs ≢ 0 → take_line n (xs ++ ys) ≡ take_line n xs
take_line-append zero xs ys d = refl
take_line-append (suc n) [] ys d = absurd (d refl)
take_line-append (suc n) (x ∷ xs) ys d = ground (arith, take_line-append n xs ys)

drop-append : (n : ℕ) (xs ys : List ℕ) → n ≤ length xs → drop n (xs ++ ys) ≡ drop n xs ++ ys
drop-append zero xs ys h = refl
drop-append (suc n) [] ys h = absurd (omega arith)
drop-append (suc n) (x ∷ xs) ys h = drop-append n xs ys (omega arith)

pub length-take_line : (n : ℕ) (xs : List ℕ) → length (take_line n xs) ≤ length xs
length-take_line zero xs = omega arith
length-take_line (suc n) [] = omega arith
length-take_line (suc n) (x ∷ xs) = ground (arith, length-take_line n xs)

record Reads (rounds : ℕ) (t : Terminal) (xs : List ℕ) : Type 0 where
  out : (read_loop rounds t).0 ≡ take_line rounds xs
  rest : Body (read_loop rounds t).1 (drop_line rounds xs)
  edit : (read_loop rounds t).1.backspace ≡ t.backspace

read_loop-pop :
    (n : ℕ) (t : Terminal) {c : ℤ} {t' : Terminal}
    → term_pop t ≡ (c, t')
    → read_loop (suc n) t ≡ read_round (read_loop n) (c, t')
unfolding read_loop
read_loop-pop n t e = ap (read_round (read_loop n)) e

read_round-key :
    (k : Terminal → List ℕ × Terminal) (c : ℕ) (t : Terminal)
    → read_round k (pos c, t) ≡ (if is_delim c then (c ∷ [], t) else (c ∷ (k t).0, (k t).1))
unfolding read_round
read_round-key k c t = refl

Reads-empty : (n : ℕ) (t : Terminal) → Body t [] → Reads (suc n) t []
unfolding read_round
Reads-empty n t b =
    let e : read_loop (suc n) t ≡ ([], t) =
      read_loop-pop n t (term_pop_empty b.valid (used-Body b)) in
    record { out = rw e; rest = rw e b; edit = rw e }

Reads-cons :
    (n : ℕ) (t : Terminal) (c : ℕ) (xs : List ℕ)
    → term_pop t ≡ (pos c, popped t)
    → Body (popped t) xs
    → Reads n (popped t) xs
    → Reads (suc n) t (c ∷ xs)
Reads-cons n t c xs e b ih =
    let step = read_loop-pop n t e ∙ read_round-key (read_loop n) c (popped t) in
    elim (Bool-cases (is_delim c)) [
      | inl d ↦ record { out = rw (step, d); rest = rw (step, d) b; edit = rw (step, d) }
      | inr d ↦ record {
        out = rw (step, d, ih.out);
        rest = rw (step, d) ih.rest;
        edit = rw (step, d) ih.edit;
      }
    ]

read_loop-Reads : (rounds : ℕ) (t : Terminal) (xs : List ℕ) → Body t xs → Reads rounds t xs
unfolding read_loop
read_loop-Reads zero t xs b = record { out = refl; rest = b; edit = refl }
read_loop-Reads (suc n) t [] b = Reads-empty n t b
read_loop-Reads (suc n) t (c ∷ xs) b =
    let (e, b') = term_pop-Body b in Reads-cons n t c xs e b' (read_loop-Reads n (popped t) xs b')

-- A read of no bytes does nothing.
pub term_read_none :
    (t : Terminal) (size : ℕ) → (size == 0) ≡ true → term_read t size ≡ (pos 0, [], t)
unfolding term_read
term_read_none t size z = rw z refl

module _ {t : Terminal} {pre line : List ℕ} (h : Holds t pre line) where
  -- While no delimiter is counted the reader is told to wait, and a read of no bytes does nothing.
  pub term_read_waits : (size : ℕ) → t.count ≡ 0 → size ≢ 0 → term_read t size ≡ (minus_one, [], t)
  unfolding term_read
  term_read_waits size z nz = ground arith

  -- A reader gets the first line of the complete input, cut after `size + 1` bytes; the rest of the
  -- complete input and the line being edited stay, in order.
  pub term_read_line :
      (size : ℕ)
      → size ≢ 0
      → t.count ≢ 0
      → let (ret, out, t') = term_read t size in
        (out ≡ take_line (size + 1) pre)
        × (ret ≡ pos (length out))
        × Holds t' (drop_line (size + 1) pre) line
  unfolding term_read
  term_read_line size nz cz =
      let r : Reads (size + 1) t (pre ++ line) =
        read_loop-Reads (size + 1) t (pre ++ line) h.body in
      let some_delim : delims pre ≢ 0 =
        λ z. cz (omega (arith, h.body.counted, h.plain, delims-append pre line)) in
      let a : (size == 0) ≡ false = ground arith in
      let b : (t.count == 0) ≡ false = ground arith in
      let cut : take_line (size + 1) (pre ++ line) ≡ take_line (size + 1) pre =
        take_line-append (size + 1) pre line some_delim in
      let left : drop_line (size + 1) (pre ++ line) ≡ drop_line (size + 1) pre ++ line =
        ap (λ (l : List ℕ). drop (length l) (pre ++ line)) cut
        ∙ drop-append _ pre line (length-take_line (size + 1) pre) in
      rw (a, b)
        (
          r.out ∙ cut,
          refl,
          record { body = rw left at r.rest; edit = r.edit ∙ h.edit; plain = h.plain },
        )
