-- ===== src/Terminal/Input.antt =====
-- A key press, `term_putchar` of sys/kprintf.c, against a line editor on lists.
use mathlib.Core.List.{append_assoc, append-nil}
use os.Common.{
  ℕ, suc, ◌+◌, ◌-◌, ◌≤◌, ◌<◌, ◌≡◌, refl, ◌≢◌, ◌∙◌, ap, sym, arith, true, false, List, [], ◌∷◌, ◌++◌,
  leb, ◌==◌, if◌then◌else◌, length, length-append, Bool-cases, inl, inr,
}
use os.Common.Int.{ℤ, pos, minus_one, is_negative}
use os.Terminal.{
  Terminal, term_push, term_poplast, term_putchar, is_delim, echoed, erase, push_tab, press,
}
use os.Terminal.Ring.{IsValid, used, contents, contents-term_poplast, term_poplast-IsValid}
use os.Terminal.Line.{
  Body, Holds, Body-backspace, backspace-term_push, ascii-append, used-Body, term_push-Body,
  drop_last, drop_last-snoc, drop_last-append, delims-append, ascii-drop_last, delims-drop_last,
  length-drop_last,
}

-- An EOT or a newline completes the line; a tab stands for four spaces; backspace takes the last
-- byte of the line being edited; a full buffer takes nothing more.
abbrev pub key : List ℕ → List ℕ → ℕ → ℤ × List ℕ × List ℕ
key pre line a =
    if a == 8
    then (if length line == 0 then (minus_one, pre, line) else (pos 0, pre, drop_last line))
    else if leb 256 (length (pre ++ line))
    then (minus_one, pre, line)
    else if a == b'\t'
    then (pos 0, pre, line ++ b' ' ∷ b' ' ∷ b' ' ∷ b' ' ∷ [])
    else if is_delim a
    then (pos 0, pre ++ line ++ a ∷ [], [])
    else (pos 0, pre, line ++ a ∷ [])

module _ {t : Terminal} {pre line : List ℕ} (h : Holds t pre line) where
  full_lem : t.full ≡ leb 256 (length (pre ++ line))
  full_lem = let v : IsValid t = h.body.valid in ground (arith, used-Body h.body)

  backspace-Holds : length line ≢ 0 → Holds (erase (term_poplast t)) pre (drop_last line)
  unfolding term_poplast
  backspace-Holds ne =
      let n : ℕ = length (pre ++ line) - 1 in
      let u : used t ≡ suc n = omega (arith, used-Body h.body, length-append pre line) in
      let live : line ≢ [] = λ e. ne (ap length e) in
      let e : contents (term_poplast t) ≡ drop_last (pre ++ line) =
        sym (drop_last-snoc _ _)
        ∙ ap drop_last (sym (contents-term_poplast h.body.valid n u) ∙ h.body.bytes) in
      record {
        body = record {
          valid = ground (arith, term_poplast-IsValid h.body.valid);
          bytes = e ∙ drop_last-append pre line live;
          counted = omega (
            arith,
            h.body.counted,
            h.plain,
            delims-append pre line,
            delims-append pre (drop_last line),
            delims-drop_last line,
          );
          keys = ground (
            arith,
            h.body.keys,
            ascii-append pre line,
            ascii-append pre (drop_last line),
            ascii-drop_last line,
          );
        };
        edit = ground (arith, h.edit, length-drop_last line);
        plain = delims-drop_last line h.plain;
      }

  -- A key that does not complete the line.
  plain-Holds :
      (a : ℕ)
      → a < 128
      → is_delim a ≡ false
      → length (pre ++ line) < 256
      → Holds (press t a) pre (line ++ a ∷ [])
  unfolding press
  plain-Holds a small d room = record {
    body = rw (← append_assoc) (term_push-Body a (Body-backspace _ h.body) small room);
    edit = ground (
      arith,
      h.edit,
      backspace-term_push (record t { backspace = t.backspace + 1 }) a,
      length-append line (a ∷ []),
    );
    plain = ground (arith, h.plain, delims-append line (a ∷ []));
  }

  -- A key that completes it.
  delim-Holds :
      (a : ℕ)
      → a < 128
      → is_delim a ≡ true
      → length (pre ++ line) < 256
      → Holds (press t a) (pre ++ line ++ a ∷ []) []
  unfolding press
  delim-Holds a small d room = record {
    body = rw append-nil (term_push-Body a (Body-backspace _ h.body) small room);
    edit = ground (arith, backspace-term_push (record t { backspace = t.backspace + 1 }) a);
    plain = refl;
  }

  tab-Holds :
      length (pre ++ line) ≤ 252 → Holds (push_tab t) pre (line ++ b' ' ∷ b' ' ∷ b' ' ∷ b' ' ∷ [])
  unfolding push_tab
  tab-Holds room =
      let xs : List ℕ = pre ++ line in
      let space : List ℕ = b' ' ∷ [] in
      let t1 : Terminal = term_push t b' ' in
      let t2 : Terminal = term_push t1 b' ' in
      let t3 : Terminal = term_push t2 b' ' in
      let b1 : Body t1 (xs ++ space) = term_push-Body b' ' h.body (omega arith) (omega arith) in
      let b2 : Body t2 (xs ++ space ++ space) =
        term_push-Body b' ' b1 (omega arith) (omega (arith, length-append xs space)) in
      let b3 : Body t3 (xs ++ space ++ space ++ space) =
        term_push-Body b' ' b2 (omega arith)
          (omega (arith, length-append xs space, length-append (xs ++ space) space)) in
      let b4 : Body (term_push t3 b' ') (xs ++ space ++ space ++ space ++ space) =
        term_push-Body b' ' b3 (omega arith) (
          omega (
            arith,
            length-append xs space,
            length-append (xs ++ space) space,
            length-append (xs ++ space ++ space) space,
          )) in
      let e : xs ++ space ++ space ++ space ++ space
          ≡ pre ++ (line ++ b' ' ∷ b' ' ∷ b' ' ∷ b' ' ∷ []) =
        simp append_assoc in
      record {
        body = rw (← e) (Body-backspace _ b4);
        edit = ground (
          arith,
          h.edit,
          backspace-term_push t b' ',
          backspace-term_push t1 b' ',
          backspace-term_push t2 b' ',
          backspace-term_push t3 b' ',
          length-append line (b' ' ∷ b' ' ∷ b' ' ∷ b' ' ∷ []),
        );
        plain = ground (arith, h.plain, delims-append line (b' ' ∷ b' ' ∷ b' ' ∷ b' ' ∷ []));
      }

  -- A key press does to the terminal what it does to the line editor on lists: the same result, the
  -- key echoed where it is accepted, and the same complete input and line afterwards. A tab must
  -- find room for its four spaces, or a full buffer.
  pub term_putchar-key :
      (a : ℕ)
      → a < 128
      → (a ≡ b'\t' → length (pre ++ line) < 256 → length (pre ++ line) ≤ 252)
      → let (ret, out, t') = term_putchar t a in
        let (ret', pre', line') = key pre line a in
        (ret ≡ ret') × (out ≡ (if is_negative ret' then [] else echoed t a)) × Holds t' pre' line'
  unfolding term_putchar
  term_putchar-key a small fits = elim (Bool-cases (a == 8)) [
    | inl e ↦ rw e (elim (Bool-cases (length line == 0)) [
      | inl z ↦ let zb : (t.backspace == 0) ≡ true = rw h.edit z in rw (zb, z) (refl, refl, h)
      | inr nz ↦
          let nzb : (t.backspace == 0) ≡ false = rw h.edit nz in
          rw (nzb, nz) (refl, refl, backspace-Holds (ground arith))
    ])
    | inr e ↦ rw e (elim (Bool-cases (leb 256 (length (pre ++ line)))) [
      | inl f ↦ simp (full_lem, f) (refl, refl, h)
      | inr f ↦
          simp (full_lem, f)
            (elim (Bool-cases (a == b'\t')) [
              | inl tab ↦ rw tab (refl, refl, tab-Holds (ground (arith, fits)))
              | inr other ↦ rw other (elim (Bool-cases (is_delim a)) [
                | inl d ↦ rw d (refl, refl, delim-Holds a small d (ground arith))
                | inr d ↦ rw d (refl, refl, plain-Holds a small d (ground arith))
              ])
            ])
    ])
  ]
