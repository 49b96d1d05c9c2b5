-- ===== src/Terminal/Ring.antt =====
-- The ring of `struct term_buf` as the queue of the bytes that it holds.
use os.Common.{
  ℕ, suc, ◌+◌, ◌-◌, ◌%◌, ◌≤◌, ◌<◌, ◌≡◌, ◌∙◌, ap, sym, arith, true, false, List, [], ◌∷◌, ◌++◌,
  if◌then◌else◌, length, get_or, set, length-set,
}
use mathlib.Core.Path.{subst}
use os.Common.Int.{minus_one}
use os.Common.Window
use os.Common.Window.{wrap, window}
use os.Terminal.{Terminal, term_push, term_pop, term_poplast, to_int, is_delim}

pub record IsValid (t : Terminal) : Type 0 where
  pub start_in : t.start < 256
  pub end_in : t.end < 256
  pub room : 256 ≤ length t.buf
  pub full_iff : t.full ≡ true → t.start ≡ t.end

-- The number of bytes held.
abbrev pub used : Terminal → ℕ
used t = if t.full then 256 else wrap 256 (t.end + 256 - t.start)

abbrev pub contents : Terminal → List ℕ
contents t = window 256 t.buf t.start (used t)

pub length-contents : (t : Terminal) → length (contents t) ≡ used t
length-contents t = Window.length-window 256 t.buf t.start (used t)

-- The first byte is taken away, and `count` follows.
abbrev pub popped : Terminal → Terminal
popped t = record t {
  start = (t.start + 1) % 256;
  full = false;
  count = if is_delim (get_or t.buf t.start 0) then (t.count + 255) % 256 else t.count;
}

module _ {t : Terminal} (v : IsValid t) where
  pub term_push-IsValid : (a : ℕ) → t.full ≡ false → IsValid (term_push t a)
  unfolding term_push
  term_push-IsValid a room = ground (arith, length-set t.buf t.end a)

  pub used-term_push : (a : ℕ) → t.full ≡ false → used (term_push t a) ≡ suc (used t)
  unfolding term_push
  used-term_push a room = ground arith

  pub contents-term_push :
      (a : ℕ) → t.full ≡ false → contents (term_push t a) ≡ contents t ++ a ∷ []
  unfolding term_push
  contents-term_push a room =
      let e : wrap 256 (t.start + used t) ≡ t.end = ground arith in
      ap (window 256 (set t.buf t.end a) t.start) (used-term_push a room)
      ∙ subst (λ i. window 256 (set t.buf i a) t.start (suc (used t)) ≡ contents t ++ a ∷ []) e
          (Window.window-push 256 t.buf t.start (used t) a v.start_in (ground arith) v.room)

  pub used-term_poplast : (n : ℕ) → used t ≡ suc n → used (term_poplast t) ≡ n
  unfolding term_poplast
  used-term_poplast n u = ground arith

  pub term_poplast-IsValid : IsValid (term_poplast t)
  unfolding term_poplast
  term_poplast-IsValid = ground arith

  -- What is left when the last byte is taken away.
  pub contents-term_poplast :
      (n : ℕ)
      → used t ≡ suc n
      → contents t ≡ contents (term_poplast t) ++ get_or t.buf (wrap 256 (t.start + n)) 0 ∷ []
  unfolding term_poplast
  contents-term_poplast n u =
      ap (window 256 t.buf t.start) u
      ∙ Window.window-snoc 256 t.buf t.start n v.start_in (ground arith)
      ∙ ap (λ k. window 256 t.buf t.start k ++ get_or t.buf (wrap 256 (t.start + n)) 0 ∷ [])
          (sym (used-term_poplast n u))

  -- Taking from an empty ring is refused.
  pub term_pop_empty : used t ≡ 0 → term_pop t ≡ (minus_one, t)
  unfolding term_pop
  term_pop_empty u = ground arith

  pub term_pop_cons :
      (n : ℕ)
      → used t ≡ suc n
      → (term_pop t ≡ (to_int (get_or t.buf t.start 0), popped t))
        × IsValid (popped t)
        × (used (popped t) ≡ n)
  unfolding term_pop
  term_pop_cons n u = (ground arith, ground arith, ground arith)

  pub contents-popped :
      (n : ℕ) → used t ≡ suc n → contents t ≡ get_or t.buf t.start 0 ∷ contents (popped t)
  contents-popped n u =
      let e : (t.start + 1) % 256 ≡ wrap 256 (t.start + 1) = ground arith in
      ap (window 256 t.buf t.start) u
      ∙ ap (λ l. get_or t.buf t.start 0 ∷ l) (cc (e, (term_pop_cons n u).2))
