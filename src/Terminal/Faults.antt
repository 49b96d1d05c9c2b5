-- ===== src/Terminal/Faults.antt =====
-- Inputs on which the terminal of sys/kprintf.c loses data or writes past the reader's buffer.
use os.Common.{
  ℕ, zero, suc, ◌+◌, ◌-◌, ◌%◌, ◌<◌, ◌≡◌, refl, ◌≢◌, ◌∙◌, ap, arith, true, false, List, [], ◌∷◌,
  ◌++◌, length, take,
}
use os.Common.Int.{pos, minus_one}
use os.Common.Window.{wrap}
use os.Terminal.{Terminal, term_pop, term_push, term_putchar, term_read, push_tab}
use os.Terminal.Ring.{IsValid, used}
use os.Terminal.Line.{Holds, delims}
use os.Terminal.Read.{take_line, term_read_line, term_read_waits}

length-take_line_full :
    (n : ℕ) (xs : List ℕ)
    → n < length xs
    → delims (take n xs) ≡ 0
    → length (take_line (suc n) xs) ≡ suc n
length-take_line_full n [] h d = absurd (omega arith)
length-take_line_full zero (x ∷ xs) h d = ground arith
length-take_line_full (suc n) (x ∷ xs) h d = ground (arith, length-take_line_full n xs)

-- A reader who asks for `size` bytes of a longer line is given `size + 1`: one byte is stored
-- behind the end of the buffer that the reader has room for.
pub term_read_overrun :
    {t : Terminal} {pre line : List ℕ} (size : ℕ)
    → Holds t pre line
    → size ≢ 0
    → t.count ≢ 0
    → size < length pre
    → delims (take size pre) ≡ 0
    → length (term_read t size).1 ≡ size + 1
term_read_overrun {t} {pre} size h nz cz long plain =
    ap length (term_read_line h size nz cz).0
    ∙ (let e : size + 1 ≡ suc size = omega arith in
        rw e (length-take_line_full size pre long plain))

module _ (t : Terminal) (v : IsValid t) (low : 252 < wrap 256 (t.end + 256 - t.start)) where
  push_tab-full : (push_tab t).full ≡ true
  unfolding push_tab term_push
  push_tab-full = ground arith

  push_tab-ends : (push_tab t).start ≢ (push_tab t).end
  unfolding push_tab term_push
  push_tab-ends = ground arith

  push_tab_ends : ((push_tab t).start ≡ t.start) × ((push_tab t).end ≡ (t.end + 4) % 256)
  unfolding push_tab term_push
  push_tab_ends = (refl, omega arith)

used-term_pop :
    (t : Terminal)
    → t.start < 256
    → t.end < 256
    → t.start ≢ t.end
    → used (term_pop t).1 ≡ wrap 256 (t.end + 256 - t.start) - 1
unfolding term_pop
used-term_pop t s e ne = ground arith

-- A tab for which less than four places are free is accepted and overwrites the oldest input: the
-- buffer is marked full while its ends differ, and after the next byte is taken all but at most
-- two of the bytes held are gone.
pub term_putchar_tab_overrun :
    {t : Terminal}
    → IsValid t
    → 252 < used t
    → used t < 256
    → let (ret, out, t') = term_putchar t b'\t' in
      (ret ≡ pos 0) × (t'.full ≡ true) × (t'.start ≢ t'.end) × (used (term_pop t').1 ≡ used t - 253)
unfolding term_putchar
term_putchar_tab_overrun {t} v low high =
    let open_ : t.full ≡ false = ground arith in
    let n : ℕ = wrap 256 (t.end + 256 - t.start) in
    let lo : 252 < n = ground arith in
    let ends = push_tab_ends t v lo in
    let ne : (push_tab t).start ≢ (push_tab t).end = push_tab-ends t v lo in
    simp open_ (refl, push_tab-full t v lo, ne, ground (arith, used-term_pop (push_tab t)))

-- A buffer of 256 complete lines wraps the counter of delimiters, and every reader waits.
pub term_read_blocked :
    {t : Terminal} {pre line : List ℕ} (size : ℕ)
    → Holds t pre line
    → size ≢ 0
    → delims (pre ++ line) ≡ 256
    → term_read t size ≡ (minus_one, [], t)
term_read_blocked size h nz d = term_read_waits h size (omega (arith, h.body.counted)) nz
