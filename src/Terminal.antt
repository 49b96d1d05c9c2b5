-- ===== src/Terminal.antt =====
-- The keyboard line buffer of sys/kprintf.c: `struct term_buf`, the `term_*` functions.
-- A `char` is its byte; where a `char` is widened to `int`, `to_int` gives its sign.
pub mod Ring
pub mod Line
pub mod Input
pub mod Read
pub mod Faults
use os.Common.{
  ℕ, zero, suc, ◌+◌, ◌-◌, ◌%◌, ◌^◌, ◌≡◌, Bool, true, false, not, ◌&&◌, ◌||◌, Option, none, some,
  List, [], ◌∷◌, ◌++◌, ltb, ◌==◌, if◌then◌else◌, length, get_or, set,
}
use os.Common.Int.{ℤ, pos, negsuc, minus_one}

-- TERMBUF_SIZE
abbrev pub termbuf_size : ℕ
termbuf_size = 256

abbrev pub eot : ℕ
eot = 4

-- `count` is a `volatile char`: its bit pattern.
pub record Terminal : Type 0 where
  pub start : ℕ
  pub end : ℕ
  pub echo : Bool
  pub full : Bool
  pub count : ℕ
  pub backspace : ℕ
  pub buf : List ℕ

-- `c == EOT || c == '\n'`
abbrev pub is_delim : ℕ → Bool
is_delim c = c == eot || c == b'\n'

abbrev pub to_int : ℕ → ℤ
to_int c = if ltb c 128 then pos c else negsuc (255 - c)

-- The reference count of `term_file`, which `term_open` and `term_close` change.
pub term_open : ℕ → ℕ
term_open refs = (refs + 1) % 2 ^ 64

pub term_close : ℕ → ℤ × ℕ
term_close refs = (pos 0, (refs + 2 ^ 64 - 1) % 2 ^ 64)

pub term_push : Terminal → ℕ → Terminal
term_push t a =
    let end' : ℕ = (t.end + 1) % termbuf_size in
    record t {
      buf = set t.buf t.end a;
      end = end';
      full = t.full || t.start == end';
      count = if a == b'\n' || a == eot then (t.count + 1) % 256 else t.count;
      backspace = if a == b'\n' || a == eot then 0 else t.backspace;
    }

pub term_poplast : Terminal → Terminal
term_poplast t = record t { end = (t.end + termbuf_size - 1) % termbuf_size; full = false }

pub term_pop : Terminal → ℤ × Terminal
term_pop t =
    if t.start == t.end && not t.full
    then (minus_one, t)
    else (let c : ℕ = get_or t.buf t.start 0 in
        (
          to_int c,
          record t {
            start = (t.start + 1) % termbuf_size;
            full = false;
            count = if is_delim c then (t.count + 255) % 256 else t.count;
          },
        ))

-- The rest of a round of the loop of `term_read`, behind `term_pop`, before the next rounds `k`.
pub read_round : (Terminal → List ℕ × Terminal) → ℤ × Terminal → List ℕ × Terminal
read_round k (negsuc _, t) = ([], t)
read_round k (pos b, t) =
    let rest : List ℕ × Terminal = k t in if is_delim b then (b ∷ [], t) else (b ∷ rest.0, rest.1)

-- The loop of `term_read`, by the rounds that `count <= size` still allows: the bytes stored.
pub read_loop : ℕ → Terminal → List ℕ × Terminal
unfolding read_round
read_loop zero t = ([], t)
read_loop (suc rounds) t = read_round (read_loop rounds) (term_pop t)

-- The result, the bytes stored in the caller's buffer, and the terminal.
pub term_read : Terminal → ℕ → ℤ × List ℕ × Terminal
term_read t size =
    if size == 0
    then (pos 0, [], t)
    else if t.count == 0
    then (minus_one, [], t)
    else (let (out, t') = read_loop (size + 1) t in (pos (length out), out, t'))

-- The loop of `term_write`: what `kputchar` is called on. `buf` gives the caller's bytes.
pub write_loop : ℕ → ℕ → (ℕ → ℕ) → List ℕ
write_loop zero i buf = []
write_loop (suc rounds) i buf = buf i ∷ write_loop rounds (i + 1) buf

-- `fp` says that the file pointer is not null, `buf` is `none` for a null pointer.
pub term_write : Bool → Option (ℕ → ℕ) → ℕ → ℤ × List ℕ
term_write false buf count = (minus_one, [])
term_write true none count = (minus_one, [])
term_write true (some buf) count = (pos count, write_loop count 0 buf)

-- `if(term.echo) kputchar(a);`
abbrev pub echoed : Terminal → ℕ → List ℕ
echoed t a = if t.echo then a ∷ [] else []

abbrev pub erase : Terminal → Terminal
erase t = record t { backspace = if ltb 0 t.backspace then t.backspace - 1 else 0 }

-- The four pushes for a tab.
pub push_tab : Terminal → Terminal
push_tab t =
    let s : Terminal = term_push (term_push (term_push (term_push t b' ') b' ') b' ') b' ' in
    record s { backspace = s.backspace + 4 }

-- Any other key: `backspace++`, then the push.
pub press : Terminal → ℕ → Terminal
press t a = term_push (record t { backspace = t.backspace + 1 }) a

-- The result, what is echoed on the screen, and the terminal.
pub term_putchar : Terminal → ℕ → ℤ × List ℕ × Terminal
term_putchar t a =
    if a == 8
    then (if t.backspace == 0
        then (minus_one, [], t)
        else (pos 0, echoed t a, erase (term_poplast t)))
    else if t.full
    then (minus_one, [], t)
    else if a == b'\t'
    then (pos 0, echoed t a, push_tab t)
    else (pos 0, echoed t a, press t a)
