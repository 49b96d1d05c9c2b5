-- ===== src/Pipe.antt =====
-- The pipes of sys/kpipe.c: `struct pipe_buf`, the operations of its read head and of its write
-- head, and `syspipe`. A `while` takes fuel, and one step for each turn.
pub mod Flow
use os.Common.{
  ℕ, zero, suc, ◌+◌, ◌-◌, ◌%◌, ◌^◌, Bool, true, false, not, ◌&&◌, Option, none, some, List, [], ◌∷◌,
  ltb, leb, ◌==◌, if◌then◌else◌, get_or, set, replicate, map,
}
use os.Common.Int.{ℤ, pos, minus_one}

abbrev pub pipebuf_size : ℕ
pipebuf_size = 2048

-- `struct pipe_buf`.
pub record PipeBuf : Type 0 where
  pub start : ℕ
  pub end : ℕ
  pub full : Bool
  pub buf : List ℕ

-- The fields of `struct file` that a pipe uses: whether `data` is set, and `count`.
pub record File : Type 0 where
  pub data_set : Bool
  pub count : ℕ

-- The pipe after `memset`.
abbrev pub empty_pipe : PipeBuf
empty_pipe = record { start = 0; end = 0; full = false; buf = replicate 2048 0 }

-- One turn of the loop of `rhead_read`.
unfoldable pub read_turn : PipeBuf → PipeBuf
read_turn p = record p { start = (p.start + 1) % 2048; full = false }

-- The bytes that the loop of `rhead_read` stores, behind those that it has stored.
unfoldable pub stored : ℕ → Option (ℕ × List ℕ × PipeBuf) → Option (ℕ × List ℕ × PipeBuf)
stored b none = none
stored b (some (n, bytes, p)) = some (n, b ∷ bytes, p)

unfoldable pub read_loop : ℕ → ℕ → ℕ → PipeBuf → Option (ℕ × List ℕ × PipeBuf)
read_loop zero count nread p = none
read_loop (suc fuel) count nread p =
    let rest = read_loop fuel count (suc nread) (read_turn p) in
    if leb nread count && not (p.start == p.end)
    then stored (get_or p.buf p.start 0) rest
    else some (nread, [], p)

-- The returned value, the bytes stored in the caller's buffer, and the pipe.
unfoldable pub returned : ℕ × List ℕ × PipeBuf → ℤ × List ℕ × PipeBuf
returned (n, bytes, p) = (pos n, bytes, p)

unfoldable pub returned_all : Option (ℕ × List ℕ × PipeBuf) → Option (ℤ × List ℕ × PipeBuf)
returned_all none = none
returned_all (some r) = some (returned r)

-- `buf` says whether the caller's buffer is given.
unfoldable pub rhead_read : Option File → Bool → ℕ → PipeBuf → Option (ℤ × List ℕ × PipeBuf)
rhead_read none buf count p = some (minus_one, [], p)
rhead_read (some filep) buf count p =
    if not buf
    then some (minus_one, [], p)
    else if count == 0
    then some (pos 0, [], p)
    else if not filep.data_set
    then some (minus_one, [], p)
    else if (p.start == p.end) && not p.full
    then some (pos 0, [], p)
    else returned_all (read_loop 2048 count 0 p)

-- One turn of the loop of `whead_write`.
unfoldable pub write_turn : PipeBuf → ℕ → PipeBuf
write_turn p b =
    let end = (p.end + 1) % 2048 in
    record p { buf = set p.buf p.end b; end = end; full = end == p.start }

-- `memory n` is the byte at `buf + n`.
unfoldable pub write_loop : ℕ → (ℕ → ℕ) → ℕ → ℕ → PipeBuf → Option (ℕ × PipeBuf)
write_loop zero memory count nwrite p = none
write_loop (suc fuel) memory count nwrite p =
    let rest = write_loop fuel memory count (suc nwrite) (write_turn p (memory nwrite)) in
    if leb nwrite count && not (p.start == p.end) then rest else some (nwrite, p)

unfoldable pub written : Option (ℕ × PipeBuf) → Option (ℤ × PipeBuf)
written none = none
written (some (n, p)) = some (pos n, p)

-- `buf` is the caller's memory from the buffer on, when it is given.
unfoldable pub whead_write : Option File → Option (ℕ → ℕ) → ℕ → PipeBuf → Option (ℤ × PipeBuf)
whead_write none buf count p = some (minus_one, p)
whead_write (some filep) none count p = some (minus_one, p)
whead_write (some filep) (some memory) count p =
    if not filep.data_set then some (minus_one, p) else written (write_loop 2048 memory count 0 p)

unfoldable pub rhead_write : Option File → Option (ℕ → ℕ) → ℕ → PipeBuf → Option (ℤ × PipeBuf)
rhead_write filep buf count p = some (minus_one, p)

unfoldable pub whead_read : Option File → Bool → ℕ → PipeBuf → Option (ℤ × List ℕ × PipeBuf)
whead_read filep buf count p = some (minus_one, [], p)

-- The result, and the file, which is freed with its last reference: `count` is an `unsigned long`.
unfoldable pub pipe_close : Option File → ℤ × Option File
pipe_close none = (minus_one, none)
pipe_close (some filep) =
    let count = (filep.count + (2 ^ 64 - 1)) % 2 ^ 64 in
    if count == 0 then (pos 0, none) else (pos 0, some record filep { count = count })

-- `none` is `panic`; the statement behind it returns for every other argument.
unfoldable pub syspipe : Option (List ℤ) → Option (ℤ × List ℤ)
syspipe none = none
syspipe (some pipefd) = some (minus_one, pipefd)
