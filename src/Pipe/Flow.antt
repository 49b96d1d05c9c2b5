-- ===== src/Pipe/Flow.antt =====
-- What goes through a pipe: the loops of `rhead_read` and `whead_write`.
use os.Common.{
  ℕ, zero, suc, ◌+◌, ◌-◌, ◌≤◌, ◌<◌, ◌≡◌, refl, ◌≢◌, ◌∙◌, ap, arith, Bool, true, false, not, ◌&&◌,
  Option, none, some, List, [], ◌∷◌, leb, ◌==◌, get_or,
}
use os.Common.Int.{ℤ, pos}
use os.Common.Window.{wrap, window}
use os.Pipe.{
  PipeBuf, File, read_turn, stored, read_loop, returned, returned_all, rhead_read, write_loop,
  written, whead_write,
}

pub record IsValid (p : PipeBuf) : Type 0 where
  pub start_in : p.start < 2048
  pub end_in : p.end < 2048

-- The bytes between the two heads.
abbrev pub held : PipeBuf → ℕ
held p = wrap 2048 (p.end + 2048 - p.start)

-- The pipe after `k` turns of the loop of `rhead_read`.
abbrev pub advanced : ℕ → PipeBuf → PipeBuf
advanced zero p = p
advanced (suc k) p = advanced k (read_turn p)

read_turn-IsValid : (p : PipeBuf) → IsValid p → IsValid (read_turn p)
unfolding read_turn
read_turn-IsValid p v = ground arith

held-read_turn : (p : PipeBuf) (n : ℕ) → IsValid p → held p ≡ suc n → held (read_turn p) ≡ n
unfolding read_turn
held-read_turn p n v h = ground arith

start-read_turn : (p : PipeBuf) → IsValid p → (read_turn p).start ≡ wrap 2048 (p.start + 1)
unfolding read_turn
start-read_turn p v = ground arith

window-read_turn :
    (p : PipeBuf) (k : ℕ)
    → IsValid p
    → window 2048 (read_turn p).buf (read_turn p).start k
      ≡ window 2048 p.buf (wrap 2048 (p.start + 1)) k
unfolding read_turn
window-read_turn p k v = ap (λ i. window 2048 p.buf i k) (start-read_turn p v)

abbrev pub least : ℕ → ℕ → ℕ
least zero n = zero
least (suc m) zero = zero
least (suc m) (suc n) = suc (least m n)

read_loop_stops :
    (fuel count nread : ℕ) (p : PipeBuf)
    → (leb nread count && not (p.start == p.end)) ≡ false
    → read_loop (suc fuel) count nread p ≡ some (nread + 0, [], p)
unfolding read_loop
read_loop_stops fuel count nread p e = let z : nread + 0 ≡ nread = omega arith in rw (e, z) refl

-- The loop with `room` bytes to go, counted as the code counts them.
read_loop_runs :
    (fuel room n count nread : ℕ) (p : PipeBuf)
    → IsValid p
    → held p ≡ n
    → n < fuel
    → nread + room ≡ suc count
    → read_loop fuel count nread p
      ≡ some (
        nread + least room n,
        window 2048 p.buf p.start (least room n),
        advanced (least room n) p,
      )
unfolding read_loop stored
read_loop_runs zero room n count nread p v h enough r = absurd (omega arith)
read_loop_runs (suc fuel) zero n count nread p v h enough r =
    read_loop_stops fuel count nread p (ground arith)
read_loop_runs (suc fuel) (suc room) zero count nread p v h enough r =
    read_loop_stops fuel count nread p (let e : p.start ≡ p.end = ground (arith, h) in ground arith)
read_loop_runs (suc fuel) (suc room) (suc n) count nread p v h enough r =
    let rest =
      read_loop_runs fuel room n count (suc nread) (read_turn p) (read_turn-IsValid p v)
        (held-read_turn p n v h) (omega arith) (omega arith) in
    let apart : p.start ≢ p.end = ground (arith, h) in
    let e : (leb nread count && not (p.start == p.end)) ≡ true = ground arith in
    let plus : nread + suc (least room n) ≡ suc nread + least room n = omega arith in
    let k = least room n in
    let b = get_or p.buf p.start 0 in
    rw (e, rest, plus)
      (ap (λ l. some (suc nread + k, b ∷ l, advanced k (read_turn p))) (window-read_turn p k v))

advanced-IsValid : (k : ℕ) (p : PipeBuf) → IsValid p → IsValid (advanced k p)
advanced-IsValid zero p v = v
advanced-IsValid (suc k) p v = advanced-IsValid k (read_turn p) (read_turn-IsValid p v)

held-advanced : (k : ℕ) (p : PipeBuf) → IsValid p → k ≤ held p → held (advanced k p) ≡ held p - k
held-advanced zero p v h = omega arith
held-advanced (suc k) p v h =
    let one : held (read_turn p) ≡ held p - 1 = held-read_turn p (held p - 1) v (omega arith) in
    omega (arith, held-advanced k (read_turn p) (read_turn-IsValid p v) (omega arith))

held-least : (p : PipeBuf) → IsValid p → held p < 2048
held-least p v = ground arith

least_le : (m n : ℕ) → least m n ≤ n
least_le zero n = omega arith
least_le (suc m) zero = omega arith
least_le (suc m) (suc n) = omega (arith, least_le m n)

-- A read of `count` bytes, not 0, through an open file with a buffer ends, takes the first
-- min (`count` + 1, held) bytes of the pipe in order, returns their number, and leaves the pipe
-- with that many bytes fewer.
pub rhead_read_lem :
    (filep : File) (count : ℕ) (p : PipeBuf)
    → IsValid p
    → filep.data_set ≡ true
    → count ≢ 0
    → (p.start ≢ p.end)
    → (rhead_read (some filep) true count p
        ≡ some (
          pos (least (suc count) (held p)),
          window 2048 p.buf p.start (least (suc count) (held p)),
          advanced (least (suc count) (held p)) p,
        ))
      × IsValid (advanced (least (suc count) (held p)) p)
      × (held (advanced (least (suc count) (held p)) p) ≡ held p - least (suc count) (held p))
unfolding rhead_read returned_all returned
rhead_read_lem filep count p v d nz apart =
    let runs =
      read_loop_runs 2048 (suc count) (held p) count 0 p v refl (held-least p v) (omega arith) in
    let zero_add : 0 + least (suc count) (held p) ≡ least (suc count) (held p) = omega arith in
    let nonzero : (count == 0) ≡ false = ground arith in
    let unlike : (p.start == p.end) ≡ false = ground arith in
    (
      rw (d, nonzero, unlike, runs, zero_add) refl,
      advanced-IsValid (least (suc count) (held p)) p v,
      held-advanced (least (suc count) (held p)) p v (least_le (suc count) (held p)),
    )

-- A transfer: a read of the read head or a write of the write head, or the refused ones.
pub data Transfer : Type 0 where
  read : Option File → Bool → ℕ → Transfer
  write : Option File → Option (ℕ → ℕ) → ℕ → Transfer

-- The pipe after a read or a write.
abbrev pub after_read : Option (ℤ × List ℕ × PipeBuf) → Option PipeBuf
after_read none = none
after_read (some (r, bytes, p)) = some p

abbrev pub after_write : Option (ℤ × PipeBuf) → Option PipeBuf
after_write none = none
after_write (some (r, p)) = some p

abbrev pub transfer : Transfer → PipeBuf → Option PipeBuf
transfer (read f b n) p = after_read (rhead_read f b n p)
transfer (write f m n) p = after_write (whead_write f m n p)

-- The pipe after a sequence of transfers.
unfoldable pub transfers : List Transfer → PipeBuf → Option PipeBuf
transfers [] p = some p
transfers (t ∷ ts) p = elim (transfer t p) [ none ↦ none | some q ↦ transfers ts q ]

write_loop_stops :
    (fuel count : ℕ) (memory : ℕ → ℕ) (p : PipeBuf)
    → p.start ≡ p.end
    → write_loop (suc fuel) memory count 0 p ≡ some (0, p)
unfolding write_loop
write_loop_stops fuel count memory p e = ground arith

read_loop_met :
    (fuel count : ℕ) (p : PipeBuf)
    → p.start ≡ p.end
    → read_loop (suc fuel) count 0 p ≡ some (0 + 0, [], p)
read_loop_met fuel count p e = read_loop_stops fuel count 0 p (ground arith)

rhead_read_met :
    (f : File) (b : Bool) (n : ℕ) (p : PipeBuf)
    → p.start ≡ p.end
    → after_read (rhead_read (some f) b n p) ≡ some p
unfolding rhead_read returned_all returned
rhead_read_met f b n p e =
    let l = read_loop_met 2047 n p e in rw (read_loop_met 2047 n p e) (ground arith)

whead_write_met :
    (f : File) (memory : ℕ → ℕ) (n : ℕ) (p : PipeBuf)
    → p.start ≡ p.end
    → after_write (whead_write (some f) (some memory) n p) ≡ some p
unfolding whead_write written
whead_write_met f memory n p e = rw (write_loop_stops 2047 n memory p e) (ground arith)

transfer_met : (t : Transfer) (p : PipeBuf) → p.start ≡ p.end → transfer t p ≡ some p
unfolding rhead_read whead_write
transfer_met (read none b n) p e = refl
transfer_met (read (some f) b n) p e = rhead_read_met f b n p e
transfer_met (write none m n) p e = refl
transfer_met (write (some f) none n) p e = refl
transfer_met (write (some f) (some m) n) p e = whead_write_met f m n p e

-- No sequence of reads and writes, with whatever arguments, gets a byte into a pipe whose heads
-- meet, as those of a new one do: it ends with the pipe as it was.
pub transfers_met : (ts : List Transfer) (p : PipeBuf) → p.start ≡ p.end → transfers ts p ≡ some p
unfolding transfers
transfers_met [] p e = refl
transfers_met (t ∷ ts) p e =
    bind_some (transfer t p) (transfers ts) p (transfer_met t p e) ∙ transfers_met ts p e
  where
    bind_some :
        (o : Option PipeBuf) (f : PipeBuf → Option PipeBuf) (q : PipeBuf)
        → o ≡ some q
        → (elim o [ none ↦ none | some r ↦ f r ]) ≡ f q
    bind_some none f q h = ground (arith, h)
    bind_some (some r) f q h = ground (arith, h)
