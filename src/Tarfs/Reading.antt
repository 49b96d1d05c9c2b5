-- ===== src/Tarfs/Reading.antt =====
-- Reading a file in pieces.
use os.Common.{
  ℕ, zero, suc, ◌+◌, ◌-◌, ◌%◌, ◌^◌, ◌≤◌, ◌<◌, ◌≡◌, refl, ap, arith, ◌∷◌, ◌++◌, ltb, if◌then◌else◌,
}
use os.Tarfs.{File, slice, tfs_read}

-- The bytes that a read of `count` bytes gets.
abbrev pub rest_of : File → ℕ → ℕ
rest_of f count = if ltb count (f.size - f.offset) then count else f.size - f.offset

slice-append :
    (content : ℕ → ℕ) (off m n : ℕ)
    → slice content off (m + n) ≡ slice content off m ++ slice content (off + m) n
slice-append content off zero n =
    let e : off + 0 ≡ off = omega arith in let d : 0 + n ≡ n = omega arith in rw (e, d) refl
slice-append content off (suc m) n =
    let e : off + suc m ≡ suc off + m = omega arith in
    let d : suc m + n ≡ suc (m + n) = omega arith in
    rw (e, d) (ap (λ l. content off ∷ l) (slice-append content (suc off) m n))

-- Where the offset is not past the end of a file below 4 GB, a read moves the bytes from there on, as many as are asked for
-- and left, returns their number, and moves the offset behind them, never past the end.
pub tfs_read_lem :
    (content : ℕ → ℕ) (f : File) (count : ℕ)
    → f.offset ≤ f.size
    → f.size < 2 ^ 32
    → (tfs_read content f count f.offset ≡ (
      rest_of f count,
      slice content f.offset (rest_of f count),
      record f { offset = f.offset + rest_of f count },
    ))
      × (f.offset + rest_of f count ≤ f.size)
unfolding tfs_read
tfs_read_lem content f count low small =
    let e : (f.size + 2 ^ 64 - f.offset) % 2 ^ 64 ≡ f.size - f.offset = omega arith in
    let d : (f.offset + rest_of f count) % 2 ^ 64 ≡ f.offset + rest_of f count = ground arith in
    let w : rest_of f count % 2 ^ 32 ≡ rest_of f count = ground arith in
    (rw (e, w, d) refl, ground arith)

-- Where the offset is not past the end of a file below 4 GB, two reads in turn get what one read of both counts gets, and leave the same file.
pub tfs_read_twice :
    (content : ℕ → ℕ) (f : File) (m n : ℕ)
    → f.offset ≤ f.size
    → f.size < 2 ^ 32
    → let (r1, bytes1, f1) = tfs_read content f m f.offset in
      let (r2, bytes2, f2) = tfs_read content f1 n f1.offset in
      let (r, bytes, g) = tfs_read content f (m + n) f.offset in
      (r ≡ r1 + r2) × (bytes ≡ bytes1 ++ bytes2) × (g.offset ≡ f2.offset)
tfs_read_twice content f m n low small =
    let one = tfs_read_lem content f m low small in
    let g : File = record f { offset = f.offset + rest_of f m } in
    let two = tfs_read_lem content g n one.1 small in
    let whole = tfs_read_lem content f (m + n) low small in
    let sum : rest_of f (m + n) ≡ rest_of f m + rest_of g n = ground arith in
    rw (one.0, two.0, whole.0, sum)
      (refl, slice-append content f.offset (rest_of f m) (rest_of g n), omega arith)
