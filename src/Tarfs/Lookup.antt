-- ===== src/Tarfs/Lookup.antt =====
-- Which header a path leads to, and when the reading of a directory does not end, sys/tarfs.c.
use os.Common.{
  ℕ, zero, suc, ◌≡◌, ◌≢◌, ◌⊎◌, ◌∙◌, ap, refl, arith, true, false, not, ◌&&◌, Option, none, some,
  List, [], ◌∷◌, ◌==◌, if◌then◌else◌, length, drop, has, Bool-cases, inl, inr,
}
use mathlib.Core.Path.{subst}
use os.Common.Int.{ℤ, pos, minus_one}
use os.Tarfs.{Archive, get_tfs_next, visit, oct_to_bin, size_field}
use os.Tarfs.Directory.{
  Header, Tree, tfs_dir, block, to_block, o_directory, matches, is_root, check_from, check_tfs_dir,
  Opened, writes, open_header, open_from, trim, tfs_open, name_of, readdir_loop, tfs_readdir,
  is_block,
}

-- The first header whose name starts with the path.
abbrev pub first_match : Tree → List ℕ → List ℕ → Option ℕ
first_match t path [] = none
first_match t path (hdr ∷ hdrs) =
    if matches path (t.name hdr) then some hdr else first_match t path hdrs

abbrev pub open_match : Tree → ℕ → Option ℕ → Option Opened
open_match t flags none = none
open_match t flags (some hdr) = open_header t flags hdr

abbrev pub directory_match : Tree → Option ℕ → ℤ
directory_match t none = minus_one
directory_match t (some hdr) = if t.typeflag hdr == tfs_dir then pos 0 else minus_one

visit_cons :
    (fuel : ℕ) (a : Archive) (hdr : ℕ) (hdrs : List ℕ)
    → visit (suc fuel) a (some hdr) ≡ some hdrs
    → (rest : List ℕ) × (visit fuel a (get_tfs_next a (some hdr)) ≡ some rest) × (hdrs ≡ hdr ∷ rest)
unfolding visit
visit_cons fuel a hdr hdrs e = go (visit fuel a (get_tfs_next a (some hdr))) refl
  where
    go :
        (r : Option (List ℕ))
        → visit fuel a (get_tfs_next a (some hdr)) ≡ r
        → (rest : List ℕ) × (visit fuel a (get_tfs_next a (some hdr)) ≡ some rest)
          × (hdrs ≡ hdr ∷ rest)
    go none q = absurd (ground (arith, rw q at e))
    go (some rest) q = (rest, q, ground (arith, rw q at e))

open_from-visit :
    (fuel : ℕ) (t : Tree) (path : List ℕ) (flags : ℕ) (hdr : Option ℕ) (hdrs : List ℕ)
    → visit fuel t.archive hdr ≡ some hdrs
    → open_from fuel t path flags hdr ≡ some (open_match t flags (first_match t path hdrs))
unfolding open_from visit
open_from-visit zero t path flags hdr hdrs e = absurd (ground (arith, e))
open_from-visit (suc fuel) t path flags none hdrs e =
    let nil : [] ≡ hdrs = ground (arith, e) in
    subst (λ l. some none ≡ some (open_match t flags (first_match t path l))) nil refl
open_from-visit (suc fuel) t path flags (some hdr) hdrs e =
    let (rest, q, l) = visit_cons fuel t.archive hdr hdrs e in
    let ih = open_from-visit fuel t path flags (get_tfs_next t.archive (some hdr)) rest q in
    rw l (elim (Bool-cases (matches path (t.name hdr))) [ inl b ↦ rw b refl | inr b ↦ rw b ih ])

check_from-visit :
    (fuel : ℕ) (t : Tree) (path : List ℕ) (hdr : Option ℕ) (hdrs : List ℕ)
    → visit fuel t.archive hdr ≡ some hdrs
    → check_from fuel t path hdr ≡ some (directory_match t (first_match t path hdrs))
unfolding check_from visit
check_from-visit zero t path hdr hdrs e = absurd (ground (arith, e))
check_from-visit (suc fuel) t path none hdrs e =
    let nil : [] ≡ hdrs = ground (arith, e) in
    subst (λ l. some minus_one ≡ some (directory_match t (first_match t path l))) nil refl
check_from-visit (suc fuel) t path (some hdr) hdrs e =
    let (rest, q, l) = visit_cons fuel t.archive hdr hdrs e in
    let ih = check_from-visit fuel t path (get_tfs_next t.archive (some hdr)) rest q in
    rw l (elim (Bool-cases (matches path (t.name hdr))) [
      | inl b ↦
          rw b (elim (Bool-cases (t.typeflag hdr == tfs_dir)) [
            | inl d ↦ rw d refl
            | inr d ↦ rw d refl
          ])
      | inr b ↦ rw b ih
    ])

tfs_open-first_match :
    (fuel : ℕ) (t : Tree) (root_size : ℕ) (path : List ℕ) (flags : ℕ) (hdrs : List ℕ)
    → visit fuel t.archive t.first ≡ some hdrs
    → writes flags ≡ false
    → is_root path ≡ false
    → tfs_open fuel t root_size (some path) flags
      ≡ some (open_match t flags (first_match t (trim path) hdrs))
unfolding tfs_open
tfs_open-first_match fuel t root_size path flags hdrs e w r =
    rw (w, r) (open_from-visit fuel t (trim path) flags t.first hdrs e)

check_tfs_dir-first_match :
    (fuel : ℕ) (t : Tree) (path : List ℕ) (hdrs : List ℕ)
    → visit fuel t.archive t.first ≡ some hdrs
    → is_root path ≡ false
    → check_tfs_dir fuel t (some path) ≡ some (directory_match t (first_match t path hdrs))
unfolding check_tfs_dir
check_tfs_dir-first_match fuel t path hdrs e r = rw r (check_from-visit fuel t path t.first hdrs e)

-- What opening a directory gives, and what the question whether there is one answers, by the header
-- found: both fail where there is none or it is no directory's; else both succeed, and the file opened
-- stands for that header and is to be read from the header behind it on.
abbrev pub Agrees : Tree → Option ℕ → Option Opened → ℤ → Type 0
Agrees t none o answer = (o ≡ none) × (answer ≡ minus_one)
Agrees t (some hdr) o answer =
    ((t.typeflag hdr ≢ tfs_dir) × (o ≡ none) × (answer ≡ minus_one))
    ⊎ ((t.typeflag hdr ≡ tfs_dir)
        × (answer ≡ pos 0)
        × (f : Opened) × (o ≡ some f)
        × (f.data_hdr ≡ block hdr)
        × (f.offset ≡ to_block (get_tfs_next t.archive (some hdr))))

match-Agrees :
    (t : Tree) (flags : ℕ) (found : Option ℕ)
    → o_directory flags ≡ true
    → Agrees t found (open_match t flags found) (directory_match t found)
unfolding open_header
match-Agrees t flags none d = (refl, refl)
match-Agrees t flags (some hdr) d = elim (Bool-cases (t.typeflag hdr == tfs_dir)) [
  | inl b ↦ inr (
    ground (arith, b),
    rw b refl,
    record {
      data_hdr = block hdr;
      flags = flags;
      offset = to_block (get_tfs_next t.archive (some hdr));
      size = oct_to_bin (t.archive.size hdr) size_field;
    },
    rw b refl,
    refl,
    refl,
  )
  | inr b ↦ inl (ground (arith, b), rw (b, d) refl, rw b refl)
]

-- Where the walk over the archive ends with these headers, opening a directory for reading, with
-- O_DIRECTORY, and `check_tfs_dir` end too, for a path that is not the root's and has no blank in
-- front, and agree on the first header whose name the path is the beginning of.
pub tfs_open-check_tfs_dir :
    (fuel : ℕ) (t : Tree) (root_size : ℕ) (path : List ℕ) (flags : ℕ) (hdrs : List ℕ)
    → visit fuel t.archive t.first ≡ some hdrs
    → writes flags ≡ false
    → o_directory flags ≡ true
    → is_root path ≡ false
    → trim path ≡ path
    → (o : Option Opened) × (answer : ℤ) × (tfs_open fuel t root_size (some path) flags ≡ some o)
      × (check_tfs_dir fuel t (some path) ≡ some answer)
      × Agrees t (first_match t path hdrs) o answer
tfs_open-check_tfs_dir fuel t root_size path flags hdrs e w d r plain = (
  open_match t flags (first_match t path hdrs),
  directory_match t (first_match t path hdrs),
  tfs_open-first_match fuel t root_size path flags hdrs e w r
      ∙ ap (λ q. some (open_match t flags (first_match t q hdrs))) plain,
  check_tfs_dir-first_match fuel t path hdrs e r,
  match-Agrees t flags (first_match t path hdrs) d,
)

readdir_loop_never :
    (fuel : ℕ) (t : Tree) (dir next_hdr : Header)
    → (is_block dir && not (matches (name_of t dir) (name_of t next_hdr))) ≡ false
    → has b'/' (drop (length (name_of t dir)) (name_of t next_hdr)) ≡ true
    → readdir_loop fuel t dir (some next_hdr) ≡ none
unfolding readdir_loop
readdir_loop_never zero t dir next_hdr m h = refl
readdir_loop_never (suc fuel) t dir next_hdr m h =
    rw (m, h) (readdir_loop_never fuel t dir next_hdr m h)

-- The reading of a directory never ends where the next header belongs to the directory and its name
-- has a `/` behind that of the directory, as the name of a directory in it has.
pub tfs_readdir_never :
    (t : Tree) (filep : Opened) (next_hdr : Header)
    → filep.offset ≡ some next_hdr
    → matches (name_of t filep.data_hdr) (name_of t next_hdr) ≡ true
    → has b'/' (drop (length (name_of t filep.data_hdr)) (name_of t next_hdr)) ≡ true
    → (fuel : ℕ) → tfs_readdir fuel t filep ≡ none
unfolding tfs_readdir
tfs_readdir_never t filep next_hdr o m h fuel =
    let belongs : (is_block filep.data_hdr
          && not (matches (name_of t filep.data_hdr) (name_of t next_hdr)))
        ≡ false =
      ground (arith, m) in
    rw (tfs_readdir, o, readdir_loop_never fuel t filep.data_hdr next_hdr belongs h) refl
