-- ===== src/Examples/Directories.antt =====
-- Paths in an archive of a directory and what is in it.
use os.Common.{Option, ℕ, ◌≡◌, refl, arith, none, some, List, [], ◌∷◌, ltb, ◌==◌, if◌then◌else◌}
use os.Common.Int.{ℤ}
use os.Tarfs.{Archive, visit, oct_to_bin}
use os.Tarfs.Walk.{visit-Laid}
use os.Tarfs.Directory.{block, Tree, Opened, check_tfs_dir, tfs_open}
use os.Tarfs.Lookup.{first_match, Agrees, tfs_open-check_tfs_dir}

-- The directory `d/` at the block 0, and behind it a directory in it, `d/e/`.
abbrev tree : Tree
tree = record {
  archive = record { name = λ h i. if ltb h 2 then b'd' else 0; size = λ h i. b'0' };
  first = some 0;
  name = λ h. if h == 0 then b'd' ∷ b'/' ∷ [] else b'd' ∷ b'/' ∷ b'e' ∷ b'/' ∷ [];
  typeflag = λ h. b'5';
  after_root = none;
}

tree-visit : visit 3 tree.archive tree.first ≡ some (0 ∷ 1 ∷ [])
unfolding oct_to_bin os.Tarfs.oct_from
tree-visit =
    visit-Laid (1 ∷ []) 3 tree.archive 0 (refl, omega arith, (refl, omega arith, refl))
      (omega arith)

abbrev path : List ℕ
path = b'd' ∷ b'/' ∷ b'e' ∷ []

tfs_open-check_tfs_dir_example :
    (o : Option Opened) × (answer : ℤ) × (tfs_open 3 tree 0 (some path) 65536 ≡ some o)
    × (check_tfs_dir 3 tree (some path) ≡ some answer)
    × Agrees tree (first_match tree path (0 ∷ 1 ∷ [])) o answer
tfs_open-check_tfs_dir_example =
    tfs_open-check_tfs_dir 3 tree 0 path 65536 (0 ∷ 1 ∷ []) tree-visit refl refl refl refl

abbrev opened : Opened
opened = record { data_hdr = block 0; flags = 65536; offset = some (block 1); size = 0 }
