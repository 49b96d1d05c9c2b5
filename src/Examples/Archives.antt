-- ===== src/Examples/Archives.antt =====
-- An archive of two files, reading one of them, and descriptors.
use os.Common.{ℕ, [], ◌∷◌, ltb, ◌==◌, if◌then◌else◌, get_or}
use os.Tarfs.{Archive, File}

-- "017".
abbrev digits : ℕ → ℕ
digits i = get_or (b'0' ∷ b'1' ∷ b'7' ∷ []) i 0

-- Files of eight bytes at the blocks 0 and 2.
abbrev archive : Archive
archive = record {
  name = λ h i. if ltb h 3 then b'a' else 0;
  size = λ h i. if i == 9 then b'1' else b'0';
}

abbrev ten_bytes : File
ten_bytes = record { size = 10; offset = 3; count = 1 }
