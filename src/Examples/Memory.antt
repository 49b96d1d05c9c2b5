-- ===== src/Examples/Memory.antt =====
-- Pages, pools and regions on small arrays.
use os.Common.{◌<◌, suc, ℕ, ◌*◌, ◌≡◌, refl, arith, some, List, [], ◌∷◌, ◌==◌, if◌then◌else◌}
use os.Pages.{Pmap, release_page}
use os.Pages.Alloc.{Frees}
use os.Pages.Release.{freed, release_page-Frees}
use os.Pages.Init.{Smap, select, pmap_init, real_physfree}
use os.Pages.Init.Ready.{page_at, Ready, pmap_init-Ready}
use os.Pool.{Pool, get, release}
use os.Pool.Live.{Pooled, Got, get-Pooled, release-Pooled}
use os.Regions.{Regions}

-- Three pages; the first one is mapped twice, the others are free.
abbrev pages : Pmap
pages = record {
  base = λ p. p * 4096;
  map_count = λ p. if p == 1 then 2 else 0;
  next = λ p. if p == 2 then 3 else 0;
  freelist_head = 2;
  free_pg_count = 3;
  entry_count = 3;
}

pages-Frees : Frees pages (2 ∷ 3 ∷ [])
pages-Frees = record {
  chain = (refl, omega arith, (refl, omega arith, refl));
  once = refl;
  within = λ p h. ground arith;
  unmapped = λ p e. ground arith;
  apart = λ p q e d h. omega arith;
}

release_page-Frees_example : Frees (release_page pages 4096) (freed pages 4096 (2 ∷ 3 ∷ []))
release_page-Frees_example = release_page-Frees pages-Frees 4096

-- Twelve pages of memory from address 0.
abbrev memory_map : List Smap
memory_map = record { base = 0; length = 49152; type = 1 } ∷ []

pmap_init-Ready_example :
    (m : Pmap) × (xs : List ℕ) × (pmap_init pages memory_map 16384 20480
      ≡ some (real_physfree 20480 11, m))
    × (m.entry_count ≡ 11)
    × ((i : ℕ) → i < 11 → m.base (suc i) ≡ page_at memory_map i)
    × Ready 16384 (real_physfree 20480 11) m xs
unfolding select
pmap_init-Ready_example =
    pmap_init-Ready pages memory_map 16384 20480 (record { base = 0; length = 49152; type = 1 }) []
      refl (omega arith) (omega arith) (omega arith, omega arith, refl) refl

-- No object is free, and the one at 100 is in use.
abbrev pool : Pool
pool = record { head = 0; free = λ p. 0; bytes = λ p i. 7 }

pool-Pooled : Pooled 48 pool [] (100 ∷ [])
pool-Pooled = record { chain = refl; apart = refl; spaced = λ a b i j ne. ground (arith, i, j, ne) }

get-Pooled_example :
    (a : ℕ) × (p' : Pool) × (free' : List ℕ) × (get 48 8192 pool ≡ some (a, p'))
    × Pooled 48 p' free' (a ∷ 100 ∷ [])
    × Got pool (100 ∷ []) a p'
get-Pooled_example =
    get-Pooled 48 8192 pool [] (100 ∷ []) (omega arith) (omega arith) (omega arith) pool-Pooled
      (λ q h. ground arith)

release-Pooled_example :
    Pooled 48 (release 100 pool) (100 ∷ []) [] × ((i : ℕ) → (release 100 pool).bytes 100 i ≡ 0)
release-Pooled_example = release-Pooled 48 pool [] [] [] 100 pool-Pooled (omega arith)

-- Two regions in use, at 300 and 400, and a free one at 500.
abbrev vmas : Pool
vmas = record { head = 500; free = λ p. 0; bytes = λ p i. 0 }

-- The text at 300, and the heap at 400, up to 8192.
abbrev regions : Regions
regions = record {
  vm = 300;
  brk = 5000;
  next = λ p. if p == 300 then 400 else 0;
  type = λ p. if p == 400 then 3 else 0;
  vm_end = λ p. if p == 400 then 8192 else 4096;
}
