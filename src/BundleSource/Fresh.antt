-- ===== src/BundleSource/Fresh.antt =====
-- The cache of `FileBundleSource` (python/src/spiffile/bundle.py) against a read with no cache,
-- while other processes replace the file.
use spiffile.Prelude.{ℕ, ◌≤◌, Option, none, some, ◌≡◌, refl, arith, sym, ap, ◌∙◌}
use spiffile.Codec.{Codec}
use spiffile.Disk.{FilePath, Stat, stat_eq_iff, Disk, stat, read_bytes}
use spiffile.Errors.{Result, ok, raise, ◌>>=◌}
use spiffile.Bundle.{Bundle}
use spiffile.BundleSource.{FileBundleSource, source, cached, load, keep, refresh, get_at, get}

-- What a call with no cache would answer.
pub uncached : Codec → Disk → FilePath → Result Bundle
uncached c d p = do _ ← stat d p; load c d p

-- The disk at each moment. Two moments at which the file has one modification time and size have
-- the same file between them: it is on this that change detection rests.
pub record Detects (disk : ℕ → Disk) (p : FilePath) : Type 0 where
  pub unchanged :
      (i j k : ℕ) (s : Stat)
      → i ≤ j
      → j ≤ k
      → stat (disk i) p ≡ ok s
      → stat (disk k) p ≡ ok s
      → read_bytes (disk j) p ≡ read_bytes (disk k) p

module _ (c : Codec) (disk : ℕ → Disk) (p : FilePath) where
  -- The source at a moment, after some calls of `get`. Each call sees the disk at two moments: the
  -- file may be replaced between its stat and its read.
  pub data After : ℕ → FileBundleSource → Type 0 where
    created : {n : ℕ} → After n (source p)
    called :
        {n : ℕ} {s t : FileBundleSource} (i j : ℕ)
        → After n s
        → n ≤ i
        → i ≤ j
        → t ≡ (get c (disk i) (disk j) s).1
        → After j t

  -- What a full cache holds: the stat of one moment and the bundle of a later one.
  record Holds (n : ℕ) (st : Stat) (b : Bundle) : Type 0 where
    stat_at : ℕ
    load_at : ℕ
    ordered : stat_at ≤ load_at
    past : load_at ≤ n
    has_stat : stat (disk stat_at) p ≡ ok st
    loaded : load c (disk load_at) p ≡ ok b

  abbrev CacheInv : ℕ → Option Stat → Option Bundle → Type 0
  CacheInv n (some st) (some b) = Holds n st b
  CacheInv n _ (some b) = ⊥
  CacheInv n _ none = Unit

  Good : ℕ → FileBundleSource → Type 0
  Good n s = (s.path ≡ p) × CacheInv n s.stat s.bundle

  CacheInv-later :
      (n m : ℕ) (st : Option Stat) (b : Option Bundle) → n ≤ m → CacheInv n st b → CacheInv m st b
  CacheInv-later n m (some st) (some b) le h = record {
    stat_at = h.stat_at;
    load_at = h.load_at;
    ordered = h.ordered;
    past = omega (arith, h.past);
    has_stat = h.has_stat;
    loaded = h.loaded;
  }
  CacheInv-later n m none (some b) le h = h
  CacheInv-later n m _ none le h = tt

  keep-Good :
      (s : FileBundleSource) (n i j : ℕ) (current : Stat) (r : Result Bundle)
      → n ≤ i
      → i ≤ j
      → stat (disk i) p ≡ ok current
      → load c (disk j) p ≡ r
      → Good n s
      → Good j (keep c s current r).1
  unfolding keep Good
  keep-Good s n i j current (ok b) le le' e loaded (path_is, inv) = (
    path_is,
    record {
      stat_at = i;
      load_at = j;
      ordered = le';
      past = omega arith;
      has_stat = e;
      loaded = loaded;
    },
  )
  keep-Good s n i j current (raise x) le le' e loaded (path_is, inv) =
      (path_is, CacheInv-later n j s.stat s.bundle (omega arith) inv)

  refresh-Good :
      (s : FileBundleSource) (n i j : ℕ) (current : Stat) (hit : Option Bundle)
      → n ≤ i
      → i ≤ j
      → stat (disk i) p ≡ ok current
      → Good n s
      → Good j (refresh c s (disk j) current hit).1
  unfolding refresh Good
  refresh-Good s n i j current (some b) le le' e (path_is, inv) =
      (path_is, CacheInv-later n j s.stat s.bundle (omega arith) inv)
  refresh-Good s n i j current none le le' e good =
      keep-Good s n i j current (load c (disk j) s.path) le le' e (rw good.0) good

  get_at-Good :
      (s : FileBundleSource) (n i j : ℕ) (r : Result Stat)
      → n ≤ i
      → i ≤ j
      → stat (disk i) p ≡ r
      → Good n s
      → Good j (get_at c s (disk j) r).1
  unfolding get_at
  get_at-Good s n i j (ok current) le le' e good = refresh-Good s n i j current _ le le' e good
  get_at-Good s n i j (raise x) le le' e good =
      unfold Good in (good.0, CacheInv-later n j s.stat s.bundle (omega arith) good.1)

  After-Good : {n : ℕ} {s : FileBundleSource} → After n s → Good n s
  unfolding Good get
  After-Good created = (refl, tt)
  After-Good (called {n} {s} i j a le le' e) =
      let good = After-Good a in
      rw e (get_at-Good s n i j (stat (disk i) s.path) le le' (rw good.0) good)

  -- A hit is what a load at a later moment would give.
  hit-load :
      (n m : ℕ) (st : Option Stat) (b : Option Bundle) (current : Stat) (hit : Bundle)
      → Detects disk p
      → n ≤ m
      → stat (disk m) p ≡ ok current
      → CacheInv n st b
      → cached b st current ≡ some hit
      → load c (disk m) p ≡ ok hit
  unfolding cached load
  hit-load n m (some st) (some b) current hit detects le e h c' =
      let same =
        detects.unchanged h.stat_at h.load_at m st h.ordered (omega (arith, h.past)) h.has_stat
          (ground (arith, stat_eq_iff current st)) in
      ground (arith, h.loaded, stat_eq_iff current st)
  hit-load n m none (some b) current hit detects le e h c' = absurd h
  hit-load n m _ none current hit detects le e h c' = ground arith

  keep_result :
      (s : FileBundleSource) (current : Stat) (r : Result Bundle) → (keep c s current r).0 ≡ r
  unfolding keep
  keep_result s current (ok b) = refl
  keep_result s current (raise x) = refl

  refresh-load :
      (s : FileBundleSource) (n m : ℕ) (current : Stat) (hit : Option Bundle)
      → Detects disk p
      → n ≤ m
      → stat (disk m) p ≡ ok current
      → Good n s
      → cached s.bundle s.stat current ≡ hit
      → (refresh c s (disk m) current hit).0 ≡ load c (disk m) p
  unfolding refresh Good
  refresh-load s n m current (some b) detects le e (path_is, inv) h =
      sym (hit-load n m s.stat s.bundle current b detects le e inv h)
  refresh-load s n m current none detects le e (path_is, inv) h =
      keep_result s current (load c (disk m) s.path) ∙ ap (load c (disk m)) path_is

  get_at-uncached :
      (s : FileBundleSource) (n m : ℕ) (r : Result Stat)
      → Detects disk p
      → n ≤ m
      → stat (disk m) p ≡ r
      → Good n s
      → (get_at c s (disk m) r).0 ≡ uncached c (disk m) p
  unfolding get_at uncached
  get_at-uncached s n m (raise x) detects le e good = rw e refl
  get_at-uncached s n m (ok current) detects le e good =
      rw e (refresh-load s n m current _ detects le e good refl)

  -- If no two moments at which the file has the same modification time and size have other contents
  -- at or between them, then a call during which the file is not replaced answers what a call with
  -- no cache would, errors included, however the file was replaced before, also while it was being
  -- read.
  pub get-uncached :
      {n : ℕ} {s : FileBundleSource} (m : ℕ)
      → Detects disk p
      → After n s
      → n ≤ m
      → (get c (disk m) (disk m) s).0 ≡ uncached c (disk m) p
  unfolding get Good
  get-uncached {n} {s} m detects a le =
      let good = After-Good a in
      get_at-uncached s n m (stat (disk m) s.path) detects le (rw good.0) good
