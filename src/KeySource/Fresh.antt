-- ===== src/KeySource/Fresh.antt =====
-- The cache of `_FileKeySource` (python/src/spiffile/identity.py) against a read with no cache,
-- while other processes replace the key file.
use spiffile.Prelude.{ℕ, ◌≤◌, Text, Option, none, some, ◌≡◌, refl, arith, sym, ap, ◌∙◌}
use spiffile.Codec.{Codec}
use spiffile.Crypto.{Crypto}
use spiffile.Disk.{FilePath, Stat, stat_eq_iff, Disk, stat}
use spiffile.Errors.{Result, ok, raise, ◌>>=◌}
use spiffile.Keys.{key_id, private_key_from_pem}
use spiffile.BundleSource.Fresh.{Detects}
use spiffile.KeySource.{
  FileKeySource, cached_key, load_key, set_kid, set_key, refresh_key, get_file_at, get_file,
}
use spiffile.KeySource.Cache.{AfterCalls, KeyInv, Sane, AfterCalls-Sane}

module _ (codec : Codec) (c : Crypto) where
  -- A key and its ID.
  abbrev with_id : Result c.PrivateKey → Result (c.PrivateKey × Text)
  with_id r = do key ← r; kid ← key_id codec c key; ok (key, kid)

  -- What a call with no cache would answer.
  pub uncached_key : Disk → FilePath → Result (c.PrivateKey × Text)
  uncached_key d p = do _ ← stat d p; with_id (load_key codec c d p)

module _ (codec : Codec) (c : Crypto) (disk : ℕ → Disk) (p : FilePath) where
  -- Between two moments with one stat, a load answers the same.
  load_key-unchanged :
      (i j m : ℕ) (st : Stat)
      → Detects disk p
      → i ≤ j
      → j ≤ m
      → stat (disk i) p ≡ ok st
      → stat (disk m) p ≡ ok st
      → load_key codec c (disk j) p ≡ load_key codec c (disk m) p
  unfolding load_key
  load_key-unchanged i j m st detects le le' e e' =
      ap (λ pem. pem >>= private_key_from_pem codec c) (detects.unchanged i j m st le le' e e')

  cached_key-hit :
      (key : c.PrivateKey) (st current : Stat) (hit : c.PrivateKey)
      → cached_key (some key) (some st) current ≡ some hit
      → (current ≡ st) × (key ≡ hit)
  unfolding cached_key
  cached_key-hit key st current hit h = ground (arith, stat_eq_iff current st)

  -- A hit is what a load at a later moment would give.
  hit-with_id :
      (n m : ℕ) (st : Option Stat) (old : Option c.PrivateKey) (kid : Text) (current : Stat)
      (hit : c.PrivateKey)
      → Detects disk p
      → n ≤ m
      → stat (disk m) p ≡ ok current
      → KeyInv codec c disk p n st old kid
      → cached_key old st current ≡ some hit
      → with_id codec c (load_key codec c (disk m) p) ≡ ok (hit, kid)
  hit-with_id n m (some st) (some key) kid current hit detects le e h found =
      let (same, is_hit) = cached_key-hit key st current hit found in
      let e' = e ∙ ap ok same in
      let has_key =
        sym (
          load_key-unchanged h.stat_at h.key_at m st detects h.before_key
            (omega (arith, h.key_past)) h.has_stat e')
        ∙ h.has_key in
      let has_owner =
        sym (
          load_key-unchanged h.stat_at h.kid_at m st detects h.before_kid
            (omega (arith, h.kid_past)) h.has_stat e')
        ∙ h.has_owner in
      let owns : h.owner ≡ key = ground arith in rw (has_owner, h.has_kid, owns, is_hit) refl
  hit-with_id n m (some st) none kid current hit detects le e h found = absurd h
  hit-with_id n m none (some key) kid current hit detects le e h found =
      unfold cached_key in ground arith
  hit-with_id n m none none kid current hit detects le e h found = unfold cached_key in ground arith

  set_key-with_id :
      (s : FileKeySource c.PrivateKey) (current : Stat) (r : Result c.PrivateKey)
      → (set_key codec c s current r).0 ≡ with_id codec c r
  unfolding set_key set_kid
  set_key-with_id s current (raise x) = refl
  set_key-with_id s current (ok key) = named (key_id codec c key)
    where
      named : (r : Result Text) → (set_kid codec c s current key r).0 ≡ (do kid ← r; ok (key, kid))
      named (ok kid) = refl
      named (raise x) = refl

  refresh_key-with_id :
      (s : FileKeySource c.PrivateKey) (n m : ℕ) (current : Stat) (hit : Option c.PrivateKey)
      → Detects disk p
      → n ≤ m
      → stat (disk m) p ≡ ok current
      → Sane codec c disk p n s
      → cached_key s.key s.stat current ≡ hit
      → (refresh_key codec c s (disk m) current hit).0
        ≡ with_id codec c (load_key codec c (disk m) p)
  unfolding refresh_key Sane
  refresh_key-with_id s n m current (some key) detects le e (path_is, inv) h =
      sym (hit-with_id n m s.stat s.key s.kid current key detects le e inv h)
  refresh_key-with_id s n m current none detects le e (path_is, inv) h =
      set_key-with_id s current (load_key codec c (disk m) s.path)
      ∙ ap (λ q. with_id codec c (load_key codec c (disk m) q)) path_is

  get_file_at-uncached_key :
      (s : FileKeySource c.PrivateKey) (n m : ℕ) (r : Result Stat)
      → Detects disk p
      → n ≤ m
      → stat (disk m) p ≡ r
      → Sane codec c disk p n s
      → (get_file_at codec c s (disk m) r).0 ≡ uncached_key codec c (disk m) p
  unfolding get_file_at uncached_key
  get_file_at-uncached_key s n m (raise x) detects le e sane = rw e refl
  get_file_at-uncached_key s n m (ok current) detects le e sane =
      rw e (refresh_key-with_id s n m current _ detects le e sane refl)

  -- If no two moments at which the key file has the same modification time and size have other
  -- contents at or between them, then a call during which the file is not replaced answers the key
  -- of the file with that key's own ID, or the error, as a call with no cache would, however the
  -- file was replaced before, also while it was being read, and whichever calls failed, also behind
  -- the assignment of the key.
  pub get_file-uncached_key :
      {n : ℕ} {s : FileKeySource c.PrivateKey} (m : ℕ)
      → Detects disk p
      → AfterCalls codec c disk p n s
      → n ≤ m
      → (get_file codec c (disk m) (disk m) s).0 ≡ uncached_key codec c (disk m) p
  unfolding get_file Sane
  get_file-uncached_key {n} {s} m detects a le =
      let sane = AfterCalls-Sane codec c disk p a in
      get_file_at-uncached_key s n m (stat (disk m) s.path) detects le (rw sane.0) sane
