-- ===== src/KeySource/Cache.antt =====
-- What the cache of `_FileKeySource` (python/src/spiffile/identity.py) holds while other processes
-- replace the key file. A key whose ID cannot be computed is stored, with the stat and the ID of
-- the key before it.
use spiffile.Prelude.{ℕ, ◌≤◌, Text, Option, none, some, ◌≡◌, refl, arith}
use spiffile.Codec.{Codec}
use spiffile.Crypto.{Crypto}
use spiffile.Disk.{FilePath, Stat, Disk, stat}
use spiffile.Errors.{Result, ok, raise}
use spiffile.Keys.{key_id}
use spiffile.KeySource.{
  FileKeySource, file_source, load_key, set_kid, set_key, refresh_key, get_file_at, get_file,
}

module _ (codec : Codec) (c : Crypto) (disk : ℕ → Disk) (p : FilePath) where
  -- The source at a moment, after some calls of `get`, each with its stat and its later read.
  pub data AfterCalls : ℕ → FileKeySource c.PrivateKey → Type 0 where
    made : {n : ℕ} → AfterCalls n (file_source p)
    asked :
        {n : ℕ} {s t : FileKeySource c.PrivateKey} (i j : ℕ)
        → AfterCalls n s
        → n ≤ i
        → i ≤ j
        → t ≡ (get_file codec c (disk i) (disk j) s).1
        → AfterCalls j t

  -- What a full cache holds: the stat of one moment, a key of a later one, and the ID of the key of
  -- a later one.
  pub record Holds (n : ℕ) (st : Stat) (key : c.PrivateKey) (kid : Text) : Type 0 where
    pub stat_at : ℕ
    pub key_at : ℕ
    pub kid_at : ℕ
    pub owner : c.PrivateKey
    pub before_key : stat_at ≤ key_at
    pub key_past : key_at ≤ n
    pub before_kid : stat_at ≤ kid_at
    pub kid_past : kid_at ≤ n
    pub has_stat : stat (disk stat_at) p ≡ ok st
    pub has_key : load_key codec c (disk key_at) p ≡ ok key
    pub has_owner : load_key codec c (disk kid_at) p ≡ ok owner
    pub has_kid : key_id codec c owner ≡ ok kid

  abbrev pub KeyInv : ℕ → Option Stat → Option c.PrivateKey → Text → Type 0
  KeyInv n none key kid = Unit
  KeyInv n (some st) none kid = ⊥
  KeyInv n (some st) (some key) kid = Holds n st key kid

  unfoldable pub Sane : ℕ → FileKeySource c.PrivateKey → Type 0
  Sane n s = (s.path ≡ p) × KeyInv n s.stat s.key s.kid

  KeyInv-later :
      (n m : ℕ) (st : Option Stat) (key : Option c.PrivateKey) (kid : Text)
      → n ≤ m
      → KeyInv n st key kid
      → KeyInv m st key kid
  KeyInv-later n m none key kid le h = tt
  KeyInv-later n m (some st) none kid le h = h
  KeyInv-later n m (some st) (some key) kid le h = record {
    stat_at = h.stat_at;
    key_at = h.key_at;
    kid_at = h.kid_at;
    owner = h.owner;
    before_key = h.before_key;
    key_past = omega (arith, h.key_past);
    before_kid = h.before_kid;
    kid_past = omega (arith, h.kid_past);
    has_stat = h.has_stat;
    has_key = h.has_key;
    has_owner = h.has_owner;
    has_kid = h.has_kid;
  }

  -- The key alone is replaced.
  KeyInv-replaced :
      (n j : ℕ) (st : Option Stat) (old : Option c.PrivateKey) (kid : Text) (key : c.PrivateKey)
      → n ≤ j
      → load_key codec c (disk j) p ≡ ok key
      → KeyInv n st old kid
      → KeyInv j st (some key) kid
  KeyInv-replaced n j none old kid key le loaded h = tt
  KeyInv-replaced n j (some st) none kid key le loaded h = absurd h
  KeyInv-replaced n j (some st) (some old) kid key le loaded h = record {
    stat_at = h.stat_at;
    key_at = j;
    kid_at = h.kid_at;
    owner = h.owner;
    before_key = omega (arith, h.before_key, h.key_past);
    key_past = omega arith;
    before_kid = h.before_kid;
    kid_past = omega (arith, h.kid_past);
    has_stat = h.has_stat;
    has_key = loaded;
    has_owner = h.has_owner;
    has_kid = h.has_kid;
  }

  module _ (s : FileKeySource c.PrivateKey) (n i j : ℕ) (current : Stat) (le : n ≤ i) (le' : i ≤ j)
      (seen : stat (disk i) p ≡ ok current) where
    set_kid-Sane :
        (key : c.PrivateKey) (r : Result Text)
        → load_key codec c (disk j) p ≡ ok key
        → key_id codec c key ≡ r
        → Sane n s
        → Sane j (set_kid codec c s current key r).1
    unfolding set_kid Sane
    set_kid-Sane key (ok kid) loaded e (path_is, inv) = (
      path_is,
      record {
        stat_at = i;
        key_at = j;
        kid_at = j;
        owner = key;
        before_key = le';
        key_past = omega arith;
        before_kid = le';
        kid_past = omega arith;
        has_stat = seen;
        has_key = loaded;
        has_owner = loaded;
        has_kid = e;
      },
    )
    set_kid-Sane key (raise x) loaded e (path_is, inv) =
        (path_is, KeyInv-replaced n j s.stat s.key s.kid key (omega arith) loaded inv)

    set_key-Sane :
        (r : Result c.PrivateKey)
        → load_key codec c (disk j) p ≡ r
        → Sane n s
        → Sane j (set_key codec c s current r).1
    unfolding set_key
    set_key-Sane (ok key) loaded sane = set_kid-Sane key (key_id codec c key) loaded refl sane
    set_key-Sane (raise x) loaded sane =
        unfold Sane in (sane.0, KeyInv-later n j s.stat s.key s.kid (omega arith) sane.1)

    refresh_key-Sane :
        (hit : Option c.PrivateKey)
        → Sane n s
        → Sane j (refresh_key codec c s (disk j) current hit).1
    unfolding refresh_key Sane
    refresh_key-Sane (some key) (path_is, inv) =
        (path_is, KeyInv-later n j s.stat s.key s.kid (omega arith) inv)
    refresh_key-Sane none sane = set_key-Sane (load_key codec c (disk j) s.path) (rw sane.0) sane

  get_file_at-Sane :
      (s : FileKeySource c.PrivateKey) (n i j : ℕ) (r : Result Stat)
      → n ≤ i
      → i ≤ j
      → stat (disk i) p ≡ r
      → Sane n s
      → Sane j (get_file_at codec c s (disk j) r).1
  unfolding get_file_at
  get_file_at-Sane s n i j (ok current) le le' e sane =
      refresh_key-Sane s n i j current le le' e _ sane
  get_file_at-Sane s n i j (raise x) le le' e sane =
      unfold Sane in (sane.0, KeyInv-later n j s.stat s.key s.kid (omega arith) sane.1)

  pub AfterCalls-Sane : {n : ℕ} {s : FileKeySource c.PrivateKey} → AfterCalls n s → Sane n s
  unfolding Sane get_file
  AfterCalls-Sane made = (refl, tt)
  AfterCalls-Sane (asked {n} {s} i j a le le' e) =
      let sane = AfterCalls-Sane a in
      rw e (get_file_at-Sane s n i j (stat (disk i) s.path) le le' (rw sane.0) sane)
