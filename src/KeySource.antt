-- ===== src/KeySource.antt =====
-- python/src/spiffile/identity.py, the classes `_StaticKeySource` and `_FileKeySource`: where the
-- signing key comes from.
pub mod Cache
pub mod Fresh
pub mod Reading
use spiffile.Prelude.{Text, Option, none, some, [], if◌then◌else◌}
use spiffile.Codec.{Codec}
use spiffile.Crypto.{Crypto}
use spiffile.Disk.{FilePath, Stat, stat_eq, Disk, stat, read_bytes}
use spiffile.Errors.{Result, ok, raise, ◌>>=◌}
use spiffile.Keys.{private_key_from_pem, key_id}

-- The attributes `_path`, `_stat`, `_key` and `_kid`.
pub record FileKeySource (K : Type 0) : Type 0 where
  pub path : FilePath
  pub stat : Option Stat
  pub key : Option K
  pub kid : Text

-- `_StaticKeySource`'s `_key` and `_kid`, or a `_FileKeySource`
pub data KeySource (K : Type 0) : Type 0 where
  static : K → Text → KeySource K
  from_file : FileKeySource K → KeySource K

abbrev pub file_source : {K : Type 0} → FilePath → FileKeySource K
file_source path = record { path = path; stat = none; key = none; kid = [] }

-- The key that the cache has for a file with this stat.
unfoldable pub cached_key : {K : Type 0} → Option K → Option Stat → Stat → Option K
cached_key (some key) (some old) current = if stat_eq current old then some key else none
cached_key _ _ current = none

module _ (codec : Codec) (c : Crypto) where
  abbrev Answer : Type 0
  Answer = Result (c.PrivateKey × Text) × FileKeySource c.PrivateKey

  -- `_StaticKeySource(private_key)`
  unfoldable pub static_source : c.PrivateKey → Result (KeySource c.PrivateKey)
  static_source key = key_id codec c key >>= λ kid. ok (static key kid)

  -- The assignments of `_kid` and `_stat`: `_key` is set before, and stays so if these fail.
  unfoldable pub set_kid : FileKeySource c.PrivateKey → Stat → c.PrivateKey → Result Text → Answer
  set_kid s current key (ok kid) =
      (ok (key, kid), record s { stat = some current; key = some key; kid = kid })
  set_kid s current key (raise e) = (raise e, record s { key = some key })

  unfoldable pub set_key : FileKeySource c.PrivateKey → Stat → Result c.PrivateKey → Answer
  unfolding set_kid
  set_key s current (ok key) = set_kid s current key (key_id codec c key)
  set_key s current (raise e) = (raise e, s)

  unfoldable pub load_key : Disk → FilePath → Result c.PrivateKey
  load_key d p = do pem ← read_bytes d p; private_key_from_pem codec c pem

  unfoldable pub refresh_key :
      FileKeySource c.PrivateKey → Disk → Stat → Option c.PrivateKey → Answer
  unfolding set_key load_key
  refresh_key s at_read current (some key) = (ok (key, s.kid), s)
  refresh_key s at_read current none = set_key s current (load_key at_read s.path)

  unfoldable pub get_file_at : FileKeySource c.PrivateKey → Disk → Result Stat → Answer
  unfolding refresh_key cached_key
  get_file_at s at_read (raise e) = (raise e, s)
  get_file_at s at_read (ok current) =
      refresh_key s at_read current (cached_key s.key s.stat current)

  -- `_FileKeySource.get`, on the disk at `os.stat` and when the file is read.
  unfoldable pub get_file : Disk → Disk → FileKeySource c.PrivateKey → Answer
  unfolding get_file_at
  get_file at_stat at_read s = get_file_at s at_read (stat at_stat s.path)

  abbrev as_source : Answer → Result (c.PrivateKey × Text) × KeySource c.PrivateKey
  as_source (r, s) = (r, from_file s)

  unfoldable pub get_key :
      Disk → Disk → KeySource c.PrivateKey → Result (c.PrivateKey × Text) × KeySource c.PrivateKey
  unfolding get_file
  get_key at_stat at_read (static key kid) = (ok (key, kid), static key kid)
  get_key at_stat at_read (from_file s) = as_source (get_file at_stat at_read s)
