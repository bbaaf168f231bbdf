-- ===== src/Identity/Loading.antt =====
-- python/src/spiffile/identity.py, `Identity.from_files` and `Identity.from_env`: how an identity
-- finds its files.
use spiffile.Prelude.{Text, codes, Option, none, some, ◌∷◌}
use spiffile.Prelude.Dict.{Dict, lookup}
use spiffile.Prelude.Value.{str}
use spiffile.Prelude.{strip, text_Eq}
use spiffile.Codec.{Codec}
use spiffile.Crypto.{Crypto}
use spiffile.Disk.{FilePath, path, ◌//◌, Disk, read_bytes}
use spiffile.Errors.{plain, not_configured, unicode_error, Result, ok, from_option, ◌>>=◌}
use spiffile.SpiffeId.{SpiffeId, parse}
use spiffile.BundleSource
use spiffile.KeySource.{FileKeySource, from_file, file_source, static_source}
use spiffile.Identity.{Identity}

abbrev pub env_dir : Text
env_dir = codes "SPIFFILE_DIR"

abbrev pub env_id_file : Text
env_id_file = codes "SPIFFILE_ID_FILE"

abbrev pub env_key_file : Text
env_key_file = codes "SPIFFILE_KEY_FILE"

abbrev pub env_bundle_file : Text
env_bundle_file = codes "SPIFFILE_BUNDLE_FILE"

abbrev pub dir_id_filename : Text
dir_id_filename = codes "id"

abbrev pub dir_key_filename : Text
dir_key_filename = codes "key.pem"

abbrev pub dir_bundle_filename : Text
dir_bundle_filename = codes "bundle.json"

-- `private_key`, as `Identity` is given it.
pub data KeyArgument (K : Type 0) : Type 0 where
  private_key : K → KeyArgument K
  key_file_source : FileKeySource K → KeyArgument K

-- `Identity(id, private_key, bundle_source)`
unfoldable pub construct :
    Codec
    → (c : Crypto) → SpiffeId
    → KeyArgument c.PrivateKey
    → BundleSource.FileBundleSource
    → Result (Identity c.PrivateKey)
construct codec c id (key_file_source s) bundle_source =
    ok (record { id = id; key_source = from_file s; bundle_source = bundle_source })
construct codec c id (private_key key) bundle_source = do
  source ← static_source codec c key
  ok (record { id = id; key_source = source; bundle_source = bundle_source })

-- `Path(id_file).read_text()`
unfoldable pub read_text : Codec → Disk → FilePath → Result Text
read_text codec d p = do bytes ← read_bytes d p; from_option (codec.decode bytes) unicode_error

-- `from_files`: the key and the bundle are not read yet.
unfoldable pub from_files :
    Codec → {K : Type 0} → Disk → FilePath → FilePath → FilePath → Result (Identity K)
unfolding read_text
from_files codec d id_file key_file bundle_file = do
  id_text ← read_text codec d id_file
  id ← parse (str (strip id_text))
  ok (record {
    id = id;
    key_source = from_file (file_source key_file);
    bundle_source = BundleSource.source bundle_file;
  })

-- A value that `or` and `and` take for true.
abbrev pub nonempty : Option Text → Option Text
nonempty (some (c ∷ s)) = some (c ∷ s)
nonempty _ = none

abbrev in_directory : Option Text → Text → Option FilePath
in_directory none filename = none
in_directory (some directory) filename = some (path directory // filename)

abbrev explicit_or : Option Text → Option FilePath → Option FilePath
explicit_or none fallback = fallback
explicit_or (some text) fallback = some (path text)

-- `env.get(name) or (directory and Path(directory) / filename)`, where it is true
unfoldable pub configured : Dict Text Text → Text → Text → Option FilePath
configured env name filename =
    explicit_or (nonempty (lookup name env)) (in_directory (nonempty (lookup env_dir env)) filename)

-- `if not (id_file and key_file and bundle_file): raise …`
abbrev pub present_file : Option FilePath → Result FilePath
present_file o = from_option o (plain not_configured)

-- `from_env`, on the environment that it is given or the one of the process.
unfoldable pub from_env : Codec → {K : Type 0} → Disk → Dict Text Text → Result (Identity K)
unfolding configured
from_env codec d env = do
  id_file ← present_file (configured env env_id_file dir_id_filename)
  key_file ← present_file (configured env env_key_file dir_key_filename)
  bundle_file ← present_file (configured env env_bundle_file dir_bundle_filename)
  from_files codec d id_file key_file bundle_file
