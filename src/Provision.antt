-- ===== src/Provision.antt =====
-- python/src/spiffile/provision.py, the names of the files of a provisioned root: `service_env` and
-- `load_identity`.
pub mod Env
pub mod Retained
pub mod Operations
pub mod Places
pub mod Stored
pub mod Writes
pub mod Layout
pub mod Init
pub mod Add
pub mod Vacancy
pub mod Again
pub mod Rotate
pub mod Complete
pub mod Remove
pub mod Loaded
pub mod Use
pub mod Room
pub mod Renewal
pub mod Revocation
pub mod Registry
pub mod Runs
pub mod Lifetime
pub mod Origin
use spiffile.Prelude.{Text, codes, List, [], ◌∷◌}
use spiffile.Prelude.Dict.{Dict, lookup}
use spiffile.Prelude.{text_Eq}
use spiffile.Codec.{Codec}
use spiffile.Disk.{FilePath, path, path_str, ◌//◌, Disk}
use spiffile.Errors.{key_error, Result, from_option, ◌>>=◌}
use spiffile.Identity.{Identity}
use spiffile.Identity.Loading.{env_id_file, env_key_file, env_bundle_file, from_files}

abbrev pub bundle_filename : Text
bundle_filename = codes "bundle.json"

abbrev pub services_dirname : Text
services_dirname = codes "services"

abbrev pub id_filename : Text
id_filename = codes "id"

abbrev pub key_filename : Text
key_filename = codes "key.pem"

unfoldable pub service_dir : FilePath → Text → FilePath
service_dir root name = root // services_dirname // name

unfoldable pub service_env : FilePath → Text → Dict Text Text
unfolding service_dir
service_env root name =
    (env_id_file, path_str (service_dir root name // id_filename))
    ∷ (env_key_file, path_str (service_dir root name // key_filename))
    ∷ (env_bundle_file, path_str (root // bundle_filename))
    ∷ []

-- `env[name]`
unfoldable pub variable : Dict Text Text → Text → Result Text
variable env name = from_option (lookup name env) key_error

unfoldable pub load_identity : Codec → {K : Type 0} → Disk → FilePath → Text → Result (Identity K)
unfolding service_env variable
load_identity codec d root name = do
  let env = service_env root name
  id_file ← variable env env_id_file
  key_file ← variable env env_key_file
  bundle_file ← variable env env_bundle_file
  from_files codec d (path id_file) (path key_file) (path bundle_file)
