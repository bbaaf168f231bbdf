-- ===== src/Examples/FileWitnesses.antt =====
-- The theorems on identity files at concrete data.
use spiffile.Prelude.{ℕ, Text, codes, [], ◌∷◌, ◌++◌, ◌≡◌, refl, text_eq, text_Eq}
use spiffile.Prelude.Dict.{Dict, lookup}
use spiffile.Codec.{ReadsBack}
use spiffile.Disk.{FilePath, file, Disk, path, read_bytes, node_at, location_eq}
use spiffile.Errors.{ok}
use spiffile.SpiffeId.{to_str}
use spiffile.BundleSource
use spiffile.KeySource.{from_file, file_source}
use spiffile.Identity.Loading.{
  env_dir, env_id_file, env_key_file, env_bundle_file, from_files, from_env,
}
use spiffile.Identity.Files.{from_files-written}
use spiffile.Provision.{service_env, load_identity}
use spiffile.Provision.Env.{from_env-load_identity}
use spiffile.Examples.Data.{orders, codec, bundle_path}
use spiffile.Examples.TokenWitnesses.{orders-IsValid}

abbrev id_path : FilePath
id_path = record { root = 1; parts = codes "run" ∷ codes "id" ∷ [] }

abbrev key_path : FilePath
key_path = record { root = 1; parts = codes "run" ∷ codes "key.pem" ∷ [] }

abbrev id_disk : Disk
id_disk = record {
  nodes =
      (
        codes "id" ∷ codes "run" ∷ [],
        file (record { bytes = to_str orders ++ b'\n' ∷ []; mtime = 1; mode = 0o644 }),
      )
      ∷ [];
  cwd = [];
}

codec-ReadsBack : ReadsBack codec
codec-ReadsBack = record { decode-encode = λ t. refl }

read_bytes-id_disk : read_bytes id_disk id_path ≡ ok (codec.encode (to_str orders ++ b'\n' ∷ []))
unfolding read_bytes node_at location_eq lookup text_eq
read_bytes-id_disk = refl

from_files-written_example :
    from_files codec {K = ℕ} id_disk id_path key_path bundle_path
    ≡ ok (record {
      id = orders;
      key_source = from_file (file_source key_path);
      bundle_source = BundleSource.source bundle_path;
    })
from_files-written_example =
    from_files-written codec {K = ℕ} id_disk id_path key_path bundle_path orders codec-ReadsBack
      orders-IsValid read_bytes-id_disk

abbrev root_path : FilePath
root_path = path (codes "/srv//spiffile/./root")

-- The directory is set too.
abbrev env : Dict Text Text
env = (env_dir, codes "/elsewhere") ∷ service_env root_path (codes "orders")

found_id : lookup env_id_file env ≡ lookup env_id_file (service_env root_path (codes "orders"))
unfolding lookup text_eq
found_id = refl

found_key : lookup env_key_file env ≡ lookup env_key_file (service_env root_path (codes "orders"))
unfolding lookup text_eq
found_key = refl

found_bundle :
    lookup env_bundle_file env ≡ lookup env_bundle_file (service_env root_path (codes "orders"))
unfolding lookup text_eq
found_bundle = refl

from_env-load_identity_example :
    from_env codec {K = ℕ} id_disk env ≡ load_identity codec id_disk root_path (codes "orders")
from_env-load_identity_example =
    from_env-load_identity codec {K = ℕ} id_disk root_path (codes "orders") env found_id found_key
      found_bundle
