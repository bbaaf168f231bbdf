-- ===== src/Provision/Env.antt =====
-- The variables of `service_env` (python/src/spiffile/provision.py) under `Identity.from_env`
-- (python/src/spiffile/identity.py).
use spiffile.Prelude.{Text, some, [], ◌∷◌, ◌≡◌, ◌≢◌, refl, text_Eq, text_eq}
use spiffile.Prelude.Dict.{Dict, lookup}
use spiffile.Codec.{Codec}
use spiffile.Disk.{FilePath, path, path_str, ◌//◌, Disk}
use spiffile.Disk.Paths.{IsPure, //-IsPure, path-path_str, path_str-nonempty}
use spiffile.Identity.Loading.{
  env_id_file, env_key_file, env_bundle_file, from_files, from_env, configured, nonempty,
}
use spiffile.Provision.{
  bundle_filename, services_dirname, id_filename, key_filename, service_dir, service_env, variable,
  load_identity,
}

nonempty-some : (text : Text) → text ≢ [] → nonempty (some text) ≡ some text
nonempty-some [] ne = absurd (ne refl)
nonempty-some (c ∷ text) ne = refl

-- A variable that is set to a path wins over the directory.
configured-explicit :
    (env : Dict Text Text) (name filename : Text) (p : FilePath)
    → lookup name env ≡ some (path_str p)
    → configured env name filename ≡ some (path (path_str p))
unfolding configured
configured-explicit env name filename p e =
    rw (e, nonempty-some (path_str p) (path_str-nonempty p)) refl

module _ (codec : Codec) {K : Type 0} (d : Disk) (root : FilePath) (name : Text) where
  -- `load_identity` reads `services/<name>/id` below the root, and remembers the paths of the key
  -- file beside it and of the bundle in the root.
  pub load_identity-from_files :
      IsPure root
      → load_identity codec {K = K} d root name
        ≡ from_files codec d
            (service_dir root name // id_filename)
            (service_dir root name // key_filename)
            (root // bundle_filename)
  unfolding load_identity service_env variable lookup text_eq service_dir
  load_identity-from_files pure =
      let dir = //-IsPure (root // services_dirname) name (//-IsPure root services_dirname pure) in
      rw
        (
          path-path_str _ (//-IsPure _ id_filename dir),
          path-path_str _ (//-IsPure _ key_filename dir),
          path-path_str _ (//-IsPure root bundle_filename pure),
        )
        refl

  -- In an environment that has the variables of `service_env`, whatever else it sets,
  -- `SPIFFILE_DIR` included, `from_env` answers what `load_identity` does.
  pub from_env-load_identity :
      (env : Dict Text Text)
      → lookup env_id_file env ≡ lookup env_id_file (service_env root name)
      → lookup env_key_file env ≡ lookup env_key_file (service_env root name)
      → lookup env_bundle_file env ≡ lookup env_bundle_file (service_env root name)
      → from_env codec {K = K} d env ≡ load_identity codec d root name
  unfolding from_env load_identity service_env variable service_dir lookup text_eq
  from_env-load_identity env id_file key_file bundle_file =
      rw
        (
          configured-explicit env env_id_file _ (service_dir root name // id_filename) id_file,
          configured-explicit env env_key_file _ (service_dir root name // key_filename) key_file,
          configured-explicit env env_bundle_file _ (root // bundle_filename) bundle_file,
        )
        refl
