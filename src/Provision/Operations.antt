-- ===== src/Provision/Operations.antt =====
-- python/src/spiffile/provision.py: `init_root`, `add_service`, `rotate_service` and
-- `remove_service`, as calls on the disk.
use spiffile.Prelude.{
  Text, codes, Bool, not, Option, none, some, List, [], ◌∷◌, ◌++◌, text_Eq, if◌then◌else◌,
}
use spiffile.Prelude.Dict.{lookup, insert, erase}
use spiffile.Prelude.Value.{Value, str, obj}
use spiffile.Codec.{Codec}
use spiffile.Crypto.{Crypto}
use spiffile.Disk.{FilePath, ◌//◌}
use spiffile.Disk.Action.{
  Action, pure, fail, look, lift, when, ◌>>=◌, ◌>>◌, Host, exists, write_bytes, chmod, unlink,
  rmdir, mkdir,
}
use spiffile.Errors.{plain, already_initialized, unknown_service}
use spiffile.SpiffeId.{SpiffeId, parse, to_str}
use spiffile.Bundle.{Bundle, to_dict}
use spiffile.BundleSource
use spiffile.Keys.{public_jwk, private_key_to_pem}
use spiffile.Provision.Retained.{without_kid}
use spiffile.Provision.{bundle_filename, services_dirname, id_filename, key_filename, service_dir}

-- The text of a value in an f-string: a str as it is.
abbrev pub format : (Value → Text) → Value → Text
format py_str (str t) = t
format py_str v = py_str v

abbrev get_or {ℓ} : {A : Type ℓ} → A → Option A → A
get_or a none = a
get_or a (some b) = b

module _ (codec : Codec) where
  -- `_read_bundle`: the source is new, so nothing is cached.
  unfoldable pub read_bundle : FilePath → Action Bundle
  read_bundle root =
      look λ d. (BundleSource.get codec d d (BundleSource.source (root // bundle_filename))).0

  -- `f"spiffe://{bundle.trust_domain}/{name}"`
  unfoldable pub id_text : Bundle → Text → Text
  id_text bundle name =
      codes "spiffe://" ++ (format codec.py_str bundle.trust_domain ++ b'/' ∷ name)

module _ (codec : Codec) (host : Host) where
  unfoldable pub write_text : FilePath → Text → Action (Unit {0})
  write_text p text = write_bytes host p (codec.encode text)

  unfoldable pub write_bundle : FilePath → Bundle → Action (Unit {0})
  unfolding write_text
  write_bundle p bundle = write_text p (codec.dumps (to_dict bundle) ++ b'\n' ∷ [])

  unfoldable pub set_keys : FilePath → Bundle → Text → List Value → Action (Unit {0})
  unfolding write_bundle
  set_keys root bundle spiffe_id keys =
      write_bundle (root // bundle_filename)
        (record bundle { identities = insert spiffe_id keys bundle.identities })

  unfoldable pub init_root : FilePath → Text → Action FilePath
  unfolding write_bundle
  init_root root trust_domain = do
    let bundle_path = root // bundle_filename
    found ← exists bundle_path
    when found (fail (plain already_initialized)) do
      mkdir host (root // services_dirname)
      write_bundle bundle_path (record { trust_domain = str trust_domain; identities = [] })
      pure root

-- `bundle.identities.get(str(spiffe_id), []) if keep_old else []`
unfoldable pub existing_keys : Bundle → Text → Bool → List Value
existing_keys bundle spiffe_id keep_old =
    if keep_old then get_or [] (lookup spiffe_id bundle.identities) else []

module _ (codec : Codec) (c : Crypto) (host : Host) where
  abbrev key_file : FilePath → Text → FilePath
  key_file root name = service_dir root name // key_filename

  -- `key_path.write_bytes(private_key_to_pem(key)); key_path.chmod(0o600)`
  unfoldable pub write_key : FilePath → c.PrivateKey → Action (Unit {0})
  write_key p key = do write_bytes host p (private_key_to_pem c key); chmod p 0o600

  -- `add_service`, from the test of the key file on.
  unfoldable pub register : FilePath → Text → c.PrivateKey → Bundle → SpiffeId → Action SpiffeId
  unfolding write_key write_text set_keys service_dir
  register root name new_key bundle spiffe_id = do
    found ← exists (key_file root name)
    when found (pure spiffe_id) do
      mkdir host (service_dir root name)
      write_key (key_file root name) new_key
      write_text codec host (service_dir root name // id_filename) (to_str spiffe_id ++ b'\n' ∷ [])
      jwk ← lift (public_jwk codec c new_key)
      set_keys codec host root bundle (to_str spiffe_id) (obj jwk ∷ [])
      pure spiffe_id

  -- `add_service`; `new_key` is what `generate_private_key` returns if it is called.
  unfoldable pub add_service : FilePath → Text → c.PrivateKey → Action SpiffeId
  unfolding register read_bundle id_text
  add_service root name new_key = do
    bundle ← read_bundle codec root
    spiffe_id ← lift (parse (str (id_text codec bundle name)))
    register root name new_key bundle spiffe_id

  -- `rotate_service`, from the test of the key file on.
  unfoldable pub replace_key :
      FilePath → Text → Bool → c.PrivateKey → Bundle → SpiffeId → Action SpiffeId
  unfolding write_key set_keys service_dir existing_keys
  replace_key root name keep_old new_key bundle spiffe_id = do
    found ← exists (key_file root name)
    when (not found) (fail (plain unknown_service)) do
      new_jwk ← lift (public_jwk codec c new_key)
      kept ← lift (without_kid new_jwk (existing_keys bundle (to_str spiffe_id) keep_old))
      write_key (key_file root name) new_key
      set_keys codec host root bundle (to_str spiffe_id) (obj new_jwk ∷ kept)
      pure spiffe_id

  unfoldable pub rotate_service : FilePath → Text → Bool → c.PrivateKey → Action SpiffeId
  unfolding replace_key read_bundle id_text
  rotate_service root name keep_old new_key = do
    bundle ← read_bundle codec root
    spiffe_id ← lift (parse (str (id_text codec bundle name)))
    replace_key root name keep_old new_key bundle spiffe_id

module _ (codec : Codec) (host : Host) where
  -- `if service_dir.exists(): service_dir.rmdir()`
  unfoldable pub remove_folder : FilePath → Action (Unit {0})
  remove_folder p = do found ← exists p; when found (rmdir p) (pure tt)

  unfoldable pub remove_service : FilePath → Text → Action (Unit {0})
  unfolding write_bundle remove_folder read_bundle id_text service_dir
  remove_service root name = do
    bundle ← read_bundle codec root
    write_bundle codec host (root // bundle_filename)
        (record bundle { identities = erase (id_text codec bundle name) bundle.identities })
    unlink (service_dir root name // id_filename)
    unlink (service_dir root name // key_filename)
    remove_folder (service_dir root name)
