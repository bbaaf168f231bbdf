-- ===== src/Provision/Loaded.antt =====
-- What `load_identity` (python/src/spiffile/provision.py) and the key source of its identity make
-- of the files that `add_service` and `rotate_service` write.
use spiffile.Prelude.{Text, codes, some, [], ◌∷◌, ◌++◌, ◌≡◌, refl, ◌∙◌, text_Eq, List}
use spiffile.Prelude.Value.{str, Fields, get}
use spiffile.Codec.{Codec, ReadsBack}
use spiffile.Crypto.{Crypto}
use spiffile.Disk.{FilePath, File, file, Location, Disk, node_at, node, read_bytes, ◌//◌}
use spiffile.Disk.Locate.{IsDirect, place}
use spiffile.Disk.Paths.{IsPure}
use spiffile.Errors.{ok}
use spiffile.SpiffeId.{SpiffeId, to_str}
use spiffile.SpiffeId.Grammar.{IsValid}
use spiffile.BundleSource
use spiffile.Keys.{public_jwk, key_id, item}
use spiffile.KeySource.{from_file, file_source}
use spiffile.Identity.{Identity}
use spiffile.Identity.Files.{from_files-written}
use spiffile.Provision.{bundle_filename, id_filename, key_filename, service_dir, load_identity}
use spiffile.Provision.Env.{load_identity-from_files}
use spiffile.Provision.Places.{IsName, service_at, id_place}

-- The `kid` of a JWK is what `key_id` returns.
pub key_id-public_jwk :
    (codec : Codec) (c : Crypto) (key : c.PrivateKey) (jwk : Fields) (kid : Text)
    → public_jwk codec c key ≡ ok jwk
    → get (codes "kid") jwk ≡ some (str kid)
    → key_id codec c key ≡ ok kid
unfolding key_id item
key_id-public_jwk codec c key jwk kid is_jwk has_kid = rw (is_jwk, has_kid) refl

-- The identity of a service, before it has read its key or the bundle.
abbrev pub identity_of : {K : Type 0} → FilePath → Text → SpiffeId → Identity K
identity_of root name id = record {
  id = id;
  key_source = from_file (file_source (service_dir root name // key_filename));
  bundle_source = BundleSource.source (root // bundle_filename);
}

pub load_identity-written :
    (codec : Codec) {K : Type 0} (d : Disk) (cwd : Location) (root : FilePath) (name : Text)
    (segments : List Text) (id : SpiffeId) (f : File)
    → ReadsBack codec
    → IsPure root
    → IsDirect root
    → IsName name segments
    → IsValid id
    → d.cwd ≡ cwd
    → node_at d (id_filename ∷ service_at (place cwd root) segments) ≡ some (file f)
    → f.bytes ≡ codec.encode (to_str id ++ b'\n' ∷ [])
    → load_identity codec {K = K} d root name ≡ ok (identity_of root name id)
load_identity-written codec {K} d cwd root name segments id f back pure direct is_name valid same
      is_file bytes =
    load_identity-from_files codec {K = K} d root name pure
    ∙ from_files-written codec {K = K} d _ _ _ id back valid (
        unfold read_bytes node in
        rw (id_place cwd root name segments direct is_name d same, is_file, bytes) refl)
