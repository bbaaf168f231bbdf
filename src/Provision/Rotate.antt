-- ===== src/Provision/Rotate.antt =====
-- `rotate_service` of python/src/spiffile/provision.py.
use spiffile.Prelude.{ℕ, Text, Bool, false, some, List, [], ◌∷◌, ◌≡◌, refl, ap, ◌∙◌, text_Eq}
use spiffile.Prelude.Value.{Value, str, obj, Fields}
use spiffile.Codec.{Codec}
use spiffile.Crypto.{Crypto}
use spiffile.Disk.{FilePath, File, file, Location, location_eq, Disk, node_at, ◌//◌}
use spiffile.Disk.Action.{Host, put, >>=-ok}
use spiffile.Disk.Effects.{
  old_file, written, write_bytes-Writable, exists-some, node_at-put_self, node_at-put_ne,
}
use spiffile.Disk.Locate.{IsDirect, place}
use spiffile.Errors.{ok}
use spiffile.SpiffeId.{SpiffeId, parse, to_str}
use spiffile.Bundle.{Bundle}
use spiffile.Bundle.RoundTrip.{IsWellFormed}
use spiffile.Keys.{public_jwk}
use spiffile.Provision.{bundle_filename, key_filename}
use spiffile.Provision.Operations.{write_text, read_bundle, write_bundle, set_keys, id_text}
use spiffile.Provision.Places.{IsName, service_at, bundle_place, key_place}
use spiffile.Provision.Stored.{
  bundle_text, Stores, current, get-stored, get-file, get-IsWellFormed, insert-IsWellFormed,
}
use spiffile.Provision.Writes.{key-ne-bundle, bundle-ne-key, cwd-put, key_file_of, write_key-lem}
use spiffile.Provision.Retained.{without_kid}
use spiffile.Provision.Operations.{existing_keys, replace_key, rotate_service}
use spiffile.Provision.Layout.{IsRoot, Keeps, bound, parsed-IsBinding}

-- The service has a key file.
pub record IsService (d : Disk) (root : FilePath) (name : Text) (segments : List Text)
    : Type 0 where
  pub is_name : IsName name segments
  pub key_file : File
  pub has_key :
      node_at d (key_filename ∷ service_at (place d.cwd root) segments) ≡ some (file key_file)

-- A disk on which the key is replaced, in its file and in the bundle.
pub record Rotated (codec : Codec) (host : Host) (d d' : Disk) (root : FilePath) (dir : Location)
    (pem : List ℕ) (b' : Bundle) : Type 0 where
  pub keeps : Keeps d d' ((key_filename ∷ dir) ∷ (bundle_filename ∷ place d.cwd root) ∷ [])
  pub has_key : node_at d' (key_filename ∷ dir) ≡ some (file (key_file_of host pem))
  pub has_bundle : current codec d' root ≡ ok b'

module _ (codec : Codec) (c : Crypto) (host : Host) (d : Disk) (root : FilePath) (name : Text)
    (segments : List Text) (direct : IsDirect root) (s : IsService d root name segments)
    (keep_old : Bool) (new_key : c.PrivateKey) (b : Bundle) (id : SpiffeId) (jwk : Fields)
    (kept : List Value) (is_jwk : public_jwk codec c new_key ≡ ok jwk)
    (is_kept : without_kid jwk (existing_keys b (to_str id) keep_old) ≡ ok kept)
    (has_bundle : current codec d root ≡ ok b) where
  abbrev root_at : Location
  root_at = place d.cwd root

  abbrev dir : Location
  dir = service_at root_at segments

  abbrev with_key : Disk
  with_key = put (key_filename ∷ dir) (file (key_file_of host (c.to_pem new_key))) (
      put (key_filename ∷ dir)
        (file (written host (c.to_pem new_key) (node_at d (key_filename ∷ dir)))) d)

  abbrev rotated_disk : Disk
  rotated_disk =
      put (bundle_filename ∷ root_at)
        (file (
          written host (codec.encode (bundle_text codec (bound b id (obj jwk ∷ kept))))
            (node_at with_key (bundle_filename ∷ root_at))))
        with_key

  with_key-elsewhere :
      (here : Location)
      → location_eq (key_filename ∷ dir) here ≡ false
      → node_at with_key here ≡ node_at d here
  with_key-elsewhere here ne =
      node_at-put_ne _ key_filename dir _ here ne ∙ node_at-put_ne d key_filename dir _ here ne

  cwd-with_key : with_key.cwd ≡ d.cwd
  cwd-with_key = cwd-put _ _ _ ∙ cwd-put _ _ d

  replace_key-rotated :
      replace_key codec c host root name keep_old new_key b id d ≡ (ok id, rotated_disk)
  unfolding replace_key set_keys write_bundle write_text
  replace_key-rotated =
      let (f, e) =
        get-file codec d (root // bundle_filename) (bundle_filename ∷ root_at)
          (bundle_place d.cwd root name segments direct s.is_name d refl) b has_bundle in
      >>=-ok _ _ d
        (exists-some d _ _ (key_place d.cwd root name segments direct s.is_name d refl) _ s.has_key)
      ∙ >>=-ok _ _ d (ap (λ r. (r, d)) is_jwk)
      ∙ >>=-ok _ _ d (ap (λ r. (r, d)) is_kept)
      ∙ >>=-ok _ _ d (
          write_key-lem codec c host d _ new_key key_filename dir
            (λ d' e'. key_place d.cwd root name segments direct s.is_name d' e')
            (old_file s.key_file s.has_key))
      ∙ >>=-ok _ _ with_key (
          write_bytes-Writable host with_key _ bundle_filename root_at
            (bundle_place d.cwd root name segments direct s.is_name _ cwd-with_key) _
            (old_file f (with_key-elsewhere _ (key-ne-bundle dir root_at) ∙ e)))

  rotated_disk-Rotated :
      Stores codec (bound b id (obj jwk ∷ kept))
      → IsWellFormed (bound b id (obj jwk ∷ kept))
      → Rotated codec host d rotated_disk root dir (c.to_pem new_key) (bound b id (obj jwk ∷ kept))
  rotated_disk-Rotated stores well = record {
    keeps = record {
      cwd_is = cwd-put _ _ _ ∙ cwd-with_key;
      others = λ here n (not_key, (not_bundle, _)) e.
          node_at-put_ne _ bundle_filename root_at _ here not_bundle
          ∙ with_key-elsewhere here not_key
          ∙ e;
    };
    has_key =
        node_at-put_ne _ bundle_filename root_at _ _ (bundle-ne-key root_at dir)
        ∙ node_at-put_self _ key_filename dir _;
    has_bundle =
        get-stored codec rotated_disk (root // bundle_filename) (bundle_filename ∷ root_at)
          (bundle_place d.cwd root name segments direct s.is_name _ (cwd-put _ _ _ ∙ cwd-with_key))
          _ (bound b id (obj jwk ∷ kept)) (node_at-put_self _ bundle_filename root_at _) refl stores
          well;
  }

-- In a root with a readable bundle, a call of `rotate_service` for a service that has a key file
-- returns its ID, if the new key has a public JWK and the bundle that the call writes can be read
-- back. The key file then holds the PEM of the new key with the mode 0600, and the bundle file a
-- bundle that binds to the ID the new key, followed by what the filter keeps of the old keys, and
-- is the old one otherwise. Whatever else was on the disk is as it was.
pub rotate_service-Rotated :
    (codec : Codec) (c : Crypto) (host : Host) (d : Disk) (root : FilePath) (name : Text)
    (segments : List Text) (td : Text) (b : Bundle) (id : SpiffeId) (keep_old : Bool)
    (new_key : c.PrivateKey) (jwk : Fields) (kept : List Value)
    → IsRoot codec d root td b
    → IsService d root name segments
    → parse (str (id_text codec b name)) ≡ ok id
    → public_jwk codec c new_key ≡ ok jwk
    → without_kid jwk (existing_keys b (to_str id) keep_old) ≡ ok kept
    → Stores codec (bound b id (obj jwk ∷ kept))
    → (d' : Disk) × (rotate_service codec c host root name keep_old new_key d ≡ (ok id, d'))
      × Rotated codec host d d' root
          (service_at (place d.cwd root) segments)
          (c.to_pem new_key)
          (bound b id (obj jwk ∷ kept))
unfolding rotate_service read_bundle
rotate_service-Rotated codec c host d root name segments td b id keep_old new_key jwk kept is_root s
      parsed is_jwk is_kept stores =
    (
      rotated_disk codec c host d root name segments is_root.direct s keep_old new_key b id jwk kept
          is_jwk is_kept is_root.has_bundle,
      >>=-ok _ _ d (ap (λ r. (r, d)) is_root.has_bundle)
          ∙ >>=-ok _ _ d (ap (λ r. (r, d)) parsed)
          ∙ replace_key-rotated codec c host d root name segments is_root.direct s keep_old new_key
              b id jwk kept is_jwk is_kept is_root.has_bundle,
      rotated_disk-Rotated codec c host d root name segments is_root.direct s keep_old new_key b id
          jwk kept is_jwk is_kept is_root.has_bundle stores
          (insert-IsWellFormed b (to_str id) (obj jwk ∷ kept)
            (get-IsWellFormed codec d (root // bundle_filename) b is_root.has_bundle)
            (parsed-IsBinding codec b td name id (obj jwk ∷ kept) is_root.is_text is_root.domain
              parsed (λ h. cc))),
    )
