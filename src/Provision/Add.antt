-- ===== src/Provision/Add.antt =====
-- `add_service` of python/src/spiffile/provision.py, for a new service.
use spiffile.Prelude.{
  Text, true, false, some, List, [], ◌∷◌, ◌++◌, ◌≡◌, refl, ap, ◌∙◌, arith, text_Eq,
}
use spiffile.Prelude.Value.{str, obj, Fields}
use spiffile.Codec.{Codec}
use spiffile.Crypto.{Crypto}
use spiffile.Disk.{
  FilePath, file, Location, location_eq, Disk, node_at, is_folder, behind_file, ◌//◌,
}
use spiffile.Disk.Action.{Host, put, mkdir, >>=-ok}
use spiffile.Disk.Effects.{
  Writable, old_file, new_file, written, write_bytes-Writable, exists-none, node_at-put_self,
  node_at-put_ne,
}
use spiffile.Disk.Folders.{Grows, mkdir-Grows, no_deeper}
use spiffile.Disk.Locate.{IsDirect, place}
use spiffile.Errors.{ok}
use spiffile.SpiffeId.{SpiffeId, parse, to_str}
use spiffile.Bundle.{Bundle}
use spiffile.Bundle.RoundTrip.{IsWellFormed}
use spiffile.Keys.{public_jwk}
use spiffile.Provision.{bundle_filename, id_filename, key_filename, service_dir}
use spiffile.Provision.Operations.{
  write_text, read_bundle, write_bundle, set_keys, id_text, register, add_service,
}
use spiffile.Provision.Places.{
  service_at, bundle_place, dir_place, key_place, id_place, service_dir-IsDirect, place-service_dir,
}
use spiffile.Provision.Stored.{
  bundle_text, Stores, current, get-stored, get-file, get-IsWellFormed, insert-IsWellFormed,
}
use spiffile.Provision.Writes.{
  key-ne-id, key-ne-bundle, id-ne-bundle, bundle-ne-key, bundle-ne-id, id-ne-key, cwd-put,
  key_file_of, write_key-lem,
}
use spiffile.Disk.{is_file}
use spiffile.Disk.Folders.{Grows-is_file}
use spiffile.Provision.Layout.{
  IsRoot, IsVacant, Keeps, Adds, Elsewhere, places, Added, child-ne, bound, parsed-IsBinding,
}

module _ (codec : Codec) (c : Crypto) (host : Host) (d : Disk) (root : FilePath) (name : Text)
    (segments : List Text) (direct : IsDirect root) (vacant : IsVacant d root name segments)
    (new_key : c.PrivateKey) (b : Bundle) (id : SpiffeId) (jwk : Fields)
    (is_jwk : public_jwk codec c new_key ≡ ok jwk) (has_bundle : current codec d root ≡ ok b) where
  abbrev root_at : Location
  root_at = place d.cwd root

  abbrev dir : Location
  dir = service_at root_at segments

  -- The disk once the folder is made, and then once each file is written.
  abbrev with_key : Disk → Disk
  with_key d1 = put (key_filename ∷ dir) (file (key_file_of host (c.to_pem new_key))) (
      put (key_filename ∷ dir)
        (file (written host (c.to_pem new_key) (node_at d1 (key_filename ∷ dir)))) d1)

  abbrev with_id : Disk → Disk
  with_id d3 =
      put (id_filename ∷ dir)
        (file
          (written host (codec.encode (to_str id ++ b'\n' ∷ [])) (node_at d3 (id_filename ∷ dir))))
        d3

  abbrev with_bundle : Disk → Disk
  with_bundle d4 =
      put (bundle_filename ∷ root_at)
        (file (
          written host (codec.encode (bundle_text codec (bound b id (obj jwk ∷ []))))
            (node_at d4 (bundle_filename ∷ root_at))))
        d4

  abbrev added_disk : Disk → Disk
  added_disk d1 = with_bundle (with_id (with_key d1))

  module _ (d1 : Disk) (grows : Grows d d1 dir) (is_dir : is_folder (node_at d1 dir) ≡ true) where
    -- What stands elsewhere is not touched.
    with_key-elsewhere :
        (here : Location)
        → location_eq (key_filename ∷ dir) here ≡ false
        → node_at (with_key d1) here ≡ node_at d1 here
    with_key-elsewhere here ne =
        node_at-put_ne _ key_filename dir _ here ne ∙ node_at-put_ne d1 key_filename dir _ here ne

    cwd-with_key : (with_key d1).cwd ≡ d.cwd
    cwd-with_key = cwd-put _ _ _ ∙ cwd-put _ _ d1 ∙ grows.cwd_is

    key_Writable : Writable d1 key_filename dir
    key_Writable = new_file (no_deeper d d1 dir _ grows vacant.no_key (omega arith)) is_dir

    id_Writable : Writable (with_key d1) id_filename dir
    id_Writable =
        new_file
          (with_key-elsewhere _ (key-ne-id dir dir)
            ∙ no_deeper d d1 dir _ grows vacant.no_id (omega arith))
          (ap is_folder (with_key-elsewhere dir (child-ne key_filename dir)) ∙ is_dir)

    bundle_Writable : Writable (with_id (with_key d1)) bundle_filename root_at
    bundle_Writable =
        let (f, e) =
          get-file codec d (root // bundle_filename) (bundle_filename ∷ root_at)
            (bundle_place d.cwd root name segments direct vacant.is_name d refl) b has_bundle in
        old_file f (
          node_at-put_ne _ id_filename dir _ _ (id-ne-bundle dir root_at)
          ∙ with_key-elsewhere _ (key-ne-bundle dir root_at)
          ∙ grows.kept _ _ e)

    register-added :
        mkdir host (service_dir root name) d ≡ (ok tt, d1)
        → register codec c host root name new_key b id d ≡ (ok id, added_disk d1)
    unfolding register write_text set_keys write_bundle
    register-added made =
        >>=-ok _ _ d (
          exists-none d _ _ (key_place d.cwd root name segments direct vacant.is_name d refl)
            vacant.no_key)
        ∙ >>=-ok _ _ d made
        ∙ >>=-ok _ _ d1 (
            write_key-lem codec c host d1 _ new_key key_filename dir
              (λ d' e.
                key_place d.cwd root name segments direct vacant.is_name d' (e ∙ grows.cwd_is))
              key_Writable)
        ∙ >>=-ok _ _ (with_key d1) (
            write_bytes-Writable host (with_key d1) _ id_filename dir
              (id_place d.cwd root name segments direct vacant.is_name _ cwd-with_key) _
              id_Writable)
        ∙ >>=-ok _ _ (with_id (with_key d1)) (ap (λ r. (r, with_id (with_key d1))) is_jwk)
        ∙ >>=-ok _ _ (with_id (with_key d1)) (
            write_bytes-Writable host (with_id (with_key d1)) _ bundle_filename root_at
              (bundle_place d.cwd root name segments direct vacant.is_name _
                (cwd-put _ _ _ ∙ cwd-with_key))
              _ bundle_Writable)

    added_disk-Elsewhere :
        (here : Location)
        → Elsewhere (places dir root_at) here
        → node_at (added_disk d1) here ≡ node_at d1 here
    added_disk-Elsewhere here (not_key, (not_id, (not_bundle, _))) =
        node_at-put_ne _ bundle_filename root_at _ here not_bundle
        ∙ node_at-put_ne _ id_filename dir _ here not_id
        ∙ with_key-elsewhere here not_key

    added_disk-Keeps : Keeps d (added_disk d1) (places dir root_at)
    added_disk-Keeps = record {
      cwd_is = cwd-put _ _ _ ∙ cwd-put _ _ _ ∙ cwd-with_key;
      others = λ here n off e. added_disk-Elsewhere here off ∙ grows.kept here n e;
    }

    added_disk-Adds : Adds d (added_disk d1) (places dir root_at) dir
    added_disk-Adds = record {
      no_file = λ here off e.
          ap is_file (added_disk-Elsewhere here off) ∙ Grows-is_file d d1 _ here grows e;
      no_other =
          λ here off off_way e. added_disk-Elsewhere here off ∙ grows.no_other here e off_way;
    }

    -- The files of the service are not those of the bundle.
    added_disk-has_key :
        node_at (added_disk d1) (key_filename ∷ dir)
        ≡ some (file (key_file_of host (c.to_pem new_key)))
    added_disk-has_key =
        node_at-put_ne _ bundle_filename root_at _ _ (bundle-ne-key root_at dir)
        ∙ node_at-put_ne _ id_filename dir _ _ (id-ne-key dir dir)
        ∙ node_at-put_self _ key_filename dir _

    added_disk-Added :
        Stores codec (bound b id (obj jwk ∷ []))
        → IsWellFormed (bound b id (obj jwk ∷ []))
        → Added codec host d
            (added_disk d1)
            root
            dir
            id
            (c.to_pem new_key)
            (bound b id (obj jwk ∷ []))
    added_disk-Added stores well = record {
      keeps = added_disk-Keeps;
      adds = added_disk-Adds;
      has_key = added_disk-has_key;
      id_file =
          written host (codec.encode (to_str id ++ b'\n' ∷ []))
            (node_at (with_key d1) (id_filename ∷ dir));
      has_id =
          node_at-put_ne _ bundle_filename root_at _ _ (bundle-ne-id root_at dir)
          ∙ node_at-put_self _ id_filename dir _;
      id_bytes = refl;
      has_bundle =
          get-stored codec (added_disk d1) (root // bundle_filename) (bundle_filename ∷ root_at)
            (bundle_place d.cwd root name segments direct vacant.is_name _ added_disk-Keeps.cwd_is)
            _ (bound b id (obj jwk ∷ [])) (node_at-put_self _ bundle_filename root_at _) refl stores
            well;
    }

-- In a root with a readable bundle, a call of `add_service` for a name that `parse` accepts and no
-- service has, where no file stands in the way of the service's folder and its files, returns its
-- ID, if the new key has a public JWK and the bundle that the call writes can be read back. The key
-- file then holds the PEM of the new key with the mode 0600, the ID file the ID, and the bundle
-- file a bundle that binds the new key alone to the ID and is the old one otherwise. Whatever else
-- was on the disk is as it was, and nothing else appears but folders on the way to that of the
-- service.
pub add_service-Added :
    (codec : Codec) (c : Crypto) (host : Host) (d : Disk) (root : FilePath) (name : Text)
    (segments : List Text) (td : Text) (b : Bundle) (id : SpiffeId) (new_key : c.PrivateKey)
    (jwk : Fields)
    → IsRoot codec d root td b
    → IsVacant d root name segments
    → parse (str (id_text codec b name)) ≡ ok id
    → public_jwk codec c new_key ≡ ok jwk
    → Stores codec (bound b id (obj jwk ∷ []))
    → (d' : Disk) × (add_service codec c host root name new_key d ≡ (ok id, d'))
      × Added codec host d d' root
          (service_at (place d.cwd root) segments)
          id
          (c.to_pem new_key)
          (bound b id (obj jwk ∷ []))
unfolding add_service read_bundle
add_service-Added codec c host d root name segments td b id new_key jwk is_root vacant parsed is_jwk
      stores =
    let at_dir = dir_place d.cwd root name segments is_root.direct vacant.is_name d refl in
    let same_dir = place-service_dir d root name segments is_root.direct vacant.is_name in
    let (d1, made, grows, is_dir, _) =
      mkdir-Grows host d (service_dir root name)
        (service_dir-IsDirect d root name segments is_root.direct vacant.is_name)
        (ap (behind_file d) same_dir ∙ vacant.open_dir) vacant.has_base in
    let grows' : Grows d d1 (service_at (place d.cwd root) segments) = rw same_dir at grows in
    let is_dir' : is_folder (node_at d1 (service_at (place d.cwd root) segments)) ≡ true =
      rw same_dir at is_dir in
    let well =
      insert-IsWellFormed b (to_str id) (obj jwk ∷ [])
        (get-IsWellFormed codec d (root // bundle_filename) b is_root.has_bundle)
        (parsed-IsBinding codec b td name id (obj jwk ∷ []) is_root.is_text is_root.domain parsed
          (λ h. cc)) in
    (
      added_disk codec c host d root name segments is_root.direct vacant new_key b id jwk is_jwk
          is_root.has_bundle d1,
      >>=-ok _ _ d (ap (λ r. (r, d)) is_root.has_bundle)
          ∙ >>=-ok _ _ d (ap (λ r. (r, d)) parsed)
          ∙ register-added codec c host d root name segments is_root.direct vacant new_key b id jwk
              is_jwk is_root.has_bundle d1 grows' is_dir' made,
      added_disk-Added codec c host d root name segments is_root.direct vacant new_key b id jwk
          is_jwk is_root.has_bundle d1 grows' is_dir' stores well,
    )
