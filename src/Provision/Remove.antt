-- ===== src/Provision/Remove.antt =====
-- `remove_service` of python/src/spiffile/provision.py.
use spiffile.Prelude.{
  suc, ◌≤◌, Text, true, false, Option, none, some, List, [], ◌∷◌, ◌≡◌, ◌≢◌, refl, ap, ◌∙◌, arith,
  text_Eq, inl, inr, Bool-cases,
}
use spiffile.Codec.{Codec}
use spiffile.Disk.{
  FilePath, Node, file, Location, location_eq, location_eq_iff, Disk, node_at, is_folder, ◌//◌,
  locate,
}
use spiffile.Disk.Action.{Host, put, >>=-ok}
use spiffile.Disk.Effects.{
  old_file, written, write_bytes-Writable, exists-some, node_at-put_self, node_at-put_ne,
}
use spiffile.Disk.Above.{depth}
use spiffile.Disk.Locate.{IsDirect, place}
use spiffile.Errors.{ok}
use spiffile.Bundle.{Bundle}
use spiffile.Bundle.RoundTrip.{IsWellFormed}
use spiffile.Provision.{bundle_filename, id_filename, key_filename, service_dir}
use spiffile.Provision.Operations.{write_text, read_bundle, write_bundle, id_text}
use spiffile.Provision.Places.{service_at, bundle_place, dir_place, key_place, id_place}
use spiffile.Provision.Stored.{bundle_text, Stores, current, get-stored, get-file, get-IsWellFormed}
use spiffile.Provision.Writes.{
  key-ne-id, key-ne-bundle, id-ne-bundle, bundle-ne-key, bundle-ne-id, id-ne-key, cwd-put,
}
use spiffile.Disk.{location_Eq}
use spiffile.Disk.Action.{remove}
use spiffile.Disk.Effects.{unlink-file}
use spiffile.Disk.Erase.{cwd-remove, node_at-remove_self, node_at-remove_ne, rmdir-lem, depth-ne}
use spiffile.Provision.Operations.{remove_service, remove_folder}
use spiffile.Provision.Stored.{erase-IsWellFormed}
use spiffile.Provision.Layout.{IsRoot, Keeps, places, child-ne}
use spiffile.Provision.Complete.{IsComplete, unbound, Removed, service_at-depth}

module _ (codec : Codec) (host : Host) (d : Disk) (root : FilePath) (name : Text)
    (segments : List Text) (direct : IsDirect root) (s : IsComplete d root name segments)
    (b b' : Bundle) (has_bundle : current codec d root ≡ ok b) where
  abbrev root_at : Location
  root_at = place d.cwd root

  abbrev dir : Location
  dir = service_at root_at segments

  abbrev with_bundle : Disk
  with_bundle =
      put (bundle_filename ∷ root_at)
        (file (
          written host (codec.encode (bundle_text codec b'))
            (node_at d (bundle_filename ∷ root_at))))
        d

  abbrev without_files : Disk
  without_files = remove (key_filename ∷ dir) (remove (id_filename ∷ dir) with_bundle)

  abbrev removed_disk : Disk
  removed_disk = remove dir without_files

  deep : suc (suc (depth root_at)) ≤ depth dir
  deep = service_at-depth root_at segments s.is_name.nonempty

  dir_below_top : dir ≢ []
  dir_below_top e = absurd (omega (arith, deep, ap depth e))

  with_bundle-elsewhere :
      (here : Location)
      → location_eq (bundle_filename ∷ root_at) here ≡ false
      → node_at with_bundle here ≡ node_at d here
  with_bundle-elsewhere here ne = node_at-put_ne d bundle_filename root_at _ here ne

  without_files-elsewhere :
      (here : Location)
      → location_eq (key_filename ∷ dir) here ≡ false
      → location_eq (id_filename ∷ dir) here ≡ false
      → node_at without_files here ≡ node_at with_bundle here
  without_files-elsewhere here not_key not_id =
      node_at-remove_ne _ (key_filename ∷ dir) (λ e. cc) here not_key
      ∙ node_at-remove_ne _ (id_filename ∷ dir) (λ e. cc) here not_id

  without_files-no_key : node_at without_files (key_filename ∷ dir) ≡ none
  without_files-no_key = node_at-remove_self _ (key_filename ∷ dir) (λ e. cc)

  without_files-no_id : node_at without_files (id_filename ∷ dir) ≡ none
  without_files-no_id =
      node_at-remove_ne _ (key_filename ∷ dir) (λ e. cc) _ (key-ne-id dir dir)
      ∙ node_at-remove_self _ (id_filename ∷ dir) (λ e. cc)

  without_files-no_child : (other : Text) → node_at without_files (other ∷ dir) ≡ none
  without_files-no_child other =
      elim (Bool-cases (location_eq (key_filename ∷ dir) (other ∷ dir))) [
        | inl e ↦ rw (← (location_eq_iff _ _).0 e) without_files-no_key
        | inr not_key ↦ elim (Bool-cases (location_eq (id_filename ∷ dir) (other ∷ dir))) [
          | inl e ↦ rw (← (location_eq_iff _ _).0 e) without_files-no_id
          | inr not_id ↦
              without_files-elsewhere (other ∷ dir) not_key not_id
              ∙ with_bundle-elsewhere (other ∷ dir)
                  (depth-ne _ _ (λ e. absurd (omega (arith, deep))))
              ∙ s.no_more other not_key not_id
        ]
      ]

  cwd-without_files : without_files.cwd ≡ d.cwd
  cwd-without_files = cwd-remove _ _ ∙ cwd-remove _ _ ∙ cwd-put _ _ d

  removed_disk-Keeps : Keeps d removed_disk (dir ∷ places dir root_at)
  removed_disk-Keeps = record {
    cwd_is = cwd-remove _ _ ∙ cwd-without_files;
    others = λ here n (not_dir, (not_key, (not_id, (not_bundle, _)))) e.
        node_at-remove_ne _ dir dir_below_top here not_dir
        ∙ without_files-elsewhere here not_key not_id
        ∙ with_bundle-elsewhere here not_bundle
        ∙ e;
  }

  removed_disk-bundle :
      node_at removed_disk (bundle_filename ∷ root_at)
      ≡ some (
          file (
            written host
              (codec.encode (bundle_text codec b'))
              (node_at d (bundle_filename ∷ root_at))))
  removed_disk-bundle =
      node_at-remove_ne _ dir dir_below_top _ (depth-ne _ _ (λ e. absurd (omega (arith, deep))))
      ∙ without_files-elsewhere _ (key-ne-bundle dir root_at) (id-ne-bundle dir root_at)
      ∙ node_at-put_self d bundle_filename root_at _

  removed_disk-Removed :
      Stores codec b' → IsWellFormed b' → Removed codec d removed_disk root dir b'
  removed_disk-Removed stores well = record {
    keeps = removed_disk-Keeps;
    no_key =
        node_at-remove_ne _ dir dir_below_top _ (depth-ne _ _ (λ e. absurd (omega arith)))
        ∙ without_files-no_key;
    no_id =
        node_at-remove_ne _ dir dir_below_top _ (depth-ne _ _ (λ e. absurd (omega arith)))
        ∙ without_files-no_id;
    no_dir = node_at-remove_self _ dir dir_below_top;
    has_bundle =
        get-stored codec removed_disk (root // bundle_filename) (bundle_filename ∷ root_at)
          (bundle_place d.cwd root name segments direct s.is_name _ removed_disk-Keeps.cwd_is) _ b'
          removed_disk-bundle refl stores well;
  }

  remove_folder-removed :
      remove_folder codec host (service_dir root name) without_files ≡ (ok tt, removed_disk)
  unfolding remove_folder
  remove_folder-removed =
      let at_dir : locate without_files (service_dir root name) ≡ ok dir =
        dir_place d.cwd root name segments direct s.is_name _ cwd-without_files in
      let same : node_at without_files dir ≡ node_at d dir =
        without_files-elsewhere dir (child-ne key_filename dir) (child-ne id_filename dir)
        ∙ with_bundle-elsewhere dir (depth-ne _ _ (λ e. absurd (omega (arith, deep)))) in
      let is = ap is_folder same ∙ s.is_dir in
      let (n, found) = some_node (node_at without_files dir) is in
      >>=-ok _ _ without_files (exists-some without_files _ dir at_dir n found)
      ∙ rmdir-lem without_files (service_dir root name) dir dir_below_top at_dir is
          without_files-no_child
    where
      some_node : (o : Option Node) → is_folder o ≡ true → (n : Node) × (o ≡ some n)
      some_node none h = absurd (cc)
      some_node (some n) h = (n, refl)

-- In a root with a readable bundle, a call of `remove_service` for a service that has its two files
-- and nothing else in its folder returns, if the bundle that it writes can be read back. The files
-- and their folder are gone then, and the bundle file holds a bundle that binds nothing to the
-- service's ID and is the old one otherwise. Whatever else was on the disk is as it was.
pub remove_service-Removed :
    (codec : Codec) (host : Host) (d : Disk) (root : FilePath) (name : Text) (segments : List Text)
    (td : Text) (b : Bundle)
    → IsRoot codec d root td b
    → IsComplete d root name segments
    → Stores codec (unbound b (id_text codec b name))
    → (d' : Disk) × (remove_service codec host root name d ≡ (ok tt, d'))
      × Removed codec d d' root
          (service_at (place d.cwd root) segments)
          (unbound b (id_text codec b name))
unfolding remove_service read_bundle write_bundle write_text
remove_service-Removed codec host d root name segments td b is_root s stores =
    let b' = unbound b (id_text codec b name) in
    let root_at = place d.cwd root in
    let dir = service_at root_at segments in
    let d1 = with_bundle codec host d root name segments is_root.direct s b b' is_root.has_bundle in
    let d2 = remove (id_filename ∷ dir) d1 in
    let (f, e) =
      get-file codec d (root // bundle_filename) (bundle_filename ∷ root_at)
        (bundle_place d.cwd root name segments is_root.direct s.is_name d refl) b
        is_root.has_bundle in
    (
      removed_disk codec host d root name segments is_root.direct s b b' is_root.has_bundle,
      >>=-ok _ _ d (ap (λ r. (r, d)) is_root.has_bundle)
          ∙ >>=-ok _ _ d (
              write_bytes-Writable host d _ bundle_filename root_at
                (bundle_place d.cwd root name segments is_root.direct s.is_name d refl) _
                (old_file f e))
          ∙ >>=-ok _ _ d1 (
              unlink-file host d1 _ id_filename dir
                (id_place d.cwd root name segments is_root.direct s.is_name _ (cwd-put _ _ d))
                s.id_file
                (node_at-put_ne d bundle_filename root_at _ _ (bundle-ne-id root_at dir)
                  ∙ s.has_id))
          ∙ >>=-ok _ _ d2 (
              unlink-file host d2 _ key_filename dir
                (key_place d.cwd root name segments is_root.direct s.is_name _
                  (cwd-remove _ _ ∙ cwd-put _ _ d))
                s.key_file
                (node_at-remove_ne d1 (id_filename ∷ dir) (λ e'. cc) _ (id-ne-key dir dir)
                  ∙ node_at-put_ne d bundle_filename root_at _ _ (bundle-ne-key root_at dir)
                  ∙ s.has_key))
          ∙ remove_folder-removed codec host d root name segments is_root.direct s b b'
              is_root.has_bundle,
      removed_disk-Removed codec host d root name segments is_root.direct s b b' is_root.has_bundle
          stores
          (erase-IsWellFormed b (id_text codec b name)
            (get-IsWellFormed codec d (root // bundle_filename) b is_root.has_bundle)),
    )
