-- ===== src/Provision/Room.antt =====
-- A removed service (python/src/spiffile/provision.py, `remove_service`) leaves room for a new one.
use spiffile.Prelude.{
  ◌<◌, Text, true, false, inl, inr, List, [], ◌∷◌, ◌≡◌, refl, ap, ◌∙◌, arith, Bool-cases, Option,
  none, some,
}
use spiffile.Codec.{Codec}
use spiffile.Disk.{
  FilePath, File, Node, file, folder, Location, location_eq, location_eq_iff, Disk, node_at,
  is_folder, is_file, behind_file, ◌//◌,
}
use spiffile.Disk.Above.{depth, depth-descend, is_above}
use spiffile.Disk.Erase.{depth-ne}
use spiffile.Disk.Locate.{base, place, //-IsBelow}
use spiffile.Bundle.{Bundle}
use spiffile.Provision.{bundle_filename, services_dirname, id_filename, key_filename, service_dir}
use spiffile.Provision.Places.{IsName, service_at, locate-bundle, services-IsBelow}
use spiffile.Provision.Stored.{get-file}
use spiffile.Provision.Layout.{IsRoot, IsVacant, Keeps, places}
use spiffile.Provision.Vacancy.{base-is_above, is_folder-Keeps}
use spiffile.Provision.Complete.{IsComplete, Removed, service_at-depth}

-- The location is a folder, and so is everything on the way to it.
abbrev pub IsReached : Disk → Location → Type 0
IsReached d [] = is_folder (node_at d []) ≡ true
IsReached d (name ∷ above) = (is_folder (node_at d (name ∷ above)) ≡ true) × IsReached d above

IsReached-is_above :
    (d : Disk) (here deepest : Location)
    → IsReached d deepest
    → is_above here deepest ≡ true
    → is_folder (node_at d here) ≡ true
IsReached-is_above d here [] r h = rw ((location_eq_iff here []).0 h) r
IsReached-is_above d here (name ∷ above) (r, rs) h =
    elim (Bool-cases (location_eq here (name ∷ above))) [
      | inl e ↦ rw ((location_eq_iff here (name ∷ above)).0 e) r
      | inr e ↦ IsReached-is_above d here above rs (rw e at h)
    ]

file-ne-folder :
    (d : Disk) (there here : Location) (f : File)
    → node_at d there ≡ some (file f)
    → is_folder (node_at d here) ≡ true
    → location_eq there here ≡ false
file-ne-folder d there here f is_file is_dir = elim (Bool-cases (location_eq there here)) [
  | inl e ↦
      let same = (location_eq_iff there here).0 e in
      absurd (let x : false ≡ true = rw (← same, is_file) at is_dir in cc)
  | inr e ↦ e
]

folder-not_file :
    (d : Disk) (here : Location)
    → is_folder (node_at d here) ≡ true
    → is_file (node_at d here) ≡ false
folder-not_file d here h = at (node_at d here) h
  where
    at : (o : Option Node) → is_folder o ≡ true → is_file o ≡ false
    at none e = refl
    at (some (file f)) e = absurd (cc)
    at (some (folder s)) e = refl

-- A call that takes away a folder with its files, and changes one other file.
module _ (d d' : Disk) (dir root_at : Location) (key_file id_file bundle_file : File)
    (has_key : node_at d (key_filename ∷ dir) ≡ some (file key_file))
    (has_id : node_at d (id_filename ∷ dir) ≡ some (file id_file))
    (has_bundle : node_at d (bundle_filename ∷ root_at) ≡ some (file bundle_file))
    (keeps : Keeps d d' (dir ∷ places dir root_at)) where
  folder-kept :
      (here : Location)
      → depth here < depth dir
      → is_folder (node_at d here) ≡ true
      → is_folder (node_at d' here) ≡ true
  folder-kept here lt h =
      is_folder-Keeps d d' (dir ∷ places dir root_at) here keeps
        (
          depth-ne dir here (λ e. absurd (omega (arith, lt, e))),
          (
            file-ne-folder d _ here key_file has_key h,
            (
              file-ne-folder d _ here id_file has_id h,
              (file-ne-folder d _ here bundle_file has_bundle h, tt),
            ),
          ),
        )
        h

  way_open :
      (here : Location) → depth here < depth dir → IsReached d here → behind_file d' here ≡ false
  unfolding behind_file
  way_open [] lt r = refl
  way_open (name ∷ above) lt (r, rs) =
      rw
        (
          folder-not_file d' (name ∷ above) (folder-kept (name ∷ above) lt r),
          way_open above (omega (arith, lt)) rs,
        )
        refl

  gone_open :
      (above : List Text) (name : Text)
      → dir ≡ name ∷ above
      → node_at d' dir ≡ none
      → IsReached d dir
      → behind_file d' dir ≡ false
  unfolding behind_file
  gone_open above name same gone reached =
      let gone' : node_at d' (name ∷ above) ≡ none = rw same at gone in
      let way : (is_folder (node_at d (name ∷ above)) ≡ true) × IsReached d above =
        rw same at reached in
      rw (same, gone', way_open above (rw same (omega arith)) way.1) refl

-- The place of a service is below that of the root, which is below the base of its path.
base-service_dir :
    (cwd : Location) (root : FilePath) (name : Text) (segments : List Text)
    → IsName name segments
    → base cwd (service_dir root name) ≡ base cwd root
unfolding service_dir
base-service_dir cwd root name segments is_name =
    ap (base cwd) (//-IsBelow (root // services_dirname) name segments is_name.below)
    ∙ ap (base cwd) (//-IsBelow root services_dirname (services_dirname ∷ []) services-IsBelow)

base-depth :
    (cwd : Location) (root : FilePath) (name : Text) (segments : List Text)
    → IsName name segments
    → depth (base cwd (service_dir root name)) < depth (service_at (place cwd root) segments)
unfolding place
base-depth cwd root name segments is_name =
    let deep = service_at-depth (place cwd root) segments is_name.nonempty in
    let up = depth-descend root.parts (base cwd root) in
    rw (base-service_dir cwd root name segments is_name) (omega (arith, deep, up))

not_top :
    (here : Location) → 0 < depth here → (name : Text) × (above : Location) × (here ≡ name ∷ above)
not_top [] lt = absurd (omega (arith, lt))
not_top (name ∷ above) lt = (name, above, refl)

-- There is room for a service where one was removed.
pub Removed-IsVacant :
    (codec : Codec) (d d' : Disk) (root : FilePath) (name : Text) (segments : List Text) (td : Text)
    (b b' : Bundle)
    → IsRoot codec d root td b
    → (s : IsComplete d root name segments) → IsReached d (service_at (place d.cwd root) segments)
    → Removed codec d d' root (service_at (place d.cwd root) segments) b'
    → IsVacant d' root name segments
unfolding node_at behind_file
Removed-IsVacant codec d d' root name segments td b b' is_root s reached removed =
    let dir = service_at (place d.cwd root) segments in
    let deep = service_at-depth (place d.cwd root) segments s.is_name.nonempty in
    let (bundle_file, has_bundle) =
      get-file codec d (root // bundle_filename) (bundle_filename ∷ place d.cwd root)
        (locate-bundle d root is_root.direct) b is_root.has_bundle in
    let (n, above, is_dir) = not_top dir (omega (arith, deep)) in
    record {
      is_name = s.is_name;
      no_key = rw (removed.keeps.cwd_is) removed.no_key;
      no_id = rw (removed.keeps.cwd_is) removed.no_id;
      open_dir = rw (removed.keeps.cwd_is) (
          gone_open d d' dir (place d.cwd root) s.key_file s.id_file bundle_file s.has_key s.has_id
            has_bundle removed.keeps above n is_dir removed.no_dir reached);
      has_base = rw (removed.keeps.cwd_is) (
          folder-kept d d' dir (place d.cwd root) s.key_file s.id_file bundle_file s.has_key
            s.has_id has_bundle removed.keeps _ (base-depth d.cwd root name segments s.is_name)
            (IsReached-is_above d _ dir reached
              (base-is_above d root name segments is_root.direct s.is_name)));
    }
