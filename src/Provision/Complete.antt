-- ===== src/Provision/Complete.antt =====
-- What `remove_service` (python/src/spiffile/provision.py) needs of a service, and what it leaves.
use spiffile.Prelude.{
  suc, ◌≤◌, Text, true, false, none, some, List, [], ◌∷◌, ◌≡◌, ◌≢◌, refl, text_Eq,
}
use spiffile.Codec.{Codec}
use spiffile.Disk.{FilePath, File, file, Location, location_eq, Disk, node_at, is_folder}
use spiffile.Disk.Above.{depth, depth-descend}
use spiffile.Disk.Locate.{descend}
use spiffile.Disk.Locate.{place}
use spiffile.Errors.{ok}
use spiffile.Bundle.{Bundle}
use spiffile.Provision.{services_dirname, id_filename, key_filename}
use spiffile.Provision.Places.{IsName, service_at}
use spiffile.Provision.Stored.{current}
use spiffile.Prelude.Dict.{erase}
use spiffile.Disk.{location_Eq}
use spiffile.Provision.Layout.{Keeps, places}

-- The service has its two files, and its folder has nothing else.
pub record IsComplete (d : Disk) (root : FilePath) (name : Text) (segments : List Text)
    : Type 0 where
  pub is_name : IsName name segments
  pub key_file : File
  pub has_key :
      node_at d (key_filename ∷ service_at (place d.cwd root) segments) ≡ some (file key_file)
  pub id_file : File
  pub has_id :
      node_at d (id_filename ∷ service_at (place d.cwd root) segments) ≡ some (file id_file)
  pub is_dir : is_folder (node_at d (service_at (place d.cwd root) segments)) ≡ true
  pub no_more :
      (other : Text)
      → location_eq
          (key_filename ∷ service_at (place d.cwd root) segments)
          (other ∷ service_at (place d.cwd root) segments)
        ≡ false
      → location_eq
          (id_filename ∷ service_at (place d.cwd root) segments)
          (other ∷ service_at (place d.cwd root) segments)
        ≡ false
      → node_at d (other ∷ service_at (place d.cwd root) segments) ≡ none

-- The bundle with nothing bound to the ID.
abbrev pub unbound : Bundle → Text → Bundle
unbound b id = record b { identities = erase id b.identities }

-- What is left: the service's files and its folder are gone, and so is the binding.
pub record Removed (codec : Codec) (d d' : Disk) (root : FilePath) (dir : Location) (b' : Bundle)
    : Type 0 where
  pub keeps : Keeps d d' (dir ∷ places dir (place d.cwd root))
  pub no_key : node_at d' (key_filename ∷ dir) ≡ none
  pub no_id : node_at d' (id_filename ∷ dir) ≡ none
  pub no_dir : node_at d' dir ≡ none
  pub has_bundle : current codec d' root ≡ ok b'

pub service_at-depth :
    (root_at : Location) (segments : List Text)
    → segments ≢ []
    → suc (suc (depth root_at)) ≤ depth (service_at root_at segments)
service_at-depth root_at [] ne = absurd (ne refl)
service_at-depth root_at (s ∷ ss) ne =
    unfold descend in depth-descend ss (s ∷ services_dirname ∷ root_at)
