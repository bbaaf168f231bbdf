-- ===== src/Provision/Layout.antt =====
-- Provisioned roots (python/src/spiffile/provision.py): what a disk has before and after a call.
use spiffile.Prelude.{
  All, ℕ, Text, true, false, none, some, List, [], ◌∷◌, ◌++◌, ◌≡◌, ◌≢◌, refl, sym, ap, ◌∙◌, arith,
  text_Eq, inl, inr, Bool-cases,
}
use spiffile.Prelude.Dict.{insert}
use spiffile.Prelude.Value.{Value, str}
use spiffile.Codec.{Codec}
use spiffile.Disk.{
  FilePath, File, Node, file, Location, location_eq, location_eq_iff, Disk, node_at, is_folder,
  is_file, behind_file,
}
use spiffile.Disk.Action.{Host}
use spiffile.Disk.Above.{depth, is_above}
use spiffile.Disk.Locate.{IsDirect, base, place}
use spiffile.Errors.{ok}
use spiffile.SpiffeId.{SpiffeId, parse, to_str, scheme}
use spiffile.SpiffeId.Grammar.{IsDomain}
use spiffile.Bundle.{Bundle}
use spiffile.Bundle.RoundTrip.{IsBinding}
use spiffile.Provision.{bundle_filename, id_filename, key_filename, service_dir}
use spiffile.Provision.Operations.{id_text}
use spiffile.SpiffeId.Parsing.{parse_iff}
use spiffile.Provision.Places.{parse-Named, IsName, service_at}
use spiffile.Provision.Stored.{current}
use spiffile.Provision.Writes.{key_file_of}

-- The root has a bundle file, for a trust domain that follows the grammar.
pub record IsRoot (codec : Codec) (d : Disk) (root : FilePath) (td : Text) (b : Bundle)
    : Type 0 where
  pub direct : IsDirect root
  pub has_bundle : current codec d root ≡ ok b
  pub is_text : b.trust_domain ≡ str td
  pub domain : IsDomain td

-- No file stands where the service is to be, and its folder can be made.
pub record IsVacant (d : Disk) (root : FilePath) (name : Text) (segments : List Text) : Type 0 where
  pub is_name : IsName name segments
  pub no_key : node_at d (key_filename ∷ service_at (place d.cwd root) segments) ≡ none
  pub no_id : node_at d (id_filename ∷ service_at (place d.cwd root) segments) ≡ none
  pub open_dir : behind_file d (service_at (place d.cwd root) segments) ≡ false
  pub has_base : is_folder (node_at d (base d.cwd (service_dir root name))) ≡ true

-- None of these locations.
abbrev pub Elsewhere : List Location → Location → Type 0
Elsewhere changed here = All (λ there. location_eq there here ≡ false) changed

-- What is on the disk is as it was, but for these locations.
pub record Keeps (d d' : Disk) (changed : List Location) : Type 0 where
  pub cwd_is : d'.cwd ≡ d.cwd
  pub others :
      (here : Location) (n : Node)
      → Elsewhere changed here
      → node_at d here ≡ some n
      → node_at d' here ≡ some n

-- Nothing appears but at these locations, and folders on the way to one.
pub record Adds (d d' : Disk) (changed : List Location) (deepest : Location) : Type 0 where
  pub no_file :
      (here : Location)
      → Elsewhere changed here
      → is_file (node_at d here) ≡ false
      → is_file (node_at d' here) ≡ false
  pub no_other :
      (here : Location)
      → Elsewhere changed here
      → is_above here deepest ≡ false
      → node_at d here ≡ none
      → node_at d' here ≡ none

-- The files of a service, and of the bundle.
abbrev pub places : Location → Location → List Location
places dir root_at = (key_filename ∷ dir) ∷ (id_filename ∷ dir) ∷ (bundle_filename ∷ root_at) ∷ []

-- A disk on which the service has its files and its key in the bundle.
pub record Added (codec : Codec) (host : Host) (d d' : Disk) (root : FilePath) (dir : Location)
    (id : SpiffeId) (pem : List ℕ) (b' : Bundle) : Type 0 where
  pub keeps : Keeps d d' (places dir (place d.cwd root))
  pub adds : Adds d d' (places dir (place d.cwd root)) dir
  pub has_key : node_at d' (key_filename ∷ dir) ≡ some (file (key_file_of host pem))
  pub id_file : File
  pub has_id : node_at d' (id_filename ∷ dir) ≡ some (file id_file)
  pub id_bytes : id_file.bytes ≡ codec.encode (to_str id ++ b'\n' ∷ [])
  pub has_bundle : current codec d' root ≡ ok b'

pub child-ne : (name : Text) (here : Location) → location_eq (name ∷ here) here ≡ false
child-ne name here = elim (Bool-cases (location_eq (name ∷ here) here)) [
  | inl e ↦ absurd (omega (arith, ap depth ((location_eq_iff (name ∷ here) here).0 e)))
  | inr e ↦ e
]

abbrev pub bound : Bundle → SpiffeId → List Value → Bundle
bound b id keys = record b { identities = insert (to_str id) keys b.identities }

-- The binding of an ID that `add_service` and `rotate_service` have parsed.
pub parsed-IsBinding :
    (codec : Codec) (b : Bundle) (td name : Text) (id : SpiffeId) (keys : List Value)
    → b.trust_domain ≡ str td
    → IsDomain td
    → parse (str (id_text codec b name)) ≡ ok id
    → keys ≢ []
    → IsBinding b.trust_domain (to_str id) keys
unfolding id_text
parsed-IsBinding codec b td name id keys is_text domain parsed nonempty =
    let parsed' : parse (str (scheme ++ (td ++ b'/' ∷ name))) ≡ ok id = rw is_text at parsed in
    let named = parse-Named td name id domain parsed' in
    record {
      id = id;
      valid = ((parse_iff _ id).0 parsed').1;
      is_id = refl;
      in_domain = is_text ∙ ap str (sym named.in_domain);
      nonempty = nonempty;
    }
