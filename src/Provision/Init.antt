-- ===== src/Provision/Init.antt =====
-- `init_root` of python/src/spiffile/provision.py.
use spiffile.Prelude.{Text, true, false, none, [], ◌∷◌, ◌≡◌, refl, ap, ◌∙◌, arith, text_Eq, text_eq}
use spiffile.Prelude.Value.{str}
use spiffile.Codec.{Codec}
use spiffile.Disk.{
  FilePath, file, Location, location_eq, Disk, node_at, is_folder, behind_file, ◌//◌, locate,
}
use spiffile.Disk.Action.{Host, put, mkdir, >>=-ok}
use spiffile.Disk.Effects.{
  Writable, new_file, written, write_bytes-Writable, exists-none, exists-some, node_at-put_self,
  node_at-put_ne,
}
use spiffile.Disk.Folders.{Grows, mkdir-Grows}
use spiffile.Disk.Locate.{IsDirect, base, place}
use spiffile.Errors.{ok, raise, plain, already_initialized}
use spiffile.Bundle.{Bundle}
use spiffile.Provision.{bundle_filename, services_dirname}
use spiffile.Provision.Operations.{write_text, write_bundle}
use spiffile.Provision.Stored.{bundle_text, Stores, current, get-stored, get-file}
use spiffile.Provision.Writes.{cwd-put}
use spiffile.Disk.Folders.{AllFolders, AllFolders-append}
use spiffile.Disk.Above.{is_above, is_above-deeper}
use spiffile.Disk.Locate.{//-IsDirect, //-IsBelow, place-//, descend-one}
use spiffile.Provision.Operations.{init_root}
use spiffile.Provision.Places.{services-IsBelow, locate-bundle}
use spiffile.Provision.Layout.{Keeps, Adds}
use spiffile.Disk.Folders.{Grows-is_file}
use spiffile.Disk.{is_file}

abbrev pub empty_bundle : Text → Bundle
empty_bundle td = record { trust_domain = str td; identities = [] }

-- The root can be made, and has no bundle.
pub record IsClear (d : Disk) (root : FilePath) : Type 0 where
  pub direct : IsDirect root
  pub no_bundle : node_at d (bundle_filename ∷ place d.cwd root) ≡ none
  pub open_services : behind_file d (services_dirname ∷ place d.cwd root) ≡ false
  pub has_base : is_folder (node_at d (base d.cwd root)) ≡ true

-- The root holds an empty bundle; what was on the disk is as it was.
pub record Initialized (codec : Codec) (d d' : Disk) (root : FilePath) (td : Text) : Type 0 where
  pub keeps : Keeps d d' ((bundle_filename ∷ place d.cwd root) ∷ [])
  pub adds :
      Adds d d' ((bundle_filename ∷ place d.cwd root) ∷ []) (services_dirname ∷ place d.cwd root)
  pub has_bundle : current codec d' root ≡ ok (empty_bundle td)
  pub has_services : is_folder (node_at d' (services_dirname ∷ place d.cwd root)) ≡ true

services-is_dir :
    (d' : Disk) (cwd : Location) (root : FilePath)
    → AllFolders d' (base cwd (root // services_dirname)) (root // services_dirname).parts
    → (is_folder (node_at d' (place cwd root)) ≡ true)
      × (is_folder (node_at d' (services_dirname ∷ place cwd root)) ≡ true)
unfolding place
services-is_dir d' cwd root all =
    AllFolders-append d' (base cwd root) root.parts (services_dirname ∷ [])
      (rw (//-IsBelow root services_dirname (services_dirname ∷ []) services-IsBelow) at all)

module _ (codec : Codec) (host : Host) (d : Disk) (root : FilePath) (td : Text)
    (clear : IsClear d root) where
  abbrev root_at : Location
  root_at = place d.cwd root

  abbrev initialized_disk : Disk → Disk
  initialized_disk d1 =
      put (bundle_filename ∷ root_at)
        (file (
          written host (codec.encode (bundle_text codec (empty_bundle td)))
            (node_at d1 (bundle_filename ∷ root_at))))
        d1

  services-IsDirect : IsDirect (root // services_dirname)
  services-IsDirect =
      //-IsDirect root services_dirname (services_dirname ∷ []) services-IsBelow clear.direct

  place-services : place d.cwd (root // services_dirname) ≡ services_dirname ∷ root_at
  place-services =
      place-// d.cwd root services_dirname (services_dirname ∷ []) services-IsBelow
      ∙ descend-one services_dirname root_at

  bundle-off_way : is_above (bundle_filename ∷ root_at) (services_dirname ∷ root_at) ≡ false
  unfolding location_eq text_eq
  bundle-off_way = is_above-deeper (bundle_filename ∷ root_at) root_at (omega arith)

  at_bundle :
      (d' : Disk)
      → d'.cwd ≡ d.cwd
      → locate d' (root // bundle_filename) ≡ ok (bundle_filename ∷ root_at)
  at_bundle d' e =
      locate-bundle d' root clear.direct ∙ ap (λ cwd. ok (bundle_filename ∷ place cwd root)) e

  module _ (d1 : Disk) (grows : Grows d d1 (services_dirname ∷ root_at))
      (is_root : is_folder (node_at d1 root_at) ≡ true)
      (is_services : is_folder (node_at d1 (services_dirname ∷ root_at)) ≡ true) where
    bundle_Writable : Writable d1 bundle_filename root_at
    bundle_Writable = new_file (grows.no_other _ clear.no_bundle bundle-off_way) is_root

    bundle-ne-services :
        location_eq (bundle_filename ∷ root_at) (services_dirname ∷ root_at) ≡ false
    unfolding location_eq text_eq
    bundle-ne-services = refl

    init_root-runs :
        mkdir host (root // services_dirname) d ≡ (ok tt, d1)
        → init_root codec host root td d ≡ (ok root, initialized_disk d1)
    unfolding init_root write_bundle write_text
    init_root-runs made =
        >>=-ok _ _ d (exists-none d _ _ (at_bundle d refl) clear.no_bundle)
        ∙ >>=-ok _ _ d made
        ∙ >>=-ok _ _ d1 (
            write_bytes-Writable host d1 _ bundle_filename root_at (at_bundle d1 grows.cwd_is) _
              bundle_Writable)

    initialized_disk-Initialized :
        Stores codec (empty_bundle td) → Initialized codec d (initialized_disk d1) root td
    initialized_disk-Initialized stores = record {
      keeps = record {
        cwd_is = cwd-put _ _ _ ∙ grows.cwd_is;
        others = λ here n (not_bundle, _) e.
            node_at-put_ne _ bundle_filename root_at _ here not_bundle ∙ grows.kept here n e;
      };
      adds = record {
        no_file = λ here (not_bundle, _) e.
            ap is_file (node_at-put_ne _ bundle_filename root_at _ here not_bundle)
            ∙ Grows-is_file d d1 _ here grows e;
        no_other = λ here (not_bundle, _) off_way e.
            node_at-put_ne _ bundle_filename root_at _ here not_bundle
            ∙ grows.no_other here e off_way;
      };
      has_bundle =
          get-stored codec (initialized_disk d1) (root // bundle_filename)
            (bundle_filename ∷ root_at) (at_bundle _ (cwd-put _ _ _ ∙ grows.cwd_is)) _
            (empty_bundle td) (node_at-put_self _ bundle_filename root_at _) refl stores
            (record { nodup = tt; each = tt });
      has_services =
          ap is_folder (node_at-put_ne d1 bundle_filename root_at _ _ bundle-ne-services)
          ∙ is_services;
    }

-- A call of `init_root` for a root that has no bundle, and whose folders can be made, returns the
-- root. The bundle file then holds a bundle of the trust domain that binds no ID, the folder of the
-- services is there, whatever else was on the disk is as it was, and nothing else appears but
-- folders on the way to that one.
pub init_root-Initialized :
    (codec : Codec) (host : Host) (d : Disk) (root : FilePath) (td : Text)
    → IsClear d root
    → Stores codec (empty_bundle td)
    → (d' : Disk) × (init_root codec host root td d ≡ (ok root, d'))
      × Initialized codec d d' root td
init_root-Initialized codec host d root td clear stores =
    let same = place-services codec host d root td clear in
    let (d1, made, grows, _, all) =
      mkdir-Grows host d (root // services_dirname) (services-IsDirect codec host d root td clear)
        (ap (behind_file d) same ∙ clear.open_services)
        (rw (//-IsBelow root services_dirname (services_dirname ∷ []) services-IsBelow)
          clear.has_base) in
    let (is_root, is_services) = services-is_dir d1 d.cwd root all in
    let grows' : Grows d d1 (services_dirname ∷ place d.cwd root) = rw same at grows in
    (
      initialized_disk codec host d root td clear d1,
      init_root-runs codec host d root td clear d1 grows' is_root is_services made,
      initialized_disk-Initialized codec host d root td clear d1 grows' is_root is_services stores,
    )

-- A root is initialized once. After a call of `init_root` for a root that has no bundle, and whose
-- folders can be made, a second call for it, with whatever trust domain and at whatever time,
-- raises, and leaves the disk as the first has left it, if the bundle that the first has written
-- can be read back.
pub init_root-again :
    (codec : Codec) (host later : Host) (d : Disk) (root : FilePath) (td other_td : Text)
    → IsClear d root
    → Stores codec (empty_bundle td)
    → (d' : Disk) × (init_root codec host root td d ≡ (ok root, d'))
      × (init_root codec later root other_td d' ≡ (raise (plain already_initialized), d'))
unfolding init_root
init_root-again codec host later d root td other_td clear stores =
    let (d', called, post) = init_root-Initialized codec host d root td clear stores in
    let at_bundle = locate-bundle d' root clear.direct in
    let (f, there) =
      get-file codec d' (root // bundle_filename) (bundle_filename ∷ place d'.cwd root) at_bundle
        (empty_bundle td) post.has_bundle in
    (d', called, >>=-ok _ _ d' (exists-some d' _ _ at_bundle (file f) there))
