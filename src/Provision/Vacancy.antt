-- ===== src/Provision/Vacancy.antt =====
-- A call for one service (python/src/spiffile/provision.py) leaves room for another one.
use spiffile.Prelude.{
  ◌≤◌, Text, true, false, inl, inr, List, [], ◌∷◌, ◌≡◌, ◌≢◌, arith, All, Option-cases, Bool-cases,
  text_eq,
}
use spiffile.Disk.{
  FilePath, Location, location_eq, location_eq_iff, Disk, node_at, is_folder, is_file, behind_file,
}
use spiffile.Disk.Above.{depth, is_above, is_above-deeper, is_above_self, is_above-descend}
use spiffile.Disk.Erase.{depth-ne}
use spiffile.Disk.Locate.{IsDirect, base, place}
use spiffile.Provision.{bundle_filename, services_dirname, id_filename, key_filename, service_dir}
use spiffile.Provision.Layout.{IsVacant, Keeps, Adds, Elsewhere, places}
use spiffile.Provision.Places.{IsName, service_at, place-service_dir}
use spiffile.Provision.Writes.{key-ne-id, id-ne-key, bundle-ne-key, bundle-ne-id}

-- None of these is on the way to the location, or the location.
abbrev pub Off : List Location → Location → Type 0
Off changed here = All (λ there. is_above there here ≡ false) changed

Off-Elsewhere :
    (changed : List Location) (here deepest : Location)
    → Off changed deepest
    → is_above here deepest ≡ true
    → Elsewhere changed here
Off-Elsewhere [] here deepest off on_way = tt
Off-Elsewhere (there ∷ changed) here deepest (off, offs) on_way = (
  elim (Bool-cases (location_eq there here)) [
    | inl e ↦ absurd (
        let same = (location_eq_iff there here).0 e in
        let x : is_above there deepest ≡ true = rw same on_way in cc)
    | inr e ↦ e
  ],
  Off-Elsewhere changed here deepest offs on_way,
)

Off-up :
    (changed : List Location) (name : Text) (above : Location)
    → Off changed (name ∷ above)
    → Off changed above
Off-up [] name above off = tt
Off-up (there ∷ changed) name above (off, offs) = (ground arith, Off-up changed name above offs)

module _ (d d' : Disk) (changed : List Location) (deepest : Location) (keeps : Keeps d d' changed)
    (adds : Adds d d' changed deepest) where
  is_file-Adds :
      (here deep : Location)
      → Off changed deep
      → is_above here deep ≡ true
      → is_file (node_at d here) ≡ false
      → is_file (node_at d' here) ≡ false
  is_file-Adds here deep off on_way h =
      adds.no_file here (Off-Elsewhere changed here deep off on_way) h

  behind_file-Adds :
      (here : Location)
      → Off changed here
      → behind_file d here ≡ false
      → behind_file d' here ≡ false
  unfolding behind_file
  behind_file-Adds [] off h = h
  behind_file-Adds (name ∷ above) off h =
      let up = behind_file-Adds above (Off-up changed name above off) (ground arith) in
      let here =
        is_file-Adds (name ∷ above) (name ∷ above) off (is_above_self (name ∷ above))
          (ground arith) in
      ground arith

pub is_folder-Keeps :
    (d d' : Disk) (changed : List Location) (here : Location)
    → Keeps d d' changed
    → Elsewhere changed here
    → is_folder (node_at d here) ≡ true
    → is_folder (node_at d' here) ≡ true
is_folder-Keeps d d' changed here keeps off h = elim (Option-cases (node_at d here)) [
  | inl e ↦ absurd (let x : false ≡ true = rw e at h in cc)
  | inr (n, e) ↦ rw (keeps.others here n off e) (rw e at h)
]

pub base-is_above :
    (d : Disk) (root : FilePath) (name : Text) (segments : List Text)
    → IsDirect root
    → IsName name segments
    → is_above (base d.cwd (service_dir root name)) (service_at (place d.cwd root) segments) ≡ true
unfolding place
base-is_above d root name segments direct is_name =
    rw (← place-service_dir d root name segments direct is_name) (
      is_above-descend _ (service_dir root name).parts _
        (is_above_self (base d.cwd (service_dir root name))))

-- What changed is no part of the folder, and neither are the folders on the way.
pub record Apart (changed : List Location) (deepest dir : Location) : Type 0 where
  pub off : Off changed dir
  pub key_off : Elsewhere changed (key_filename ∷ dir)
  pub id_off : Elsewhere changed (id_filename ∷ dir)
  pub key_way : is_above (key_filename ∷ dir) deepest ≡ false
  pub id_way : is_above (id_filename ∷ dir) deepest ≡ false

pub IsVacant-Apart :
    (d d' : Disk) (root : FilePath) (name : Text) (segments : List Text) (changed : List Location)
    (deepest : Location)
    → IsDirect root
    → Keeps d d' changed
    → Adds d d' changed deepest
    → Apart changed deepest (service_at (place d.cwd root) segments)
    → IsVacant d root name segments
    → IsVacant d' root name segments
unfolding node_at behind_file
IsVacant-Apart d d' root name segments changed deepest direct keeps adds apart vacant = record {
  is_name = vacant.is_name;
  no_key = rw (keeps.cwd_is) (adds.no_other _ apart.key_off apart.key_way vacant.no_key);
  no_id = rw (keeps.cwd_is) (adds.no_other _ apart.id_off apart.id_way vacant.no_id);
  open_dir =
      rw (keeps.cwd_is)
        (behind_file-Adds d d' changed deepest keeps adds _ apart.off vacant.open_dir);
  has_base = rw (keeps.cwd_is) (
      is_folder-Keeps d d' changed _ keeps
        (Off-Elsewhere changed _ _ apart.off
          (base-is_above d root name segments direct vacant.is_name))
        vacant.has_base);
}

-- Below the folder, nothing is on the way to it.
deeper :
    (name : Text) (here deepest : Location)
    → depth deepest ≤ depth here
    → is_above (name ∷ here) deepest ≡ false
deeper name here deepest le = is_above-deeper (name ∷ here) deepest (omega arith)

different :
    (name m n : Text) (above : Location)
    → m ≢ n
    → location_eq (name ∷ m ∷ above) (name ∷ n ∷ above) ≡ false
different name m n above ne =
    elim (Bool-cases (location_eq (name ∷ m ∷ above) (name ∷ n ∷ above))) [
      | inl e ↦
          let same = (location_eq_iff (name ∷ m ∷ above) (name ∷ n ∷ above)).0 e in
          let x : m ≡ n = cc in absurd (ne x)
      | inr e ↦ e
    ]

-- A service beside another one, and beside the bundle.
module _ (root_at : Location) where
  bundle-is_above :
      (n : Text) → is_above (bundle_filename ∷ root_at) (n ∷ services_dirname ∷ root_at) ≡ false
  unfolding location_eq text_eq
  bundle-is_above n =
      rw (depth-ne (bundle_filename ∷ root_at) (n ∷ services_dirname ∷ root_at) (omega arith))
        (deeper bundle_filename root_at root_at (omega arith))

  level :
      (name m n : Text)
      → is_above (name ∷ m ∷ services_dirname ∷ root_at) (n ∷ services_dirname ∷ root_at) ≡ false
  level name m n =
      deeper name (m ∷ services_dirname ∷ root_at) (n ∷ services_dirname ∷ root_at) (omega arith)

  pub first-Apart :
      (n : Text)
      → Apart
          ((bundle_filename ∷ root_at) ∷ [])
          (services_dirname ∷ root_at)
          (n ∷ services_dirname ∷ root_at)
  first-Apart n = record {
    off = (bundle-is_above n, tt);
    key_off = (bundle-ne-key root_at _, tt);
    id_off = (bundle-ne-id root_at _, tt);
    key_way = deeper _ _ (services_dirname ∷ root_at) (omega arith);
    id_way = deeper _ _ (services_dirname ∷ root_at) (omega arith);
  }

  pub sibling-Apart :
      (m n : Text)
      → m ≢ n
      → Apart
          (places (m ∷ services_dirname ∷ root_at) root_at)
          (m ∷ services_dirname ∷ root_at)
          (n ∷ services_dirname ∷ root_at)
  sibling-Apart m n ne = record {
    off = (level key_filename m n, (level id_filename m n, (bundle-is_above n, tt)));
    key_off = (different key_filename m n _ ne, (id-ne-key _ _, (bundle-ne-key root_at _, tt)));
    id_off = (key-ne-id _ _, (different id_filename m n _ ne, (bundle-ne-id root_at _, tt)));
    key_way = level key_filename n m;
    id_way = level id_filename n m;
  }
