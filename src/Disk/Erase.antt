-- ===== src/Disk/Erase.antt =====
-- Removing files and folders (python/src/spiffile/provision.py uses `pathlib` for it).
use spiffile.Prelude.{
  Text, true, false, none, some, [], ◌∷◌, ◌≡◌, ◌≢◌, refl, sym, ap, ◌∙◌, arith, inl, inr, Bool-cases,
}
use spiffile.Prelude.Dict.{Dict, lookup}
use spiffile.Disk.{
  FilePath, Node, Location, location_eq, location_eq_iff, location_Eq, Disk, node_at, is_folder,
  locate,
}
use spiffile.Disk.Action.{remove, has_child, is_child, rmdir}
use spiffile.Disk.Effects.{node_at-remove, rmdir-empty}
use spiffile.Disk.Above.{depth}
use spiffile.Errors.{ok}

lookup-more :
    (there here : Location) (n : Node) (nodes : Dict Location Node) {m : Node}
    → lookup here nodes ≡ some m
    → (m' : Node) × (lookup here ((there, n) ∷ nodes) ≡ some m')
unfolding lookup
lookup-more there here n nodes {m} e = elim (Bool-cases (location_eq there here)) [
  | inl same ↦ (n, rw same refl)
  | inr other ↦ (m, rw other e)
]

lookup-first :
    (here : Location) (n : Node) (nodes : Dict Location Node)
    → lookup here ((here, n) ∷ nodes) ≡ some n
unfolding lookup
lookup-first here n nodes = rw ((location_eq_iff here here).1 refl) refl

-- A folder that has a child has one that can be looked up.
has_child-lookup :
    (here : Location) (nodes : Dict Location Node)
    → has_child here nodes ≡ true
    → (name : Text) × (n : Node) × (lookup (name ∷ here) nodes ≡ some n)
unfolding has_child
has_child-lookup here [] h = absurd (cc)
has_child-lookup here ((there, n) ∷ nodes) h = elim (Bool-cases (is_child here there)) [
  | inl e ↦ child there e
  | inr e ↦
      let (name, m, e') = has_child-lookup here nodes (rw e at h) in
      let (m', e2) = lookup-more there (name ∷ here) n nodes e' in (name, m', e2)
]
  where
    child :
        (there : Location)
        → is_child here there ≡ true
        → (name : Text) × (m : Node) × (lookup (name ∷ here) ((there, n) ∷ nodes) ≡ some m)
    child [] is = absurd (cc)
    child (name ∷ above) is =
        let same = (location_eq_iff above here).0 is in
        (
          name,
          n,
          ap (λ up. lookup (name ∷ here) ((name ∷ up, n) ∷ nodes)) same
              ∙ lookup-first (name ∷ here) n nodes,
        )

no_child :
    (d : Disk) (name : Text) (above : Location)
    → ((other : Text) → node_at d (other ∷ name ∷ above) ≡ none)
    → has_child (name ∷ above) d.nodes ≡ false
unfolding node_at
no_child d name above h = elim (Bool-cases (has_child (name ∷ above) d.nodes)) [
  | inl e ↦
      let (other, n, found) = has_child-lookup (name ∷ above) d.nodes e in
      absurd (let x : none ≡ some n = sym (h other) ∙ found in cc)
  | inr e ↦ e
]

pub cwd-remove : (here : Location) (d : Disk) → (remove here d).cwd ≡ d.cwd
unfolding remove
cwd-remove here d = refl

module _ (d : Disk) (here : Location) (below_top : here ≢ []) where
  pub node_at-remove_self : node_at (remove here d) here ≡ none
  node_at-remove_self = cases here below_top
    where
      cases : (here : Location) → here ≢ [] → node_at (remove here d) here ≡ none
      cases [] ne = absurd (ne refl)
      cases (name ∷ above) ne = ground (
        arith,
        node_at-remove d name above (name ∷ above),
        location_eq_iff (name ∷ above) (name ∷ above),
      )

  pub node_at-remove_ne :
      (there : Location)
      → location_eq here there ≡ false
      → node_at (remove here d) there ≡ node_at d there
  node_at-remove_ne there h = cases here below_top h
    where
      cases :
          (here : Location)
          → here ≢ []
          → location_eq here there ≡ false
          → node_at (remove here d) there ≡ node_at d there
      cases [] ne e = absurd (ne refl)
      cases (name ∷ above) ne e = ground (arith, node_at-remove d name above there)

-- The folder of a service goes away once it is empty.
pub rmdir-lem :
    (d : Disk) (p : FilePath) (here : Location)
    → here ≢ []
    → locate d p ≡ ok here
    → is_folder (node_at d here) ≡ true
    → ((other : Text) → node_at d (other ∷ here) ≡ none)
    → rmdir p d ≡ (ok tt, remove here d)
rmdir-lem d p [] ne at_p is empty = absurd (ne refl)
rmdir-lem d p (name ∷ above) ne at_p is empty =
    rmdir-empty d p name above at_p is (no_child d name above empty)

pub depth-ne : (s t : Location) → depth s ≢ depth t → location_eq s t ≡ false
depth-ne s t ne = elim (Bool-cases (location_eq s t)) [
  | inl e ↦ absurd (ne (ap depth ((location_eq_iff s t).0 e)))
  | inr e ↦ e
]
