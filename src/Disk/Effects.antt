-- ===== src/Disk/Effects.antt =====
-- What each call does to the disk, where nothing stands in its way.
use spiffile.Prelude.{
  ℕ, Text, true, false, Option, none, some, [], ◌∷◌, ◌≡◌, refl, arith, Option-cases, inl, inr,
  if◌then◌else◌,
}
use spiffile.Prelude.Dict.{lookup-insert, lookup-erase}
use spiffile.Disk.{
  Bytes, FilePath, File, Node, folder, file, Location, location_eq, location_eq_iff, location_Eq,
  Disk, node_at, is_folder, behind_file, missing, locate, node,
}
use spiffile.Disk.Action.{
  Host, put, remove, exists, write_node, write_bytes, chmod_node, chmod, unlink_node, unlink_at,
  unlink, if_missing, has_child, rmdir_node, rmdir,
}
use spiffile.Errors.{ok}

module _ (d : Disk) (name : Text) (above : Location) where
  pub node_at-put :
      (n : Node) (there : Location)
      → node_at (put (name ∷ above) n d) there
        ≡ (if location_eq (name ∷ above) there then some n else node_at d there)
  unfolding node_at put
  node_at-put n [] = unfold location_eq in refl
  node_at-put n (other ∷ up) = lookup-insert (name ∷ above) (other ∷ up) n d.nodes

  pub node_at-remove :
      (there : Location)
      → node_at (remove (name ∷ above) d) there
        ≡ (if location_eq (name ∷ above) there then none else node_at d there)
  unfolding node_at remove
  node_at-remove [] = unfold location_eq in refl
  node_at-remove (other ∷ up) = lookup-erase (name ∷ above) (other ∷ up) d.nodes

  pub node_at-put_self : (n : Node) → node_at (put (name ∷ above) n d) (name ∷ above) ≡ some n
  node_at-put_self n =
      ground (arith, node_at-put n (name ∷ above), location_eq_iff (name ∷ above) (name ∷ above))

  pub node_at-put_ne :
      (n : Node) (there : Location)
      → location_eq (name ∷ above) there ≡ false
      → node_at (put (name ∷ above) n d) there ≡ node_at d there
  node_at-put_ne n there h = ground (arith, node_at-put n there)

module _ (d : Disk) (p : FilePath) (here : Location) (at_p : locate d p ≡ ok here) where
  pub exists-some : (n : Node) → node_at d here ≡ some n → exists p d ≡ (ok true, d)
  unfolding exists node
  exists-some n e = rw (at_p, e) refl

  pub exists-none : node_at d here ≡ none → exists p d ≡ (ok false, d)
  unfolding exists node
  exists-none e = rw (at_p, e) refl

-- The mode of a file once it is written.
abbrev pub mode_after : Host → Option Node → ℕ
mode_after host (some (file old)) = old.mode
mode_after host _ = host.mode

abbrev pub written : Host → Bytes → Option Node → File
written host bytes old = record { bytes = bytes; mtime = host.mtime; mode = mode_after host old }

-- A file stands there, or its folder does and nothing else.
pub data Writable (d : Disk) (name : Text) (above : Location) : Type 0 where
  old_file : (f : File) → node_at d (name ∷ above) ≡ some (file f) → Writable d name above
  new_file :
      node_at d (name ∷ above) ≡ none → is_folder (node_at d above) ≡ true → Writable d name above

module _ (host : Host) (d : Disk) (p : FilePath) (name : Text) (above : Location)
    (at_p : locate d p ≡ ok (name ∷ above)) where
  pub write_bytes-Writable :
      (bytes : Bytes)
      → Writable d name above
      → write_bytes host p bytes d
        ≡ (ok tt, put (name ∷ above) (file (written host bytes (node_at d (name ∷ above)))) d)
  unfolding write_bytes write_node
  write_bytes-Writable bytes (old_file f e) = rw (at_p, e) refl
  write_bytes-Writable bytes (new_file e is) = rw (at_p, e, is) refl

  pub chmod-file :
      (mode : ℕ) (f : File)
      → node_at d (name ∷ above) ≡ some (file f)
      → chmod p mode d ≡ (ok tt, put (name ∷ above) (file (record f { mode = mode })) d)
  unfolding chmod chmod_node
  chmod-file mode f e = rw (at_p, e) refl

  pub unlink-file :
      (f : File)
      → node_at d (name ∷ above) ≡ some (file f)
      → unlink p d ≡ (ok tt, remove (name ∷ above) d)
  unfolding unlink unlink_at unlink_node
  unlink-file f e = rw (at_p, e) refl

  pub unlink-none :
      node_at d (name ∷ above) ≡ none
      → behind_file d (name ∷ above) ≡ false
      → unlink p d ≡ (ok tt, d)
  unfolding unlink unlink_at unlink_node missing if_missing
  unlink-none e free = rw (at_p, e, free) refl

-- A folder with nothing in it goes away, when its path names it.
pub rmdir-empty :
    (d : Disk) (p : FilePath) (name : Text) (above : Location)
    → locate d p ≡ ok (name ∷ above)
    → is_folder (node_at d (name ∷ above)) ≡ true
    → has_child (name ∷ above) d.nodes ≡ false
    → rmdir p d ≡ (ok tt, remove (name ∷ above) d)
unfolding rmdir rmdir_node
rmdir-empty d p name above at_p is empty = elim (Option-cases (node_at d (name ∷ above))) [
  | inl e ↦ absurd (let h : false ≡ true = rw e at is in cc)
  | inr (folder s, e) ↦ rw (at_p, e, empty) refl
  | inr (file f, e) ↦ absurd (let h : false ≡ true = rw e at is in cc)
]
