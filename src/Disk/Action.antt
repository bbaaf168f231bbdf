-- ===== src/Disk/Action.antt =====
-- Calls that change the disk. A call returns its result and the disk as it is then: what was done
-- before a raise stays done.
use spiffile.Prelude.{
  ◌≡◌, refl, ap, ℕ, Text, codes, Bool, true, false, ◌||◌, Option, none, some, List, [], ◌∷◌,
  text_eq, nat_eq, if◌then◌else◌,
}
use spiffile.Prelude.Dict.{Dict, insert, erase}
use spiffile.Errors.{Exn, os_error, file_not_found, Result, ok, raise}
use spiffile.Disk.{
  Bytes, FilePath, Node, folder, file, Location, location_eq, location_Eq, Disk, node_at, is_folder,
  missing, locate, node,
}

abbrev pub Action : Type 0 → Type 0
Action A = Disk → Result A × Disk

module _ {A : Type 0} where
  abbrev pub pure : A → Action A
  pure a d = (ok a, d)

  abbrev pub fail : Exn → Action A
  fail e d = (raise e, d)

  -- A call that only looks.
  abbrev pub look : (Disk → Result A) → Action A
  look f d = (f d, d)

  abbrev pub lift : Result A → Action A
  lift r d = (r, d)

  -- `if c: …`
  abbrev pub when : Bool → Action A → Action A → Action A
  when c yes_part no_part d = (if c then yes_part else no_part) d

unfoldable pub goes_on : {A B : Type 0} → (A → Action B) → Result A × Disk → Result B × Disk
goes_on next (ok a, d) = next a d
goes_on next (raise x, d) = (raise x, d)

infixl 5 ◌>>=◌ ◌>>◌
unfoldable pub ◌>>=◌ : {A B : Type 0} → Action A → (A → Action B) → Action B
unfolding goes_on
◌>>=◌ m next d = goes_on next (m d)

abbrev pub ◌>>◌ : {A B : Type 0} → Action A → Action B → Action B
m >> next = m >>= λ _. next

module _ {A B : Type 0} (m : Action A) (next : A → Action B) (d : Disk) where
  pub >>=-ok : {a : A} {d' : Disk} → m d ≡ (ok a, d') → (m >>= next) d ≡ next a d'
  unfolding ◌>>=◌
  >>=-ok e = ap (goes_on next) e

  pub >>=-raise : {x : Exn} {d' : Disk} → m d ≡ (raise x, d') → (m >>= next) d ≡ (raise x, d')
  unfolding ◌>>=◌
  >>=-raise e = ap (goes_on next) e

-- A call that returns has gone through both.
pub >>=-eq-ok :
    {A B : Type 0} (m : Action A) (next : A → Action B) (d : Disk) {b : B} {d' : Disk}
    → (m >>= next) d ≡ (ok b, d')
    → (a : A) × (d1 : Disk) × (m d ≡ (ok a, d1)) × (next a d1 ≡ (ok b, d'))
unfolding ◌>>=◌ goes_on
>>=-eq-ok {A} {B} m next d {b} {d'} h = through (m d) refl h
  where
    through :
        (r : Result A × Disk)
        → m d ≡ r
        → goes_on next r ≡ (ok b, d')
        → (a : A) × (d1 : Disk) × (m d ≡ (ok a, d1)) × (next a d1 ≡ (ok b, d'))
    through (ok a, d1) e h' = (a, d1, e, h')
    through (raise x, d1) e h' =
        let same : raise x ≡ ok b = ap (λ (q : Result B × Disk). q.0) h' in absurd (cc)

-- What the system gives to a file that is written: the time, and the mode if the file is new.
pub record Host : Type 0 where
  pub mtime : ℕ
  pub mode : ℕ

unfoldable pub put : Location → Node → Disk → Disk
put here n d = record d { nodes = insert here n d.nodes }

unfoldable pub remove : Location → Disk → Disk
remove here d = record d { nodes = erase here d.nodes }

abbrev pub returns : {A : Type 0} → Result A → Bool
returns (ok _) = true
returns (raise _) = false

-- `p.exists()`
unfoldable pub exists : FilePath → Action Bool
exists p d = (ok (returns (node d p)), d)

-- A call on the location that the path leads to.
abbrev pub at_result : {A : Type 0} → (Location → Action A) → Result Location → Action A
at_result call (ok here) d = call here d
at_result call (raise e) d = (raise e, d)

abbrev pub at : {A : Type 0} → FilePath → (Location → Action A) → Action A
at p call d = at_result call (locate d p) d

-- A new file needs a folder; an old one keeps its mode.
unfoldable pub write_node : Host → Bytes → Location → Option Node → Action (Unit {0})
unfolding put
write_node host bytes [] n d = (raise os_error, d)
write_node host bytes here (some (folder _)) d = (raise os_error, d)
write_node host bytes here (some (file old)) d =
    (ok tt, put here (file (record { bytes = bytes; mtime = host.mtime; mode = old.mode })) d)
write_node host bytes (name ∷ above) none d =
    if is_folder (node_at d above)
    then (
      ok tt,
      put (name ∷ above) (file (record { bytes = bytes; mtime = host.mtime; mode = host.mode })) d,
    )
    else (raise (missing d (name ∷ above)), d)

-- `p.write_bytes(bytes)`
unfoldable pub write_bytes : Host → FilePath → Bytes → Action (Unit {0})
unfolding write_node
write_bytes host p bytes = at p λ here d. write_node host bytes here (node_at d here) d

unfoldable pub chmod_node : ℕ → Location → Option Node → Action (Unit {0})
unfolding put
chmod_node mode here (some (file f)) d = (ok tt, put here (file (record f { mode = mode })) d)
chmod_node mode here (some (folder _)) d = (ok tt, d)
chmod_node mode here none d = (raise (missing d here), d)

-- `p.chmod(mode)`; a folder's mode is not kept.
unfoldable pub chmod : FilePath → ℕ → Action (Unit {0})
unfolding chmod_node
chmod p mode = at p λ here d. chmod_node mode here (node_at d here) d

-- `FileNotFoundError` is ignored.
unfoldable pub if_missing : Disk → Exn → Result (Unit {0}) × Disk
if_missing d file_not_found = (ok tt, d)
if_missing d e = (raise e, d)

unfoldable pub unlink_node : Location → Option Node → Action (Unit {0})
unfolding remove if_missing
unlink_node here (some (file _)) d = (ok tt, remove here d)
unlink_node here (some (folder _)) d = (raise os_error, d)
unlink_node here none d = if_missing d (missing d here)

unfoldable pub unlink_at : Result Location → Action (Unit {0})
unfolding unlink_node if_missing
unlink_at (ok here) d = unlink_node here (node_at d here) d
unlink_at (raise e) d = if_missing d e

-- `p.unlink(missing_ok=True)`
unfoldable pub unlink : FilePath → Action (Unit {0})
unfolding unlink_at
unlink p d = unlink_at (locate d p) d

-- The node stands in the folder.
abbrev pub is_child : Location → Location → Bool
is_child here [] = false
is_child here (_ ∷ above) = location_eq above here

unfoldable pub has_child : Location → Dict Location Node → Bool
has_child here [] = false
has_child here ((there, _) ∷ nodes) = is_child here there || has_child here nodes

unfoldable pub rmdir_node : Location → Option Node → Action (Unit {0})
unfolding remove has_child
rmdir_node [] n d = (raise os_error, d)
rmdir_node here (some (file _)) d = (raise os_error, d)
rmdir_node here (some (folder _)) d =
    if has_child here d.nodes then (raise os_error, d) else (ok tt, remove here d)
rmdir_node here none d = (raise (missing d here), d)

-- `p.rmdir()`
unfoldable pub rmdir : FilePath → Action (Unit {0})
unfolding rmdir_node
rmdir p = at p λ here d. rmdir_node here (node_at d here) d

abbrev pub above_of : Location → Location
above_of [] = []
above_of (_ ∷ above) = above

-- A folder is made unless there is one.
unfoldable pub make_node : Host → Location → Option Node → Action (Unit {0})
unfolding put
make_node host here (some (folder _)) d = (ok tt, d)
make_node host here (some (file _)) d = (raise os_error, d)
make_node host here none d = (ok tt, put here (folder (record { mtime = host.mtime; size = 0 })) d)

-- The folders of a path, the first one first.
unfoldable pub make_folders : Host → Location → List Text → Action (Unit {0})
unfolding make_node
make_folders host here [] = pure tt
make_folders host here (part ∷ parts) =
    let up = make_folders host (above_of here) parts in
    let down = make_folders host (part ∷ here) parts in
    if text_eq part (codes "..")
    then up
    else (λ d. make_node host (part ∷ here) (node_at d (part ∷ here)) d) >> down

-- `p.mkdir(parents=True, exist_ok=True)`
unfoldable pub mkdir : Host → FilePath → Action (Unit {0})
unfolding make_folders
mkdir host p d = make_folders host (if nat_eq p.root 0 then d.cwd else []) p.parts d
