-- ===== src/Disk.antt =====
-- What the program uses of pathlib, os.stat and the file system. A disk is a tree without symbolic
-- links, kept flat: each node under its location. A failure of the system is `FileNotFoundError`,
-- or `OSError` for all the others.
pub mod Paths
pub mod Action
pub mod Locate
pub mod Effects
pub mod Above
pub mod Folders
pub mod Erase
use spiffile.Prelude.{
  ℕ, zero, suc, Text, codes, Bool, true, false, ◌&&◌, ◌||◌, not, Option, some, List, [], ◌∷◌, ◌++◌,
  ◌≡◌, ◌↔◌, arith, nat_eq, nat_eq_iff, text_eq, text_eq_iff, text_Eq, split, Eq, if◌then◌else◌,
}
use spiffile.Prelude.Dict.{Dict, lookup}
use spiffile.Errors.{Exn, os_error, file_not_found, Result, ok, raise, from_option, ◌>>=◌}

abbrev pub Bytes : Type 0
Bytes = List ℕ

-- A pure path of POSIX: how many slashes it begins with (none, one or exactly two), and its parts.
pub record FilePath : Type 0 where
  pub root : ℕ
  pub parts : List Text

abbrev pub keep_part : Text → List Text → List Text
keep_part part rest =
    if text_eq part [] then rest else if text_eq part (codes ".") then rest else part ∷ rest

-- Empty parts and "." are dropped.
unfoldable pub clean : List Text → List Text
clean [] = []
clean (part ∷ parts) = keep_part part (clean parts)

abbrev pub leading : Text → ℕ
leading [] = 0
leading (a ∷ []) = if nat_eq a b'/' then 1 else 0
leading (a ∷ b ∷ []) = if nat_eq a b'/' then (if nat_eq b b'/' then 2 else 1) else 0
leading (a ∷ b ∷ c ∷ _) =
    if nat_eq a b'/' then (if nat_eq b b'/' && not (nat_eq c b'/') then 2 else 1) else 0

-- `Path(text)`
unfoldable pub path : Text → FilePath
unfolding clean
path text = record { root = leading text; parts = clean (split b'/' text) }

-- `p / text`: an absolute text replaces `p`.
unfoldable pub ◌//◌ : FilePath → Text → FilePath
unfolding path
p // text =
    let q = path text in
    if nat_eq q.root 0 then record { root = p.root; parts = p.parts ++ q.parts } else q

infixl 70 ◌//◌
abbrev pub join_parts : List Text → Text
join_parts [] = []
join_parts (part ∷ []) = part
join_parts (part ∷ parts) = part ++ b'/' ∷ join_parts parts

abbrev pub slashes : ℕ → Text
slashes zero = []
slashes (suc n) = b'/' ∷ slashes n

abbrev pub dot_if_empty : Text → Text
dot_if_empty [] = codes "."
dot_if_empty text = text

-- `str(p)`
unfoldable pub path_str : FilePath → Text
path_str p = dot_if_empty (slashes p.root ++ join_parts p.parts)

-- What `os.stat` says of a change: `(st_mtime, st_size)`. The program only compares them.
pub record Stat : Type 0 where
  pub mtime : ℕ
  pub size : ℕ

unfoldable pub stat_eq : Stat → Stat → Bool
stat_eq a b = nat_eq a.mtime b.mtime && nat_eq a.size b.size

pub stat_eq_iff : (a b : Stat) → (stat_eq a b ≡ true) ↔ (a ≡ b)
unfolding stat_eq
stat_eq_iff a b = ground (arith, nat_eq_iff a.mtime b.mtime, nat_eq_iff a.size b.size)

pub record File : Type 0 where
  pub bytes : Bytes
  pub mtime : ℕ
  pub mode : ℕ

pub data Node : Type 0 where
  folder : Stat → Node
  file : File → Node

abbrev pub length : Bytes → ℕ
length [] = 0
length (b ∷ bs) = suc (length bs)

-- The names from the node up to the root of the tree.
abbrev pub Location : Type 0
Location = List Text

unfoldable pub location_eq : Location → Location → Bool
location_eq [] [] = true
location_eq (a ∷ s) (b ∷ t) = text_eq a b && location_eq s t
location_eq _ _ = false

pub location_eq_iff : (s t : Location) → (location_eq s t ≡ true) ↔ (s ≡ t)
unfolding location_eq
location_eq_iff [] [] = ground arith
location_eq_iff (a ∷ s) (b ∷ t) = ground (arith, text_eq_iff a b, location_eq_iff s t)
location_eq_iff _ _ = ground arith

instance abbrev pub location_Eq : Eq Location
location_Eq = record { equals = location_eq; equals_iff = location_eq_iff }

pub record Disk : Type 0 where
  pub nodes : Dict Location Node
  -- the working directory
  pub cwd : Location

unfoldable pub node_at : Disk → Location → Option Node
node_at d [] = some (folder (record { mtime = 0; size = 0 }))
node_at d (name ∷ above) = lookup (name ∷ above) d.nodes

abbrev pub is_folder : Option Node → Bool
is_folder (some (folder _)) = true
is_folder _ = false

abbrev pub is_file : Option Node → Bool
is_file (some (file _)) = true
is_file _ = false

-- Some node on the way to the location is a file.
unfoldable pub behind_file : Disk → Location → Bool
behind_file d [] = false
behind_file d (name ∷ above) = is_file (node_at d (name ∷ above)) || behind_file d above

-- Why there is no folder, or nothing at all: `ENOTDIR` or `ENOENT`.
unfoldable pub missing : Disk → Location → Exn
unfolding behind_file
missing d here = if behind_file d here then os_error else file_not_found

abbrev parent : Location → Location
parent [] = []
parent (name ∷ above) = above

-- Where a path leads from `here`; only a folder has a "..".
unfoldable pub walk : Disk → Location → List Text → Result Location
unfolding missing
walk d here [] = ok here
walk d here (part ∷ parts) =
    if text_eq part (codes "..")
    then (if is_folder (node_at d here) then walk d (parent here) parts else raise (missing d here))
    else walk d (part ∷ here) parts

unfoldable pub locate : Disk → FilePath → Result Location
unfolding walk
locate d p = walk d (if nat_eq p.root 0 then d.cwd else []) p.parts

unfoldable pub node : Disk → FilePath → Result Node
unfolding locate
node d p = do here ← locate d p; from_option (node_at d here) (missing d here)

abbrev pub node_stat : Node → Stat
node_stat (folder s) = s
node_stat (file f) = record { mtime = f.mtime; size = length f.bytes }

-- `os.stat(p)`
unfoldable pub stat : Disk → FilePath → Result Stat
unfolding node
stat d p = do found ← node d p; ok (node_stat found)

abbrev pub content : Node → Result Bytes
content (folder _) = raise os_error
content (file f) = ok f.bytes

-- `p.read_bytes()`
unfoldable pub read_bytes : Disk → FilePath → Result Bytes
unfolding node
read_bytes d p = do found ← node d p; content found
