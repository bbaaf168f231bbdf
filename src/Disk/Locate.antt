-- ===== src/Disk/Locate.antt =====
-- Where a path leads that has no "..".
use spiffile.Prelude.{
  Text, codes, List, [], ◌∷◌, ◌++◌, ◌≡◌, ◌≢◌, refl, ap, ◌∙◌, arith, text_eq_iff, nat_eq, All,
  if◌then◌else◌,
}
use spiffile.Prelude.Stripping.{All-append}
use spiffile.Disk.{FilePath, path, ◌//◌, Location, Disk, walk, locate}
use spiffile.Errors.{ok}

abbrev pub Steps : List Text → Type 0
Steps = All (λ part. part ≢ codes "..")

abbrev pub IsDirect : FilePath → Type 0
IsDirect p = Steps p.parts

unfoldable pub descend : List Text → Location → Location
descend [] here = here
descend (part ∷ parts) here = descend parts (part ∷ here)

pub descend-append :
    (ps qs : List Text) (here : Location) → descend (ps ++ qs) here ≡ descend qs (descend ps here)
unfolding descend
descend-append [] qs here = refl
descend-append (p ∷ ps) qs here = descend-append ps qs (p ∷ here)

pub descend-one : (part : Text) (here : Location) → descend (part ∷ []) here ≡ part ∷ here
unfolding descend
descend-one part here = refl

abbrev pub base : Location → FilePath → Location
base cwd p = if nat_eq p.root 0 then cwd else []

-- The location, for a working directory.
unfoldable pub place : Location → FilePath → Location
place cwd p = descend p.parts (base cwd p)

walk-Steps :
    (d : Disk) (here : Location) (parts : List Text)
    → Steps parts
    → walk d here parts ≡ ok (descend parts here)
unfolding walk descend
walk-Steps d here [] h = refl
walk-Steps d here (part ∷ parts) (h, hs) =
    ground (arith, text_eq_iff part (codes ".."), walk-Steps d (part ∷ here) parts hs)

pub locate-IsDirect : (d : Disk) (p : FilePath) → IsDirect p → locate d p ≡ ok (place d.cwd p)
unfolding locate place
locate-IsDirect d p h = walk-Steps d (base d.cwd p) p.parts h

-- A text that stands for a path below another.
pub record IsBelow (text : Text) (parts : List Text) : Type 0 where
  pub is_path : path text ≡ record { root = 0; parts = parts }
  pub steps : Steps parts

pub //-IsBelow :
    (p : FilePath) (text : Text) (parts : List Text)
    → IsBelow text parts
    → p // text ≡ record { root = p.root; parts = p.parts ++ parts }
unfolding ◌//◌
//-IsBelow p text parts b = ap onto b.is_path
  where
    onto : FilePath → FilePath
    onto q = if nat_eq q.root 0 then record { root = p.root; parts = p.parts ++ q.parts } else q

pub //-IsDirect :
    (p : FilePath) (text : Text) (parts : List Text)
    → IsBelow text parts
    → IsDirect p
    → IsDirect (p // text)
//-IsDirect p text parts b h =
    rw (//-IsBelow p text parts b) (All-append (λ part. part ≢ codes "..") p.parts parts h b.steps)

pub place-// :
    (cwd : Location) (p : FilePath) (text : Text) (parts : List Text)
    → IsBelow text parts
    → place cwd (p // text) ≡ descend parts (place cwd p)
unfolding place
place-// cwd p text parts b =
    ap place' (//-IsBelow p text parts b) ∙ descend-append p.parts parts (base cwd p)
  where
    place' : FilePath → Location
    place' q = descend q.parts (base cwd q)
