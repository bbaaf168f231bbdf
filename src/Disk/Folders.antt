-- ===== src/Disk/Folders.antt =====
-- `mkdir(parents=True, exist_ok=True)`, where no file stands in its way.
use spiffile.Prelude.{
  ◌<◌, Text, codes, true, false, Option, none, some, List, [], ◌∷◌, ◌++◌, ◌≡◌, refl, ap, ◌∙◌, arith,
  text_eq, text_eq_iff, Bool-cases, Option-cases, inl, inr,
}
use spiffile.Disk.{
  FilePath, Node, folder, file, Location, location_eq, location_eq_iff, location_Eq, Disk, node_at,
  is_folder, is_file, behind_file,
}
use spiffile.Disk.Action.{Host, put, make_node, make_folders, mkdir, >>=-ok}
use spiffile.Disk.Locate.{Steps, IsDirect, base, place, descend}
use spiffile.Errors.{ok}
use spiffile.Disk.Effects.{node_at-put, node_at-put_self, node_at-put_ne}
use spiffile.Disk.Above.{depth, is_above, is_above-deeper, is_above_self, is_above-descend}

-- A disk with more folders, all on the way to one location.
pub record Grows (d d' : Disk) (deepest : Location) : Type 0 where
  pub cwd_is : d'.cwd ≡ d.cwd
  pub kept : (here : Location) (n : Node) → node_at d here ≡ some n → node_at d' here ≡ some n
  pub no_file : (here : Location) → node_at d here ≡ none → is_file (node_at d' here) ≡ false
  pub no_other :
      (here : Location)
      → node_at d here ≡ none
      → is_above here deepest ≡ false
      → node_at d' here ≡ none

-- Below the location, nothing appears.
pub no_deeper :
    (d d' : Disk) (deepest here : Location)
    → Grows d d' deepest
    → node_at d here ≡ none
    → depth deepest < depth here
    → node_at d' here ≡ none
no_deeper d d' deepest here g e lt = g.no_other here e (is_above-deeper here deepest lt)

Grows-refl : (d : Disk) (n : Location) → Grows d d n
Grows-refl d n = record {
  cwd_is = refl;
  kept = λ here n e. e;
  no_file = λ here e. rw e refl;
  no_other = λ here e lt. e;
}

pub Grows-is_file :
    (d d' : Disk) (n here : Location)
    → Grows d d' n
    → is_file (node_at d here) ≡ false
    → is_file (node_at d' here) ≡ false
Grows-is_file d d' n here g h = elim (Option-cases (node_at d here)) [
  | inl e ↦ g.no_file here e
  | inr (x, e) ↦ rw (g.kept here x e) (rw e at h)
]

Grows-trans : (d d1 d2 : Disk) (n : Location) → Grows d d1 n → Grows d1 d2 n → Grows d d2 n
Grows-trans d d1 d2 n g h = record {
  cwd_is = h.cwd_is ∙ g.cwd_is;
  kept = λ here x e. h.kept here x (g.kept here x e);
  no_file = λ here e. Grows-is_file d1 d2 n here h (g.no_file here e);
  no_other = λ here e lt. h.no_other here (g.no_other here e lt) lt;
}

Grows-folder :
    (d : Disk) (name : Text) (above : Location) (s : Node) (deepest : Location)
    → is_file (some s) ≡ false
    → is_above (name ∷ above) deepest ≡ true
    → node_at d (name ∷ above) ≡ none
    → Grows d (put (name ∷ above) s d) deepest
Grows-folder d name above s deepest is on_way e = record {
  cwd_is = unfold put in refl;
  kept = λ here x e'.
      ground (arith, node_at-put d name above s here, location_eq_iff (name ∷ above) here);
  no_file = λ here e'. ground (arith, node_at-put d name above s here);
  no_other = λ here e' off_way. elim (Bool-cases (location_eq (name ∷ above) here)) [
    | inl same ↦ absurd (
        let x : is_above here deepest ≡ true =
          rw ((location_eq_iff (name ∷ above) here).0 same) at on_way in
        cc)
    | inr other ↦ node_at-put_ne d name above s here other ∙ e'
  ];
}

-- No file stands where a folder of the path is to be.
abbrev Free : Disk → Location → List Text → Type 0
Free d here [] = Unit
Free d here (part ∷ parts) =
    (is_file (node_at d (part ∷ here)) ≡ false) × Free d (part ∷ here) parts

behind_file-descend :
    (d : Disk) (parts : List Text) (here : Location)
    → behind_file d (descend parts here) ≡ false
    → behind_file d here ≡ false
unfolding descend behind_file
behind_file-descend d [] here h = h
behind_file-descend d (part ∷ parts) here h =
    let up = behind_file-descend d parts (part ∷ here) h in ground arith

behind_file-Free :
    (d : Disk) (parts : List Text) (here : Location)
    → behind_file d (descend parts here) ≡ false
    → Free d here parts
unfolding descend behind_file
behind_file-Free d [] here h = tt
behind_file-Free d (part ∷ parts) here h =
    let up = behind_file-descend d parts (part ∷ here) h in
    (ground arith, behind_file-Free d parts (part ∷ here) h)

Grows-Free :
    (d d' : Disk) (n here : Location) (parts : List Text)
    → Grows d d' n
    → Free d here parts
    → Free d' here parts
Grows-Free d d' n here [] g h = tt
Grows-Free d d' n here (part ∷ parts) g (h, hs) =
    (Grows-is_file d d' n (part ∷ here) g h, Grows-Free d d' n (part ∷ here) parts g hs)

make_node-Grows :
    (host : Host) (d : Disk) (name : Text) (above n : Location)
    → is_above (name ∷ above) n ≡ true
    → is_file (node_at d (name ∷ above)) ≡ false
    → (d' : Disk) × (make_node host (name ∷ above) (node_at d (name ∷ above)) d ≡ (ok tt, d'))
      × Grows d d' n
      × (is_folder (node_at d' (name ∷ above)) ≡ true)
unfolding make_node
make_node-Grows host d name above n le h = made (node_at d (name ∷ above)) refl h
  where
    made :
        (o : Option Node)
        → node_at d (name ∷ above) ≡ o
        → is_file o ≡ false
        → (d' : Disk) × (make_node host (name ∷ above) o d ≡ (ok tt, d'))
          × Grows d d' n
          × (is_folder (node_at d' (name ∷ above)) ≡ true)
    made none e is = (
      put (name ∷ above) (folder (record { mtime = host.mtime; size = 0 })) d,
      refl,
      Grows-folder d name above _ n refl le e,
      ap is_folder
          (node_at-put_self d name above (folder (record { mtime = host.mtime; size = 0 }))),
    )
    made (some (folder s)) e is = (d, refl, Grows-refl d n, ap is_folder e)
    made (some (file f)) e is = absurd (cc)

-- Every folder on the way is there.
abbrev pub AllFolders : Disk → Location → List Text → Type 0
AllFolders d here [] = is_folder (node_at d here) ≡ true
AllFolders d here (part ∷ parts) =
    (is_folder (node_at d here) ≡ true) × AllFolders d (part ∷ here) parts

Grows-is_folder :
    (d d' : Disk) (n here : Location)
    → Grows d d' n
    → is_folder (node_at d here) ≡ true
    → is_folder (node_at d' here) ≡ true
Grows-is_folder d d' n here g h = elim (Option-cases (node_at d here)) [
  | inl e ↦ absurd (let x : false ≡ true = rw e at h in cc)
  | inr (x, e) ↦ rw (g.kept here x e) (rw e at h)
]

pub AllFolders-append :
    (d : Disk) (here : Location) (ps qs : List Text)
    → AllFolders d here (ps ++ qs)
    → AllFolders d (descend ps here) qs
unfolding descend
AllFolders-append d here [] qs h = h
AllFolders-append d here (p ∷ ps) qs (_, h) = AllFolders-append d (p ∷ here) ps qs h

make_folders-Grows :
    (host : Host) (d : Disk) (here : Location) (parts : List Text)
    → Steps parts
    → Free d here parts
    → is_folder (node_at d here) ≡ true
    → (d' : Disk) × (make_folders host here parts d ≡ (ok tt, d'))
      × Grows d d' (descend parts here)
      × (is_folder (node_at d' (descend parts here)) ≡ true)
      × AllFolders d' here parts
unfolding make_folders descend
make_folders-Grows host d here [] steps free is = (d, refl, Grows-refl d _, is, is)
make_folders-Grows host d here (part ∷ parts) (ne, steps) (free, frees) is =
    let n = descend parts (part ∷ here) in
    let (d1, made, grows, is1) =
      make_node-Grows host d part here n
        (is_above-descend (part ∷ here) parts (part ∷ here) (is_above_self (part ∷ here))) free in
    let (d2, rest, grows', is2, all) =
      make_folders-Grows host d1 (part ∷ here) parts steps
        (Grows-Free d d1 n (part ∷ here) parts grows frees) is1 in
    let not_up : text_eq part (codes "..") ≡ false =
      ground (arith, text_eq_iff part (codes "..")) in
    (
      d2,
      rw not_up (>>=-ok _ _ d made ∙ rest),
      Grows-trans d d1 d2 n grows grows',
      is2,
      (Grows-is_folder d1 d2 n here grows' (Grows-is_folder d d1 n here grows is), all),
    )

-- The folder is there, and all that was there is.
pub mkdir-Grows :
    (host : Host) (d : Disk) (p : FilePath)
    → IsDirect p
    → behind_file d (place d.cwd p) ≡ false
    → is_folder (node_at d (base d.cwd p)) ≡ true
    → (d' : Disk) × (mkdir host p d ≡ (ok tt, d'))
      × Grows d d' (place d.cwd p)
      × (is_folder (node_at d' (place d.cwd p)) ≡ true)
      × AllFolders d' (base d.cwd p) p.parts
unfolding mkdir place
mkdir-Grows host d p direct free is =
    make_folders-Grows host d (base d.cwd p) p.parts direct
      (behind_file-Free d p.parts (base d.cwd p) free) is
