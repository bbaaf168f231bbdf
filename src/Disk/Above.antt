-- ===== src/Disk/Above.antt =====
-- How deep a location lies, and which ones are on the way to it.
use spiffile.Prelude.{
  suc, ◌≤◌, ◌<◌, ℕ, Text, Bool, true, false, ◌||◌, List, [], ◌∷◌, ◌≡◌, refl, ap, arith, Bool-cases,
  inl, inr,
}
use spiffile.Disk.{Location, location_eq, location_eq_iff, location_Eq}
use spiffile.Disk.Locate.{descend}

abbrev pub depth : Location → ℕ
depth [] = 0
depth (_ ∷ above) = suc (depth above)

-- Whether a location is another one, or a folder on the way to it.
abbrev pub is_above : Location → Location → Bool
is_above here [] = location_eq here []
is_above here (name ∷ above) = location_eq here (name ∷ above) || is_above here above

pub is_above-deeper :
    (here deepest : Location) → depth deepest < depth here → is_above here deepest ≡ false
is_above-deeper here [] lt = elim (Bool-cases (location_eq here [])) [
  | inl e ↦ absurd (omega (arith, ap depth ((location_eq_iff here []).0 e)))
  | inr e ↦ e
]
is_above-deeper here (name ∷ above) lt =
    let up = is_above-deeper here above (omega arith) in
    elim (Bool-cases (location_eq here (name ∷ above))) [
      | inl e ↦ absurd (omega (arith, ap depth ((location_eq_iff here (name ∷ above)).0 e)))
      | inr e ↦ rw e up
    ]

pub is_above_self : (here : Location) → is_above here here ≡ true
unfolding location_eq
is_above_self [] = refl
is_above_self (name ∷ above) = rw ((location_eq_iff (name ∷ above) (name ∷ above)).1 refl) refl

or_true : (b : Bool) → (b || true) ≡ true
or_true true = refl
or_true false = refl

pub is_above-descend :
    (x : Location) (parts : List Text) (here : Location)
    → is_above x here ≡ true
    → is_above x (descend parts here) ≡ true
unfolding descend
is_above-descend x [] here h = h
is_above-descend x (part ∷ parts) here h =
    is_above-descend x parts (part ∷ here) (rw h (or_true (location_eq x (part ∷ here))))

pub depth-descend : (parts : List Text) (here : Location) → depth here ≤ depth (descend parts here)
unfolding descend
depth-descend [] here = omega arith
depth-descend (part ∷ parts) here = omega (arith, depth-descend parts (part ∷ here))
