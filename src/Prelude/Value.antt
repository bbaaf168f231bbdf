-- ===== src/Prelude/Value.antt =====
-- The values that `json.loads` makes: Python's None, bool, int, float, str, list and dict.
use mathlib.Core.Path.{◌≡◌, refl, ap}
use mathlib.Core.Bool.{Bool, true, false, ◌||◌, not}
use mathlib.Core.Option.{Option, none, some}
use mathlib.Core.List.{List, [], ◌∷◌}
use Prim.Native.Nat.{ℕ, ◌^◌}
use spiffile.Prelude.Tests.{nat_eq, ◌==◌, if◌then◌else◌}
use spiffile.Prelude.Strings.{Text, text_Eq}
use spiffile.Prelude.Int.{ℤ, pos, negsuc}
use spiffile.Prelude.Dict.{Dict}

-- `float` holds the 64 bits of the double.
mutual
  pub data Value : Type 0 where
    null : Value
    bool : Bool → Value
    int : ℤ → Value
    float : ℕ → Value
    str : Text → Value
    arr : Items → Value
    obj : Fields → Value

  pub data Items : Type 0 where
    nil : Items
    cons : Value → Items → Items

  pub data Fields : Type 0 where
    end : Fields
    field : Text → Value → Fields → Fields

-- A list, and back.
abbrev pub elements : Items → List Value
elements nil = []
elements (cons v vs) = v ∷ elements vs

abbrev pub items_of : List Value → Items
items_of [] = nil
items_of (v ∷ vs) = cons v (items_of vs)

-- A dict's `items()`, and a dict from them.
abbrev pub entries : Fields → Dict Text Value
entries end = []
entries (field k v fs) = (k, v) ∷ entries fs

abbrev pub fields_of : Dict Text Value → Fields
fields_of [] = end
fields_of ((k, v) ∷ d) = field k v (fields_of d)

pub elements-items_of : (vs : List Value) → elements (items_of vs) ≡ vs
elements-items_of [] = refl
elements-items_of (v ∷ vs) = ap (◌∷◌ v) (elements-items_of vs)

pub entries-fields_of : (d : Dict Text Value) → entries (fields_of d) ≡ d
entries-fields_of [] = refl
entries-fields_of ((k, v) ∷ d) = ap (◌∷◌ (k, v)) (entries-fields_of d)

-- `fs.get(k)` on a dict of that kind; `none` is a key that is not there.
abbrev pub get : Text → Fields → Option Value
get k end = none
get k (field j v fs) = if j == k then some v else get k fs

-- `bool(v)`: what `not v` tests. A float is false at 0.0 and at -0.0.
unfoldable pub truthy : Value → Bool
truthy null = false
truthy (bool b) = b
truthy (int (pos n)) = not (nat_eq n 0)
truthy (int (negsuc n)) = true
truthy (float bits) = not (nat_eq bits 0 || nat_eq bits (2 ^ 63))
truthy (str []) = false
truthy (str _) = true
truthy (arr nil) = false
truthy (arr _) = true
truthy (obj end) = false
truthy (obj _) = true
