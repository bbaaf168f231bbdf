-- ===== src/Prelude/Pieces.antt =====
-- Laws of `strip_prefix`, `partition` and `split`: what they return puts together to the text, and
-- a text that is put together so is taken apart again.
use mathlib.Core.Path.{◌≡◌, refl, ap}
use mathlib.Core.Bool.{Bool, true, false}
use mathlib.Core.Option.{some}
use mathlib.Core.List.{List, [], ◌∷◌, ◌++◌}
use mathlib.Core.Logic.{◌≢◌, inl, inr}
use native.Mathlib.Omega.{arith}
use Prim.Native.Nat.{ℕ}
use spiffile.Prelude.Tests.{nat_eq, if◌then◌else◌, Bool-cases}
use spiffile.Prelude.Strings.{Text, strip_prefix, partition, split_first, split}

-- A predicate that holds of every element.
abbrev pub All {ℓ κ} : {A : Type ℓ} → (A → Type κ) → List A → Type κ
All P [] = Unit
All P (x ∷ xs) = P x × All P xs

-- The text has no character `sep`.
abbrev pub Lacks : ℕ → Text → Type 0
Lacks sep [] = Unit
Lacks sep (c ∷ s) = (c ≢ sep) × Lacks sep s

pub strip_prefix-append : (p s : Text) → strip_prefix p (p ++ s) ≡ some s
unfolding strip_prefix
strip_prefix-append [] s = refl
strip_prefix-append (a ∷ p) s = ground (arith, strip_prefix-append p s)

pub strip_prefix_sound : (p s : Text) {t : Text} → strip_prefix p s ≡ some t → s ≡ p ++ t
unfolding strip_prefix
strip_prefix_sound [] s h = ground arith
strip_prefix_sound (a ∷ p) [] h = ground arith
strip_prefix_sound (a ∷ p) (b ∷ s) {t} h = ground (arith, strip_prefix_sound p s {t = t})

module _ (sep : ℕ) where
  -- A text from the parts that `partition` gives.
  abbrev pub unpartition : Text × Bool × Text → Text
  unpartition (before, found, after) = before ++ (if found then sep ∷ after else after)

  pub partition_sound : (s : Text) → unpartition (partition sep s) ≡ s
  unfolding partition
  partition_sound [] = refl
  partition_sound (c ∷ s) = ground (arith, partition_sound s)

  pub partition-append : (a b : Text) → Lacks sep a → partition sep (a ++ sep ∷ b) ≡ (a, true, b)
  unfolding partition
  partition-append [] b h = ground arith
  partition-append (c ∷ a) b (ne, h) = ground (arith, partition-append a b h)

  pub partition-Lacks : (a : Text) → Lacks sep a → partition sep a ≡ (a, false, [])
  unfolding partition
  partition-Lacks [] h = refl
  partition-Lacks (c ∷ a) (ne, h) = ground (arith, partition-Lacks a h)

  pub partition-Lacks_before : (s : Text) → Lacks sep (partition sep s).0
  unfolding partition
  partition-Lacks_before [] = tt
  partition-Lacks_before (c ∷ s) = elim (Bool-cases (nat_eq c sep)) [
    | inl e ↦ rw e tt
    | inr e ↦ rw e (ground arith, partition-Lacks_before s)
  ]

  -- Nothing stands behind a separator that is not there.
  pub partition-none : (s : Text) → (partition sep s).1 ≡ false → (partition sep s).2 ≡ []
  unfolding partition
  partition-none [] h = refl
  partition-none (c ∷ s) h = ground (arith, partition-none s)

  -- The pieces, each behind a separator.
  abbrev pub join_behind : List Text → Text
  join_behind [] = []
  join_behind (s ∷ ss) = sep ∷ (s ++ join_behind ss)

  split_first_sound : (s : Text) → (split_first sep s).0 ++ join_behind (split_first sep s).1 ≡ s
  unfolding split_first
  split_first_sound [] = refl
  split_first_sound (c ∷ s) = ground (arith, split_first_sound s)

  pub split_sound : (s : Text) → join_behind (split sep s) ≡ sep ∷ s
  unfolding split
  split_sound s = ap (◌∷◌ sep) (split_first_sound s)

  split_first-Lacks :
      (s : Text) → Lacks sep (split_first sep s).0 × All (Lacks sep) (split_first sep s).1
  unfolding split_first
  split_first-Lacks [] = (tt, tt)
  split_first-Lacks (c ∷ s) =
      let (first, others) = split_first-Lacks s in
      elim (Bool-cases (nat_eq c sep)) [
        | inl e ↦ rw e (tt, (first, others))
        | inr e ↦ rw e ((ground arith, first), others)
      ]

  pub split-Lacks : (s : Text) → All (Lacks sep) (split sep s)
  unfolding split
  split-Lacks s = split_first-Lacks s

  split_first-join_behind :
      (p : Text) (ps : List Text)
      → Lacks sep p
      → All (Lacks sep) ps
      → split_first sep (p ++ join_behind ps) ≡ (p, ps)
  unfolding split_first
  split_first-join_behind [] [] h hs = refl
  split_first-join_behind [] (q ∷ ps) h (hq, hs) =
      ground (arith, split_first-join_behind q ps hq hs)
  split_first-join_behind (c ∷ p) ps (ne, h) hs = ground (arith, split_first-join_behind p ps h hs)

  pub split-join_behind :
      (p : Text) (ps : List Text)
      → Lacks sep p
      → All (Lacks sep) ps
      → split sep (p ++ join_behind ps) ≡ p ∷ ps
  unfolding split
  split-join_behind p ps h hs = ground (arith, split_first-join_behind p ps h hs)
