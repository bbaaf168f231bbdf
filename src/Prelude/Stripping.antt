-- ===== src/Prelude/Stripping.antt =====
-- `strip` on a text with no white space inside and a newline behind it.
use mathlib.Core.Path.{◌≡◌, refl, ap, ◌∙◌}
use mathlib.Core.Bool.{false}
use mathlib.Core.Logic.{◌≢◌}
use mathlib.Core.List.{List, [], ◌∷◌, ◌++◌, reverse, reverse-append, reverse-reverse, reverse-cons}
use native.Mathlib.Omega.{arith}
use Prim.Native.Nat.{ℕ, ◌≤◌}
use spiffile.Prelude.Strings.{Text, is_space, lstrip, strip}
use spiffile.Prelude.Pieces.{All}

-- No white space.
abbrev pub Bare : ℕ → Type 0
Bare c = is_space c ≡ false

pub graphic-Bare : (c : ℕ) → b'!' ≤ c → c ≤ b'~' → Bare c
unfolding is_space
graphic-Bare c le le' = ground arith

pub All-append :
    {A : Type 0} (P : A → Type 0) (xs ys : List A) → All P xs → All P ys → All P (xs ++ ys)
All-append P [] ys h h' = h'
All-append P (x ∷ xs) ys (h, hs) h' = (h, All-append P xs ys hs h')

pub All-reverse : {A : Type 0} (P : A → Type 0) (xs : List A) → All P xs → All P (reverse xs)
All-reverse P [] h = tt
All-reverse P (x ∷ xs) (h, hs) =
    rw (reverse-cons x xs) (All-append P (reverse xs) (x ∷ []) (All-reverse P xs hs) (h, tt))

lstrip-Bare : (s t : Text) → s ≢ [] → All Bare s → lstrip (s ++ t) ≡ s ++ t
unfolding lstrip
lstrip-Bare [] t ne h = absurd (ne refl)
lstrip-Bare (c ∷ s) t ne (h, hs) = rw h refl

lstrip-All : (s : Text) → All Bare s → lstrip s ≡ s
unfolding lstrip
lstrip-All [] h = refl
lstrip-All (c ∷ s) (h, hs) = rw h refl

pub strip-newline : (s : Text) → s ≢ [] → All Bare s → strip (s ++ b'\n' ∷ []) ≡ s
unfolding strip
strip-newline s ne h =
    ap (λ t. reverse (lstrip (reverse t))) (lstrip-Bare s (b'\n' ∷ []) ne h)
    ∙ ap (λ t. reverse (lstrip t)) (reverse-append s (b'\n' ∷ []))
    ∙ ap reverse (dropped (reverse s) (All-reverse Bare s h))
    ∙ reverse-reverse s
  where
    dropped : (t : Text) → All Bare t → lstrip (b'\n' ∷ t) ≡ t
    dropped t u = unfold lstrip is_space in lstrip-All t u
