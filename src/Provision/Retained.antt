-- ===== src/Provision/Retained.antt =====
-- The old keys that `rotate_service` (python/src/spiffile/provision.py) keeps.
use spiffile.Prelude.{
  Text, codes, Bool, true, false, not, Option, some, List, [], ◌∷◌, text_eq, text_eq_iff, text_Eq,
  if◌then◌else◌, ◌≡◌, ◌≢◌, inl, inr, ap, ◌∙◌, arith, All,
}
use spiffile.Crypto.{Among}
use spiffile.Prelude.Value.{Value, str, obj, Fields, get}
use spiffile.Errors.{attribute_error, Result, ok, raise, ◌>>=◌, >>=-eq-ok}
use spiffile.Keys.{item}

-- `kid != new_kid`
unfoldable pub other_kid : Option Value → Value → Bool
other_kid (some (str kid)) (str new_kid) = not (text_eq kid new_kid)
other_kid kid new_kid = true

-- `j.get("kid") != new_jwk["kid"]`, where the new `kid` is a text.
unfoldable pub is_retained : Fields → Value → Result Bool
unfolding other_kid
is_retained new_jwk (obj jwk) = do
  new_kid ← item (codes "kid") new_jwk
  ok (other_kid (get (codes "kid") jwk) new_kid)
is_retained new_jwk _ = raise attribute_error

-- `[j for j in existing if …]`
unfoldable pub without_kid : Fields → List Value → Result (List Value)
unfolding is_retained
without_kid new_jwk [] = ok []
without_kid new_jwk (jwk ∷ existing) = do
  retained ← is_retained new_jwk jwk
  rest ← without_kid new_jwk existing
  ok (if retained then jwk ∷ rest else rest)

if-All :
    (P : Value → Type 0) (retained : Bool) (jwk : Value) (rest : List Value)
    → P jwk
    → All P rest
    → All P (if retained then jwk ∷ rest else rest)
if-All P true jwk rest u us = (u, us)
if-All P false jwk rest u us = us

-- The old keys that are kept are old keys.
pub without_kid-All :
    (P : Value → Type 0) (new_jwk : Fields) (existing kept : List Value)
    → without_kid new_jwk existing ≡ ok kept
    → All P existing
    → All P kept
unfolding without_kid
without_kid-All P new_jwk [] kept h u = let e : [] ≡ kept = ground arith in rw (← e) tt
without_kid-All P new_jwk (jwk ∷ existing) kept h (u, us) =
    let (retained, _, r1) = >>=-eq-ok (is_retained new_jwk jwk) _ h in
    let (rest, is_rest, r2) = >>=-eq-ok (without_kid new_jwk existing) _ r1 in
    let all = without_kid-All P new_jwk existing rest is_rest us in
    let e : (if retained then jwk ∷ rest else rest) ≡ kept = ground arith in
    rw (← e) (if-All P retained jwk rest u all)

other_kid-ne :
    (kid new_kid : Text) → kid ≢ new_kid → other_kid (some (str kid)) (str new_kid) ≡ true
unfolding other_kid
other_kid-ne kid new_kid ne = ground (arith, text_eq_iff kid new_kid)

if-Among :
    (retained : Bool) (old jwk : Value) (rest : List Value)
    → (old ≡ jwk → retained ≡ true)
    → Among old (jwk ∷ rest)
    → Among old (if retained then jwk ∷ rest else rest)
if-Among true old jwk rest h (inl same) = inl same
if-Among true old jwk rest h (inr later) = inr later
if-Among false old jwk rest h (inl same) = absurd (let x = h same in cc)
if-Among false old jwk rest h (inr later) = later

is_retained-old :
    (new_jwk old_jwk : Fields) (new_kid old_kid : Text) (retained : Bool)
    → get (codes "kid") new_jwk ≡ some (str new_kid)
    → get (codes "kid") old_jwk ≡ some (str old_kid)
    → old_kid ≢ new_kid
    → is_retained new_jwk (obj old_jwk) ≡ ok retained
    → retained ≡ true
unfolding is_retained item
is_retained-old new_jwk old_jwk new_kid old_kid retained is_new is_old ne h =
    let e = rw (is_new, is_old, other_kid-ne old_kid new_kid ne) at h in ground arith

-- An old key with another `kid` is kept.
pub without_kid-Among :
    (new_jwk old_jwk : Fields) (new_kid old_kid : Text) (existing kept : List Value)
    → without_kid new_jwk existing ≡ ok kept
    → get (codes "kid") new_jwk ≡ some (str new_kid)
    → get (codes "kid") old_jwk ≡ some (str old_kid)
    → old_kid ≢ new_kid
    → Among (obj old_jwk) existing
    → Among (obj old_jwk) kept
unfolding without_kid
without_kid-Among new_jwk old_jwk new_kid old_kid [] kept h is_new is_old ne a = elim a [ ]
without_kid-Among new_jwk old_jwk new_kid old_kid (jwk ∷ existing) kept h is_new is_old ne a =
    let (retained, is_kept, r1) = >>=-eq-ok (is_retained new_jwk jwk) _ h in
    let (rest, is_rest, r2) = >>=-eq-ok (without_kid new_jwk existing) _ r1 in
    let e : (if retained then jwk ∷ rest else rest) ≡ kept = ground arith in
    let later =
      without_kid-Among new_jwk old_jwk new_kid old_kid existing rest is_rest is_new is_old ne in
    rw (← e) (
      if-Among retained (obj old_jwk) jwk rest
        (λ same.
          is_retained-old new_jwk old_jwk new_kid old_kid retained is_new is_old ne
            (ap (is_retained new_jwk) same ∙ is_kept))
        (elim a [ inl same ↦ inl same | inr among ↦ inr (later among) ]))
