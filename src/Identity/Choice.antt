-- ===== src/Identity/Choice.antt =====
-- The candidates of `Identity.verify` (python/src/spiffile/identity.py), where every bound key is
-- usable.
use spiffile.Prelude.{
  Text, codes, Bool, true, false, ◌⊎◌, inl, inr, Option, List, [], ◌∷◌, ◌≡◌, refl, arith,
  if◌then◌else◌, All, Bool-cases,
}
use spiffile.Prelude.Value.{Value, obj, Fields, get}
use spiffile.Crypto.{Crypto, Among}
use spiffile.Errors.{jwt_error, jwk_error, ok, raise}
use spiffile.Identity.{same_kid, kid_matches, with_kid, or_all, candidates}

-- A bound key that is a JWK object, and that PyJWT reads as an EC key or refuses
-- with `PyJWKError`.
pub record IsUsable (c : Crypto) (jwk : Value) : Type 0 where
  pub members : Fields
  pub is_dict : jwk ≡ obj members
  pub reads :
      ((key : c.PublicKey) × (c.jwk_key jwk ≡ ok key) × (c.is_ec key ≡ true))
      ⊎ (c.jwk_key jwk ≡ raise (jwt_error jwk_error))

abbrev pub names_kid : Option Text → Value → Bool
names_kid kid (obj jwk) = same_kid kid (get (codes "kid") jwk)
names_kid kid _ = false

abbrev chosen : Option Text → List Value → List Value
chosen kid [] = []
chosen kid (jwk ∷ jwks) = if names_kid kid jwk then jwk ∷ chosen kid jwks else chosen kid jwks

All-chosen :
    (P : Value → Type 0) (kid : Option Text) (jwks : List Value)
    → All P jwks
    → All P (chosen kid jwks)
All-chosen P kid [] h = tt
All-chosen P kid (jwk ∷ jwks) (h, hs) = elim (Bool-cases (names_kid kid jwk)) [
  | inl e ↦ rw e (h, All-chosen P kid jwks hs)
  | inr e ↦ rw e (All-chosen P kid jwks hs)
]

Among-chosen :
    (kid : Option Text) (jwk : Value) (jwks : List Value)
    → names_kid kid jwk ≡ true
    → Among jwk jwks
    → Among jwk (chosen kid jwks)
Among-chosen kid jwk [] e a = a
Among-chosen kid jwk (j ∷ jwks) e (inl same) = rw (← same, e) (inl refl)
Among-chosen kid jwk (j ∷ jwks) e (inr later) = elim (Bool-cases (names_kid kid j)) [
  | inl named ↦ rw named (inr (Among-chosen kid jwk jwks e later))
  | inr other ↦ rw other (Among-chosen kid jwk jwks e later)
]

module _ (c : Crypto) where
  with_kid-chosen :
      (kid : Option Text) (jwks : List Value)
      → All (IsUsable c) jwks
      → with_kid kid jwks ≡ ok (chosen kid jwks)
  unfolding with_kid kid_matches
  with_kid-chosen kid [] u = refl
  with_kid-chosen kid (jwk ∷ jwks) (u, us) =
      rw (u.is_dict, with_kid-chosen kid jwks us) (ground arith)

  -- The choice returns, and what holds of every bound key holds of every candidate.
  pub candidates-All :
      (P : Value → Type 0) (kid : Option Text) (jwks : List Value)
      → All (IsUsable c) jwks
      → All P jwks
      → (found : List Value) × (candidates kid jwks ≡ ok found) × All P found
  unfolding candidates
  candidates-All P kid jwks u h = (
    or_all (chosen kid jwks) jwks,
    rw (with_kid-chosen kid jwks u) refl,
    either (chosen kid jwks) (All-chosen P kid jwks h),
  )
    where
      either : (found : List Value) → All P found → All P (or_all found jwks)
      either [] hs = h
      either (j ∷ js) hs = hs

  -- A bound key that the token names is a candidate.
  pub candidates-named :
      (kid : Option Text) (jwks : List Value) (jwk : Value)
      → All (IsUsable c) jwks
      → Among jwk jwks
      → names_kid kid jwk ≡ true
      → (found : List Value) × (candidates kid jwks ≡ ok found)
        × All (IsUsable c) found
        × Among jwk found
  unfolding candidates
  candidates-named kid jwks jwk u a e =
      either (chosen kid jwks) (with_kid-chosen kid jwks u) (All-chosen (IsUsable c) kid jwks u)
        (Among-chosen kid jwk jwks e a)
    where
      either :
          (found : List Value)
          → with_kid kid jwks ≡ ok found
          → All (IsUsable c) found
          → Among jwk found
          → (found : List Value) × (candidates kid jwks ≡ ok found)
            × All (IsUsable c) found
            × Among jwk found
      either [] p h b = absurd b
      either (j ∷ js) p h b = (j ∷ js, rw p refl, h, b)
