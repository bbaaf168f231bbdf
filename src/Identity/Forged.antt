-- ===== src/Identity/Forged.antt =====
-- Tokens that no key of the claimed ID has signed: `Identity.verify` of
-- python/src/spiffile/identity.py.
use spiffile.Prelude.{
  true, false, ◌⊎◌, inl, inr, Option, none, some, List, [], ◌∷◌, ◌≡◌, refl, text_Eq, All,
}
use spiffile.Prelude.Int.{ℤ}
use spiffile.Prelude.Dict.{lookup}
use spiffile.Prelude.Value.{Value, obj, Fields}
use spiffile.Codec.{Codec}
use spiffile.Crypto.{Crypto, Check, IsStrict, Among}
use spiffile.Disk.{Disk}
use spiffile.Errors.{
  Exn, invalid_token, no_matching_key, jwt_error, jwk_error, unknown_identity, ok, raise,
}
use spiffile.SpiffeId.{SpiffeId, to_str}
use spiffile.Bundle.{Bundle, keys_for}
use spiffile.BundleSource
use spiffile.Identity.Choice.{IsUsable, candidates-All}
use spiffile.Identity.{
  Identity, Audience, expected_audience, allowed_algorithms, Claimed, read_claims, decoded,
  with_key, try_keys, verify_with, check_of, verify_claimed, verify,
}

-- A bound EC key under which the signature of the token is not valid.
pub record Rejects (c : Crypto) (token : c.Token) (jwk : Value) : Type 0 where
  pub members : Fields
  pub is_dict : jwk ≡ obj members
  pub rejects :
      ((key : c.PublicKey) × (c.jwk_key jwk ≡ ok key)
        × (c.is_ec key ≡ true)
        × (c.verifies key token ≡ false))
      ⊎ (c.jwk_key jwk ≡ raise (jwt_error jwk_error))

Rejects-IsUsable :
    (c : Crypto) (token : c.Token) (jwk : Value) → Rejects c token jwk → IsUsable c jwk
Rejects-IsUsable c token jwk r = record {
  members = r.members;
  is_dict = r.is_dict;
  reads = elim r.rejects [ inl (key, e, ec, _) ↦ inl (key, e, ec) | inr e ↦ inr e ];
}

AllRejects-AllUsable :
    (c : Crypto) (token : c.Token) (jwks : List Value)
    → All (Rejects c token) jwks
    → All (IsUsable c) jwks
AllRejects-AllUsable c token [] h = tt
AllRejects-AllUsable c token (jwk ∷ jwks) (h, hs) =
    (Rejects-IsUsable c token jwk h, AllRejects-AllUsable c token jwks hs)

module _ (c : Crypto) (strict : IsStrict c) (token : c.Token) (check : Check)
    (alg : Among (c.algorithm token) check.algorithms) where
  try_keys-Rejects :
      (id : SpiffeId) (jwks : List Value)
      → All (Rejects c token) jwks
      → try_keys c token check id jwks ≡ raise (invalid_token no_matching_key)
  unfolding try_keys with_key decoded
  try_keys-Rejects id [] h = refl
  try_keys-Rejects id (jwk ∷ jwks) (h, hs) = elim h.rejects [
    | inl (key, e, ec, bad) ↦
        rw (e, strict.decode-invalid token key check alg ec bad) (try_keys-Rejects id jwks hs)
    | inr e ↦ rw e (try_keys-Rejects id jwks hs)
  ]

  verify_with-Rejects :
      (claimed : Claimed) (b : Bundle) (keys : List Value)
      → lookup (to_str claimed.id) b.identities ≡ some keys
      → All (Rejects c token) keys
      → verify_with c token check claimed b ≡ raise (invalid_token no_matching_key)
  unfolding verify_with keys_for
  verify_with-Rejects claimed b keys bound h =
      let (found, chosen, hs) =
        candidates-All c (Rejects c token) claimed.kid keys (AllRejects-AllUsable c token keys h)
          h in
      rw (bound, chosen) (try_keys-Rejects claimed.id found hs)

-- No key rejects the token where no key is bound.
abbrev pub AllReject : (c : Crypto) → c.Token → Option (List Value) → Type 0
AllReject c token none = Unit
AllReject c token (some keys) = All (Rejects c token) keys

abbrev pub refusal : SpiffeId → Option (List Value) → Exn
refusal id none = unknown_identity (to_str id)
refusal id (some keys) = invalid_token no_matching_key

-- If the current bundle binds keys to the ID that an ES256 token claims, each a JWK object that
-- PyJWT refuses with `PyJWKError` or an EC key under which the signature of the token is not valid,
-- then `verify` raises `InvalidTokenError`; if it binds none to that ID, `UnknownIdentityError`. It
-- does not matter what keys the bundle has for other IDs.
pub verify-Rejects :
    (codec : Codec) (c : Crypto) (at_stat at_read : Disk) (self : Identity c.PrivateKey)
    (token : c.Token) (audience : Option Audience) (leeway now : ℤ) (claimed : Claimed) (b : Bundle)
    → IsStrict c
    → read_claims c token ≡ ok claimed
    → (BundleSource.get codec at_stat at_read self.bundle_source).0 ≡ ok b
    → Among (c.algorithm token) allowed_algorithms
    → AllReject c token (lookup (to_str claimed.id) b.identities)
    → (verify codec c at_stat at_read now self token audience leeway).0
      ≡ raise (refusal claimed.id (lookup (to_str claimed.id) b.identities))
unfolding verify verify_claimed
verify-Rejects codec c at_stat at_read self token audience leeway now claimed b strict reads got alg
      h =
    rw (reads, got) (bound (lookup (to_str claimed.id) b.identities) refl h)
  where
    check : Check
    check = check_of (expected_audience self.id audience) leeway now

    bound :
        (o : Option (List Value))
        → lookup (to_str claimed.id) b.identities ≡ o
        → AllReject c token o
        → verify_with c token check claimed b ≡ raise (refusal claimed.id o)
    bound none e hs = unfold verify_with keys_for in rw e refl
    bound (some keys) e hs = verify_with-Rejects c strict token check alg claimed b keys e hs
