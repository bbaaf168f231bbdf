-- ===== src/Identity/RoundTrip.antt =====
-- A token of `Identity.token` under `Identity.verify` (python/src/spiffile/identity.py).
use spiffile.Prelude.{
  Text, codes, true, inl, inr, Option, some, List, [], ◌∷◌, ◌≡◌, refl, ap, text_Eq, text_eq,
  text_eq_iff, All, Bool-cases,
}
use spiffile.Prelude.Int.{ℤ, ◌+ℤ◌, ◌<ℤ◌, ◌≤ℤ◌}
use spiffile.Prelude.Dict.{lookup}
use spiffile.Prelude.Value.{Value, str, obj, Fields, get, truthy}
use spiffile.Codec.{Codec}
use spiffile.Crypto.{Crypto, Header, Check, IsStrict, IsFaithful, Among, Timely}
use spiffile.Disk.{Disk}
use spiffile.Errors.{Result, ok, ◌>>=◌}
use spiffile.SpiffeId.{SpiffeId, to_str}
use spiffile.SpiffeId.Grammar.{IsValid}
use spiffile.SpiffeId.Parsing.{parse_iff}
use spiffile.Bundle.{Bundle, keys_for}
use spiffile.BundleSource
use spiffile.Keys.{public_jwk, algorithm}
use spiffile.KeySource.{get_key}
use spiffile.Identity.Choice.{IsUsable, names_kid, candidates-named}
use spiffile.Identity.{
  Identity, Audience, expected_audience, or_malformed, present_sub, single_audience, same_kid,
  read_claims, decoded, with_key, try_keys, verify_with, check_of, verify_claimed, verify,
}
use spiffile.Identity.Minting.{audience_id, minted_claims, token_for, token}

-- The public half of a key: it verifies what the key signs, and is what PyJWT reads from its JWK.
pub record KeyPairs (codec : Codec) (c : Crypto) : Type 0 where
  pub public : c.PrivateKey → c.PublicKey
  pub jwk_key-public_jwk :
      (k : c.PrivateKey) (jwk : Fields)
      → public_jwk codec c k ≡ ok jwk
      → c.jwk_key (obj jwk) ≡ ok (public k)
  pub encode-verifies :
      (claims : Fields) (k : c.PrivateKey) (alg : Text) (h : Header) (t : c.Token)
      → c.encode claims k alg h ≡ ok t
      → c.verifies (public k) t ≡ true

module _ (c : Crypto) (strict : IsStrict c) (t : c.Token) (check : Check) (claims : Fields)
    (alg : Among (c.algorithm t) check.algorithms)
    (valid : (k : c.PublicKey) → c.verifies k t ≡ true → c.decode t k check ≡ ok claims) where
  -- One key that verifies the token is enough, among usable ones.
  try_keys-ok :
      (id : SpiffeId) (jwks : List Value) (jwk : Value) (key : c.PublicKey)
      → All (IsUsable c) jwks
      → Among jwk jwks
      → c.jwk_key jwk ≡ ok key
      → c.verifies key t ≡ true
      → try_keys c t check id jwks ≡ ok (record { id = id; claims = claims })
  unfolding try_keys with_key decoded
  try_keys-ok id [] jwk key u a e v = absurd a
  try_keys-ok id (j ∷ jwks) jwk key (u, us) (inl same) e v = rw (← same, e, valid key v) refl
  try_keys-ok id (j ∷ jwks) jwk key (u, us) (inr later) e v =
      let rest = try_keys-ok id jwks jwk key us later e v in
      elim u.reads [
        | inl (k, is_k, ec) ↦ elim (Bool-cases (c.verifies k t)) [
          | inl good ↦ rw (is_k, valid k good) refl
          | inr bad ↦ rw (is_k, strict.decode-invalid t k check alg ec bad) rest
        ]
        | inr broken ↦ rw broken rest
      ]

module _ (c : Crypto) (t : c.Token) (self audience : SpiffeId) (now ttl : ℤ) (h : Header) where
  read_claims-minted :
      IsValid self
      → c.get_unverified_header t ≡ ok h
      → c.decode_unverified t ≡ ok (minted_claims self audience now ttl)
      → read_claims c t ≡ ok (record { id = self; kid = h.kid })
  unfolding read_claims or_malformed present_sub single_audience minted_claims text_eq
  read_claims-minted valid header claims =
      rw (header, claims)
        (unfold to_str truthy in
          ap (λ (r : Result SpiffeId). r >>= λ id. ok (record { id = id; kid = h.kid }))
            ((parse_iff (str (to_str self)) self).1 (refl, valid)))

  minted-Timely :
      (leeway later : ℤ)
      → later <ℤ (now +ℤ ttl) +ℤ leeway
      → now ≤ℤ later +ℤ leeway
      → Timely (check_of (to_str audience) leeway later) (minted_claims self audience now ttl)
  unfolding minted_claims text_eq
  minted-Timely leeway later fresh begun = record {
    exp = now +ℤ ttl;
    iat = now;
    has_exp = refl;
    has_iat = refl;
    not_expired = fresh;
    not_early = begun;
    no_nbf = refl;
    no_jti = refl;
  }

names_kid-text :
    (kid : Text) (jwk : Fields)
    → get (codes "kid") jwk ≡ some (str kid)
    → names_kid (some kid) (obj jwk) ≡ true
unfolding same_kid
names_kid-text kid jwk e = rw e ((text_eq_iff kid kid).1 refl)

-- What `token` has signed, when it returns.
record Minted (codec : Codec) (c : Crypto) (self audience : SpiffeId) (now ttl : ℤ)
    (key : c.PrivateKey) (kid : Text) (t : c.Token) : Type 0 where
  header : Header
  has_kid : header.kid ≡ some kid
  encoded : c.encode (minted_claims self audience now ttl) key algorithm header ≡ ok t

module _ (codec : Codec) (c : Crypto) (faithful : IsFaithful c) (strict : IsStrict c)
    (pairs : KeyPairs codec c) where
  Minted-verify_with :
      (self audience : SpiffeId) (now ttl leeway later : ℤ) (key : c.PrivateKey) (kid : Text)
      (t : c.Token) (jwk : Fields) (b : Bundle) (keys : List Value)
      → IsValid self
      → Minted codec c self audience now ttl key kid t
      → public_jwk codec c key ≡ ok jwk
      → get (codes "kid") jwk ≡ some (str kid)
      → lookup (to_str self) b.identities ≡ some keys
      → All (IsUsable c) keys
      → Among (obj jwk) keys
      → later <ℤ (now +ℤ ttl) +ℤ leeway
      → now ≤ℤ later +ℤ leeway
      → verify_with c t
          (check_of (to_str audience) leeway later)
          (record { id = self; kid = some kid })
          b
        ≡ ok (record { id = self; claims = minted_claims self audience now ttl })
  unfolding verify_with keys_for
  Minted-verify_with self audience now ttl leeway later key kid t jwk b keys valid minted is_jwk
        has_kid bound usable among fresh begun =
      let check = check_of (to_str audience) leeway later in
      let claims = minted_claims self audience now ttl in
      let alg : Among (c.algorithm t) (algorithm ∷ []) =
        inl (faithful.encode-algorithm claims key algorithm minted.header t minted.encoded) in
      let (found, chosen, us, a) =
        candidates-named c (some kid) keys (obj jwk) usable among
          (names_kid-text kid jwk has_kid) in
      rw (bound, chosen)
        (try_keys-ok c strict t check claims alg
          (λ k good.
            faithful.decode-valid claims key algorithm minted.header t k check (to_str self)
              minted.encoded good (inl refl) refl (unfold minted_claims text_eq in refl)
              (unfold minted_claims text_eq in refl)
              (minted-Timely c t self audience now ttl minted.header leeway later fresh begun))
          self found (obj jwk) (pairs.public key) us a (pairs.jwk_key-public_jwk key jwk is_jwk)
          (pairs.encode-verifies claims key algorithm minted.header t minted.encoded))

-- What `token` has used: an audience, a signing key with its ID, and a lifetime.
pub record Sender (codec : Codec) (c : Crypto) (at_stat at_read : Disk)
    (issuer : Identity c.PrivateKey) (audience : Audience) : Type 0 where
  pub aud : SpiffeId
  pub key : c.PrivateKey
  pub kid : Text
  pub has_audience : audience_id audience ≡ ok aud
  pub has_key : (get_key codec c at_stat at_read issuer.key_source).0 ≡ ok (key, kid)
  pub valid : IsValid issuer.id

-- The bundle binds the public JWK of the key to the ID, among JWKs of EC keys or that PyJWT refuses
-- with `PyJWKError`.
pub record IsBound (codec : Codec) (c : Crypto) (id : SpiffeId) (key : c.PrivateKey) (kid : Text)
    (b : Bundle) : Type 0 where
  pub jwk : Fields
  pub keys : List Value
  pub is_jwk : public_jwk codec c key ≡ ok jwk
  pub has_kid : get (codes "kid") jwk ≡ some (str kid)
  pub bound : lookup (to_str id) b.identities ≡ some keys
  pub usable : All (IsUsable c) keys
  pub among : Among (obj jwk) keys

module _ (codec : Codec) (c : Crypto) (faithful : IsFaithful c) (strict : IsStrict c)
    (pairs : KeyPairs codec c) (d1 d2 d3 d4 : Disk) (issuer verifier : Identity c.PrivateKey)
    (audience : Audience) (expected : Option Audience) (now ttl leeway later : ℤ) where
  token-Minted :
      (s : Sender codec c d1 d2 issuer audience) (t : c.Token)
      → (token codec c d1 d2 now issuer audience ttl).0 ≡ ok t
      → Minted codec c issuer.id s.aud now ttl s.key s.kid t
  unfolding token token_for
  token-Minted s t h = record {
    header = record { kid = some s.kid; typ = some (codes "JWT") };
    has_kid = refl;
    encoded = rw (s.has_audience, s.has_key) at h;
  }

  -- A token that `token` returns is accepted: `verify` returns the issuer's ID and the claims that
  -- were minted. It does so for an identity that expects the token's audience, while its bundle
  -- binds the public JWK of the signing key to the issuer's ID, under the token's `kid` and among
  -- JWKs of EC keys or that PyJWT refuses with `PyJWKError`, until the lifetime and the leeway are
  -- over, and not before the time of issue by more than the
  -- leeway. The issuer's ID must follow the grammar.
  pub verify-token :
      (s : Sender codec c d1 d2 issuer audience) (t : c.Token) (b : Bundle)
      → (token codec c d1 d2 now issuer audience ttl).0 ≡ ok t
      → expected_audience verifier.id expected ≡ to_str s.aud
      → (BundleSource.get codec d3 d4 verifier.bundle_source).0 ≡ ok b
      → IsBound codec c issuer.id s.key s.kid b
      → later <ℤ (now +ℤ ttl) +ℤ leeway
      → now ≤ℤ later +ℤ leeway
      → (verify codec c d3 d4 later verifier t expected leeway).0
        ≡ ok (record { id = issuer.id; claims = minted_claims issuer.id s.aud now ttl })
  unfolding verify verify_claimed
  verify-token s t b made same got k fresh begun =
      let m = token-Minted s t made in
      let claims = minted_claims issuer.id s.aud now ttl in
      let reads =
        read_claims-minted c t issuer.id s.aud now ttl m.header s.valid
          (faithful.encode-header claims s.key algorithm m.header t m.encoded)
          (faithful.encode-claims claims s.key algorithm m.header t m.encoded) in
      rw (same, reads, m.has_kid, got)
        (Minted-verify_with codec c faithful strict pairs issuer.id s.aud now ttl leeway later s.key
          s.kid t k.jwk b k.keys s.valid m k.is_jwk k.has_kid k.bound k.usable k.among fresh begun)
