-- ===== src/Provision/Revocation.antt =====
-- What a provisioned service's tokens are worth once its key is rotated or the service is removed
-- (python/src/spiffile/provision.py and python/src/spiffile/identity.py).
use spiffile.Prelude.{
  Text, codes, true, false, some, none, Option, List, [], ◌∷◌, ◌≡◌, ◌≢◌, refl, ap, ◌∙◌, arith,
  text_Eq, text_eq_iff, inl, inr,
}
use spiffile.Prelude.Int.{ℤ, ◌+ℤ◌, ◌<ℤ◌, ◌≤ℤ◌}
use spiffile.Prelude.Dict.{lookup, lookup-insert_self, lookup-erase}
use spiffile.Prelude.Value.{Value, str, obj, Fields, get}
use spiffile.Codec.{Codec}
use spiffile.Crypto.{Crypto, IsFaithful, IsStrict, Among}
use spiffile.Disk.{FilePath, Disk, ◌//◌}
use spiffile.Disk.Action.{Host}
use spiffile.Errors.{ok, raise, unknown_identity, invalid_token, no_matching_key}
use spiffile.SpiffeId.{SpiffeId, parse, to_str}
use spiffile.SpiffeId.Parsing.{parse_iff}
use spiffile.Bundle.{Bundle, keys_for}
use spiffile.BundleSource
use spiffile.Keys.{public_jwk, algorithm}
use spiffile.KeySource.{static, get_key}
use spiffile.Identity.{
  Identity, Audience, spiffe, expected_audience, allowed_algorithms, Claimed, read_claims,
  verify_with, verify_claimed, verify,
}
use spiffile.Identity.Minting.{audience_id, minted_claims}
use spiffile.Identity.Choice.{IsUsable}
use spiffile.Identity.RoundTrip.{KeyPairs, Sender, IsBound, verify-token}
use spiffile.Identity.Forged.{Rejects, refusal, verify-Rejects}
use spiffile.Provision.{bundle_filename}
use spiffile.Provision.Operations.{id_text, existing_keys, rotate_service, remove_service}
use spiffile.Provision.Retained.{without_kid, without_kid-All, without_kid-Among}
use spiffile.Provision.Stored.{Stores}
use spiffile.Provision.Layout.{IsRoot, bound}
use spiffile.Provision.Rotate.{IsService, rotate_service-Rotated}
use spiffile.Provision.Remove.{remove_service-Removed}
use spiffile.Provision.Complete.{IsComplete, unbound}
use spiffile.Provision.Use.{token_header, token-encoded, own_key-IsUsable}

module _ (codec : Codec) (c : Crypto) (d3 d4 : Disk) (verifier : Identity c.PrivateKey) where
  -- A token of an ID that the bundle does not know.
  verify-unknown :
      (token : c.Token) (audience : Option Audience) (leeway now : ℤ) (claimed : Claimed)
      (b : Bundle)
      → read_claims c token ≡ ok claimed
      → (BundleSource.get codec d3 d4 verifier.bundle_source).0 ≡ ok b
      → lookup (to_str claimed.id) b.identities ≡ none
      → (verify codec c d3 d4 now verifier token audience leeway).0
        ≡ raise (unknown_identity (to_str claimed.id))
  unfolding verify verify_claimed verify_with keys_for
  verify-unknown token audience leeway now claimed b reads got absent = rw (reads, got, absent) refl

-- In a root with a readable bundle, for a service that has its two files and nothing else in its
-- folder, `remove_service` returns, if the bundle that it writes can be read back, and an identity
-- that reads the bundle of the root then raises `UnknownIdentityError` in `verify` for a token that
-- claims the removed service's ID, whoever signed it.
pub remove_service-verify :
    (codec : Codec) (c : Crypto) (host : Host) (d : Disk) (root : FilePath) (name : Text)
    (segments : List Text) (td : Text) (b : Bundle) (verifier : Identity c.PrivateKey)
    (token : c.Token) (audience : Option Audience) (leeway now : ℤ) (claimed : Claimed)
    → IsRoot codec d root td b
    → IsComplete d root name segments
    → Stores codec (unbound b (id_text codec b name))
    → verifier.bundle_source ≡ BundleSource.source (root // bundle_filename)
    → read_claims c token ≡ ok claimed
    → to_str claimed.id ≡ id_text codec b name
    → (d' : Disk) × (remove_service codec host root name d ≡ (ok tt, d'))
      × ((verify codec c d' d' now verifier token audience leeway).0
          ≡ raise (unknown_identity (to_str claimed.id)))
remove_service-verify codec c host d root name segments td b verifier token audience leeway now
      claimed is_root s stores reads_bundle reads same =
    let (d', called, removed) =
      remove_service-Removed codec host d root name segments td b is_root s stores in
    let gone : lookup (to_str claimed.id) (unbound b (id_text codec b name)).identities ≡ none =
      ground (
        arith,
        lookup-erase (id_text codec b name) (to_str claimed.id) b.identities,
        text_eq_iff (id_text codec b name) (to_str claimed.id),
      ) in
    (
      d',
      called,
      verify-unknown codec c d' d' verifier token audience leeway now claimed _ reads
          (ap (λ s. (BundleSource.get codec d' d' s).0) reads_bundle ∙ removed.has_bundle) gone,
    )

module _ (codec : Codec) (c : Crypto) (host : Host) (d : Disk) (root : FilePath) (name : Text)
    (segments : List Text) (td : Text) (b : Bundle) (id : SpiffeId) (new_key : c.PrivateKey)
    (jwk : Fields) (pairs : KeyPairs codec c) (verifier : Identity c.PrivateKey)
    (expected : Option Audience) (leeway later : ℤ) (t : c.Token) (strict : IsStrict c)
    (is_root : IsRoot codec d root td b) (s : IsService d root name segments)
    (parsed : parse (str (id_text codec b name)) ≡ ok id)
    (is_jwk : public_jwk codec c new_key ≡ ok jwk) (ec_pair : c.is_ec (pairs.public new_key) ≡ true)
    (reads : verifier.bundle_source ≡ BundleSource.source (root // bundle_filename)) where
  -- A rotation that keeps the old keys leaves the tokens in flight valid. In a root with a
  -- readable bundle, for a service with a key file, `rotate_service` returns, and an identity that
  -- reads the bundle of the root then accepts a token that PyJWT has encoded with a key bound to
  -- the service's ID before the call. The keys bound before must be EC keys or JWKs that PyJWT
  -- refuses with `PyJWKError`, the new key must be an EC key with another `kid`, the identity must
  -- expect the token's audience, and the token must be in its time, up to the leeway. The bundle
  -- that the call writes must be one that can be read back.
  pub rotate_service-verify :
      (old_key : c.PrivateKey) (new_kid old_kid : Text) (kept : List Value) (aud : SpiffeId)
      (now ttl : ℤ) (k : IsBound codec c id old_key old_kid b)
      → IsFaithful c
      → get (codes "kid") jwk ≡ some (str new_kid)
      → old_kid ≢ new_kid
      → without_kid jwk k.keys ≡ ok kept
      → Stores codec (bound b id (obj jwk ∷ kept))
      → expected_audience verifier.id expected ≡ to_str aud
      → c.encode (minted_claims id aud now ttl) old_key algorithm (token_header old_kid) ≡ ok t
      → later <ℤ (now +ℤ ttl) +ℤ leeway
      → now ≤ℤ later +ℤ leeway
      → (d' : Disk) × (rotate_service codec c host root name true new_key d ≡ (ok id, d'))
        × ((verify codec c d' d' later verifier t expected leeway).0
            ≡ ok (record { id = id; claims = minted_claims id aud now ttl }))
  rotate_service-verify old_key new_kid old_kid kept aud now ttl k faithful new_has_kid other
        is_kept stores same encoded fresh begun =
      let existing : without_kid jwk (existing_keys b (to_str id) true) ≡ ok kept =
        unfold existing_keys in rw k.bound is_kept in
      let (d', called, rotated) =
        rotate_service-Rotated codec c host d root name segments td b id true new_key jwk kept
          is_root s parsed is_jwk existing stores in
      let issuer : Identity c.PrivateKey = record {
        id = id;
        key_source = static old_key old_kid;
        bundle_source = verifier.bundle_source;
      } in
      let sender : Sender codec c d' d' issuer (spiffe aud) = record {
        aud = aud;
        key = old_key;
        kid = old_kid;
        has_audience = unfold audience_id in refl;
        has_key = unfold get_key in refl;
        valid = ((parse_iff _ id).0 parsed).1;
      } in
      let k' : IsBound codec c id old_key old_kid (bound b id (obj jwk ∷ kept)) = record {
        jwk = k.jwk;
        keys = obj jwk ∷ kept;
        is_jwk = k.is_jwk;
        has_kid = k.has_kid;
        bound = lookup-insert_self (to_str id) (obj jwk ∷ kept) b.identities;
        usable = (
          own_key-IsUsable codec c pairs new_key jwk is_jwk ec_pair,
          without_kid-All (IsUsable c) jwk k.keys kept is_kept k.usable,
        );
        among = inr (
            without_kid-Among jwk k.jwk new_kid old_kid k.keys kept is_kept new_has_kid k.has_kid
              other k.among);
      } in
      (
        d',
        called,
        verify-token codec c faithful strict pairs d' d' d' d' issuer verifier (spiffe aud) expected
            now ttl leeway later sender t (bound b id (obj jwk ∷ kept))
            (token-encoded codec c d' issuer (spiffe aud) now ttl sender t encoded) same
            (ap (λ s. (BundleSource.get codec d' d' s).0) reads ∙ rotated.has_bundle) k' fresh
            begun,
      )

  -- A rotation that does not keep the old keys ends them. In a root with a readable bundle, for a
  -- service with a key file, `rotate_service` returns, if the bundle that it writes can be read
  -- back, and an identity that reads the bundle of the root then raises `InvalidTokenError` in
  -- `verify` for an ES256 token that claims the service's ID and whose signature is not valid under
  -- the new key, an EC key.
  pub rotate_service-Rejects :
      (claimed : Claimed)
      → Stores codec (bound b id (obj jwk ∷ []))
      → read_claims c t ≡ ok claimed
      → claimed.id ≡ id
      → Among (c.algorithm t) allowed_algorithms
      → c.verifies (pairs.public new_key) t ≡ false
      → (d' : Disk) × (rotate_service codec c host root name false new_key d ≡ (ok id, d'))
        × ((verify codec c d' d' later verifier t expected leeway).0
            ≡ raise (invalid_token no_matching_key))
  rotate_service-Rejects claimed stores claims same alg forged =
      let (d', called, rotated) =
        rotate_service-Rotated codec c host d root name segments td b id false new_key jwk []
          is_root s parsed is_jwk (unfold existing_keys without_kid in refl) stores in
      let now_bound : lookup (to_str claimed.id) (bound b id (obj jwk ∷ [])).identities
          ≡ some (obj jwk ∷ []) =
        rw same (lookup-insert_self (to_str id) (obj jwk ∷ []) b.identities) in
      let rejected : Rejects c t (obj jwk) = record {
        members = jwk;
        is_dict = refl;
        rejects =
            inl
              (pairs.public new_key, pairs.jwk_key-public_jwk new_key jwk is_jwk, ec_pair, forged);
      } in
      (
        d',
        called,
        verify-Rejects codec c d' d' verifier t expected leeway later claimed
              (bound b id (obj jwk ∷ [])) strict claims
              (ap (λ s. (BundleSource.get codec d' d' s).0) reads ∙ rotated.has_bundle) alg
              (rw now_bound (rejected, tt))
            ∙ ap (λ o. raise (refusal claimed.id o)) now_bound,
      )
