-- ===== src/Provision/Use.antt =====
-- A provisioned service at work (python/src/spiffile/provision.py and
-- python/src/spiffile/identity.py): its tokens after `add_service`, `rotate_service` and
-- `remove_service`.
use spiffile.Prelude.{
  Text, codes, true, some, Option, List, [], ◌∷◌, ◌≡◌, refl, ap, ◌∙◌, text_Eq, inl,
}
use spiffile.Prelude.Int.{ℤ, ◌+ℤ◌, ◌<ℤ◌, ◌≤ℤ◌}
use spiffile.Prelude.Dict.{lookup-insert_self}
use spiffile.Prelude.Value.{str, obj, Fields, get}
use spiffile.Codec.{Codec, ReadsBack}
use spiffile.Crypto.{Crypto, ec, IsFaithful, IsStrict, Header}
use spiffile.Disk.{FilePath, Disk, ◌//◌}
use spiffile.Disk.Action.{Host}
use spiffile.Disk.Paths.{IsPure}
use spiffile.Errors.{ok}
use spiffile.SpiffeId.{SpiffeId, parse, to_str}
use spiffile.SpiffeId.Grammar.{IsValid}
use spiffile.SpiffeId.Parsing.{parse_iff}
use spiffile.Bundle.{Bundle}
use spiffile.BundleSource
use spiffile.Keys.{public_jwk, algorithm}
use spiffile.Identity.{Identity, Audience, expected_audience, verify}
use spiffile.Identity.Minting.{audience_id, minted_claims, token, token_for}
use spiffile.Identity.Choice.{IsUsable}
use spiffile.Identity.RoundTrip.{KeyPairs, Sender, IsBound, verify-token}
use spiffile.Provision.{bundle_filename, load_identity}
use spiffile.Provision.Operations.{id_text, add_service}
use spiffile.Provision.Places.{key_place}
use spiffile.Provision.Stored.{Stores}
use spiffile.Provision.Layout.{IsRoot, IsVacant, bound}
use spiffile.Provision.Add.{add_service-Added}
use spiffile.KeySource.Reading.{get_key-file}
use spiffile.Provision.Loaded.{key_id-public_jwk, identity_of, load_identity-written}

-- The private key survives the PEM file, and its public half is an EC key.
pub record IsEcPair (codec : Codec) (c : Crypto) (pairs : KeyPairs codec c) (key : c.PrivateKey)
    : Type 0 where
  pub load_pem-to_pem : c.load_pem (c.to_pem key) ≡ ok (ec key)
  pub is_ec : c.is_ec (pairs.public key) ≡ true

-- The `kid` and the `typ` that `token` writes.
abbrev pub token_header : Text → Header
token_header kid = record { kid = some kid; typ = some (codes "JWT") }

pub own_key-IsUsable :
    (codec : Codec) (c : Crypto) (pairs : KeyPairs codec c) (key : c.PrivateKey) (jwk : Fields)
    → public_jwk codec c key ≡ ok jwk
    → c.is_ec (pairs.public key) ≡ true
    → IsUsable c (obj jwk)
own_key-IsUsable codec c pairs key jwk is_jwk is_ec = record {
  members = jwk;
  is_dict = refl;
  reads = inl (pairs.public key, pairs.jwk_key-public_jwk key jwk is_jwk, is_ec);
}

module _ (codec : Codec) (c : Crypto) (d : Disk) (issuer : Identity c.PrivateKey)
    (audience : Audience) (now ttl : ℤ) where
  -- `token` returns what PyJWT has encoded.
  pub token-encoded :
      (s : Sender codec c d d issuer audience) (t : c.Token)
      → c.encode (minted_claims issuer.id s.aud now ttl) s.key algorithm (token_header s.kid) ≡ ok t
      → (token codec c d d now issuer audience ttl).0 ≡ ok t
  unfolding token token_for
  token-encoded s t encoded = rw (s.has_audience, s.has_key) encoded

-- In a root with a readable bundle, for a name that `parse` accepts and no service has, where no
-- file stands in the way of the service's folder and its files,
-- `add_service` returns the ID of the service, `load_identity` then returns an identity, and its
-- `token` returns what PyJWT encodes with the new key and its `kid`, if PyJWT encodes it. An
-- identity that reads the bundle of the root and expects the audience accepts that token: `verify`
-- returns the service's ID and the minted claims, until the lifetime and the leeway are over, and
-- not before the time of issue by more than the leeway. The new key must survive its PEM text and
-- be an EC key, and the text files and the bundle that the call writes must be such that they can
-- be read back.
pub add_service-verify :
    (codec : Codec) (c : Crypto) (host : Host) (d : Disk) (root : FilePath) (name : Text)
    (segments : List Text) (td : Text) (b : Bundle) (id : SpiffeId) (new_key : c.PrivateKey)
    (jwk : Fields) (kid : Text) (pairs : KeyPairs codec c) (verifier : Identity c.PrivateKey)
    (audience : Audience) (aud : SpiffeId) (expected : Option Audience) (now ttl leeway later : ℤ)
    (t : c.Token)
    → IsFaithful c
    → IsStrict c
    → ReadsBack codec
    → IsPure root
    → IsRoot codec d root td b
    → IsVacant d root name segments
    → parse (str (id_text codec b name)) ≡ ok id
    → public_jwk codec c new_key ≡ ok jwk
    → get (codes "kid") jwk ≡ some (str kid)
    → IsEcPair codec c pairs new_key
    → Stores codec (bound b id (obj jwk ∷ []))
    → verifier.bundle_source ≡ BundleSource.source (root // bundle_filename)
    → audience_id audience ≡ ok aud
    → expected_audience verifier.id expected ≡ to_str aud
    → c.encode (minted_claims id aud now ttl) new_key algorithm (token_header kid) ≡ ok t
    → later <ℤ (now +ℤ ttl) +ℤ leeway
    → now ≤ℤ later +ℤ leeway
    → (d' : Disk) × (issuer : Identity c.PrivateKey) × (add_service codec c host root name new_key d
        ≡ (ok id, d'))
      × (load_identity codec d' root name ≡ ok issuer)
      × ((token codec c d' d' now issuer audience ttl).0 ≡ ok t)
      × ((verify codec c d' d' later verifier t expected leeway).0
          ≡ ok (record { id = id; claims = minted_claims id aud now ttl }))
add_service-verify codec c host d root name segments td b id new_key jwk kid pairs verifier audience
      aud expected now ttl leeway later t faithful strict back pure is_root vacant parsed is_jwk
      has_kid pair stores reads is_aud same encoded fresh begun =
    let (d', called, added) =
      add_service-Added codec c host d root name segments td b id new_key jwk is_root vacant parsed
        is_jwk stores in
    let valid : IsValid id = ((parse_iff _ id).0 parsed).1 in
    let issuer : Identity c.PrivateKey = identity_of root name id in
    let sender : Sender codec c d' d' issuer audience = record {
      aud = aud;
      key = new_key;
      kid = kid;
      has_audience = is_aud;
      has_key =
          get_key-file codec c d' _ _ _ new_key kid
            (key_place d.cwd root name segments is_root.direct vacant.is_name d' added.keeps.cwd_is)
            added.has_key pair.load_pem-to_pem
            (key_id-public_jwk codec c new_key jwk kid is_jwk has_kid);
      valid = valid;
    } in
    let k : IsBound codec c id new_key kid (bound b id (obj jwk ∷ [])) = record {
      jwk = jwk;
      keys = obj jwk ∷ [];
      is_jwk = is_jwk;
      has_kid = has_kid;
      bound = lookup-insert_self (to_str id) (obj jwk ∷ []) b.identities;
      usable = (own_key-IsUsable codec c pairs new_key jwk is_jwk pair.is_ec, tt);
      among = inl refl;
    } in
    let minted = token-encoded codec c d' issuer audience now ttl sender t encoded in
    (
      d',
      issuer,
      called,
      load_identity-written codec {K = c.PrivateKey} d' d.cwd root name segments id added.id_file
          back pure is_root.direct vacant.is_name valid added.keeps.cwd_is added.has_id
          added.id_bytes,
      minted,
      verify-token codec c faithful strict pairs d' d' d' d' issuer verifier audience expected now
          ttl leeway later sender t (bound b id (obj jwk ∷ [])) minted same
          (ap (λ s. (BundleSource.get codec d' d' s).0) reads ∙ added.has_bundle) k fresh begun,
    )
