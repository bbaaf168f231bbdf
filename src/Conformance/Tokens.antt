-- ===== src/Conformance/Tokens.antt =====
-- The two tokens among the fixtures (conformance/generate.py) under `Identity.verify`
-- (python/src/spiffile/identity.py).
use spiffile.Prelude.{
  Text, codes, true, some, Option, [], ◌∷◌, ◌≡◌, refl, sym, ap, ◌∙◌, text_Eq, text_eq, inl,
  strip_prefix, partition, split, split_first, all,
}
use spiffile.Prelude.Dict.{lookup}
use spiffile.Prelude.Int.{ℤ, pos, ◌+ℤ◌, ◌<ℤ◌, ◌≤ℤ◌}
use spiffile.Prelude.Value.{Value, str, obj, Fields, get, truthy}
use spiffile.Codec.{Codec}
use spiffile.Crypto.{Crypto, Header, IsFaithful, IsStrict}
use spiffile.Disk.{Disk}
use spiffile.Errors.{ok, raise, invalid_token, multi_audience, >>=-eq-ok}
use spiffile.SpiffeId.{
  SpiffeId, parse, to_str, parse_text, parse_rest, is_trust_domain_char, is_segment_char,
  check_path, check_segments, check_segment,
}
use spiffile.SpiffeId.Grammar.{IsValid}
use spiffile.SpiffeId.Parsing.{parse_iff}
use spiffile.BundleSource
use spiffile.Keys.{item, text_of, algorithm}
use spiffile.Keys.Jwk.{public_jwk-IsJwkOf}
use spiffile.KeySource.{static, get_key}
use spiffile.Identity.{
  Identity, Audience, spiffe, expected_audience, verify, verify_claimed, read_claims, or_malformed,
  present_sub, single_audience,
}
use spiffile.Identity.Minting.{minted_claims, audience_id}
use spiffile.Identity.RoundTrip.{KeyPairs, Sender, IsBound, verify-token}
use spiffile.Provision.Use.{token_header, token-encoded, own_key-IsUsable}
use spiffile.Conformance.{
  trust_domain, iat, exp, id_of, claims_for, one_audience, two_audiences, multi_member,
  encode_token, derive,
}
use spiffile.Conformance.Fixtures.{fixture_bundle, IsDerived, derive-IsDerived}

abbrev pub orders : SpiffeId
orders = record { trust_domain = trust_domain; path = codes "/orders" }

abbrev pub billing : SpiffeId
billing = record { trust_domain = trust_domain; path = codes "/billing" }

-- The lifetime of the tokens.
abbrev pub ttl : ℤ
ttl = pos 301222400

orders-IsValid : IsValid orders
orders-IsValid = ((parse_iff (str (id_of (codes "orders"))) orders).0 parsed).1
  where
    parsed : parse (str (id_of (codes "orders"))) ≡ ok orders
    parsed =
        unfold parse parse_text parse_rest strip_prefix partition split split_first all text_eq
          is_trust_domain_char is_segment_char check_path check_segments check_segment in
        refl

same_claims : claims_for one_audience ≡ minted_claims orders billing iat ttl
unfolding minted_claims to_str ◌+ℤ◌
same_claims = refl

module _ (codec : Codec) (c : Crypto) (token_text : c.Token → Text) where
  encode_token-header :
      (audience : Value) (key : c.PrivateKey) (jwk : Fields) (t : c.Token)
      → encode_token codec c token_text audience key jwk ≡ ok t
      → (kid : Text) × (c.encode (claims_for audience) key algorithm (token_header kid) ≡ ok t)
  unfolding encode_token
  encode_token-header audience key jwk t h =
      let (v, _, r1) = >>=-eq-ok (item (codes "kid") jwk) _ h in
      let (kid, _, r2) = >>=-eq-ok (text_of v) _ r1 in (kid, r2)

  encode_token-kid :
      (audience : Value) (key : c.PrivateKey) (jwk : Fields) (t : c.Token) (kid : Text)
      → get (codes "kid") jwk ≡ some (str kid)
      → encode_token codec c token_text audience key jwk ≡ ok t
      → c.encode (claims_for audience) key algorithm (token_header kid) ≡ ok t
  unfolding encode_token item
  encode_token-kid audience key jwk t kid has_kid h = rw has_kid at h

  read_claims-two_audiences :
      (t : c.Token) (h : Header)
      → c.get_unverified_header t ≡ ok h
      → c.decode_unverified t ≡ ok (claims_for two_audiences)
      → read_claims c t ≡ raise (invalid_token multi_audience)
  unfolding read_claims or_malformed present_sub single_audience truthy parse parse_text parse_rest
      strip_prefix partition split split_first all text_eq is_trust_domain_char is_segment_char
      check_path check_segments check_segment
  read_claims-two_audiences t h header claims = rw (header, claims) refl

  -- The token for two audiences that the fixtures have is refused by every identity at every time:
  -- `verify` raises `InvalidTokenError` for it, since its `aud` claim is a list.
  pub derive-multi_audience :
      (before after : Fields)
      → IsFaithful c
      → derive codec c token_text before ≡ ok after
      → (t : c.Token) × (get multi_member after ≡ some (str (token_text t)))
        × ((d1 d2 : Disk) (now leeway : ℤ) (self : Identity c.PrivateKey)
              (audience : Option Audience)
            → (verify codec c d1 d2 now self t audience leeway).0
              ≡ raise (invalid_token multi_audience))
  unfolding verify verify_claimed
  derive-multi_audience before after faithful h =
      let r = derive-IsDerived codec c token_text before after h in
      let (kid, encoded) =
        encode_token-header two_audiences r.orders_key r.orders_jwk r.multi r.is_multi in
      let refused =
        read_claims-two_audiences r.multi (token_header kid)
          (faithful.encode-header _ r.orders_key algorithm (token_header kid) r.multi encoded)
          (faithful.encode-claims _ r.orders_key algorithm (token_header kid) r.multi encoded) in
      (r.multi, r.has_multi, λ d1 d2 now leeway self audience. rw refused refl)

  -- The token for one audience that the fixtures have is accepted as one of orders by an identity
  -- that expects the ID of billing and has the bundle of the fixtures, from `IAT` to `EXP` and a
  -- leeway around them.
  pub derived-verify :
      (before after : Fields) (r : IsDerived codec c token_text before after)
      (pairs : KeyPairs codec c) (d1 d2 : Disk) (verifier : Identity c.PrivateKey)
      (expected : Option Audience) (leeway later : ℤ)
      → IsFaithful c
      → IsStrict c
      → c.is_ec (pairs.public r.orders_key) ≡ true
      → (BundleSource.get codec d1 d2 verifier.bundle_source).0
        ≡ ok (fixture_bundle r.orders_jwk r.billing_jwk)
      → expected_audience verifier.id expected ≡ id_of (codes "billing")
      → later <ℤ exp +ℤ leeway
      → iat ≤ℤ later +ℤ leeway
      → (verify codec c d1 d2 later verifier r.token expected leeway).0
        ≡ ok (record { id = orders; claims = claims_for one_audience })
  derived-verify before after r pairs d1 d2 verifier expected leeway later faithful strict is_ec got
        same fresh begun =
      let j = public_jwk-IsJwkOf codec c r.orders_key r.orders_jwk r.is_orders_jwk in
      let issuer : Identity c.PrivateKey = record {
        id = orders;
        key_source = static r.orders_key j.kid;
        bundle_source = verifier.bundle_source;
      } in
      let sender : Sender codec c d1 d1 issuer (spiffe billing) = record {
        aud = billing;
        key = r.orders_key;
        kid = j.kid;
        has_audience = unfold audience_id in refl;
        has_key = unfold get_key in refl;
        valid = orders-IsValid;
      } in
      let k : IsBound codec c orders r.orders_key j.kid
          (fixture_bundle r.orders_jwk r.billing_jwk) =
        record {
          jwk = r.orders_jwk;
          keys = obj r.orders_jwk ∷ [];
          is_jwk = r.is_orders_jwk;
          has_kid = j.has_kid;
          bound = unfold lookup text_eq to_str in refl;
          usable =
              (own_key-IsUsable codec c pairs r.orders_key r.orders_jwk r.is_orders_jwk is_ec, tt);
          among = inl refl;
        } in
      let encoded =
        ap (λ claims. c.encode claims r.orders_key algorithm (token_header j.kid)) (sym same_claims)
        ∙ encode_token-kid one_audience r.orders_key r.orders_jwk r.token j.kid j.has_kid
            r.is_token in
      verify-token codec c faithful strict pairs d1 d1 d1 d2 issuer verifier (spiffe billing)
        expected iat ttl leeway later sender r.token (fixture_bundle r.orders_jwk r.billing_jwk)
        (token-encoded codec c d1 issuer (spiffe billing) iat ttl sender r.token encoded)
        (same ∙ (unfold to_str in refl)) got k (unfold ◌+ℤ◌ in fresh) begun
      ∙ ap (λ claims. ok (record { id = orders; claims = claims })) (sym same_claims)
