-- ===== src/Conformance/Matrix.antt =====
-- The three commands of conformance/matrix/cli.py one after the other: a root is provisioned, a
-- token minted, and the token verified.
use spiffile.Prelude.{
  ℕ, Text, codes, List, [], ◌∷◌, ◌≡◌, refl, ap, ◌∙◌, arith, none, some, inl, text_Eq, text_eq,
}
use spiffile.Prelude.Int.{ℤ, ◌+ℤ◌, ◌<ℤ◌, ◌≤ℤ◌}
use spiffile.Prelude.Dict.{lookup-insert_self, lookup-insert_ne}
use spiffile.Prelude.Value.{str, obj, Fields, get}
use spiffile.Codec.{Codec, ReadsBack}
use spiffile.Crypto.{Crypto, IsFaithful, IsStrict}
use spiffile.Disk.{Disk, path}
use spiffile.Disk.Action.{Host, >>=-ok}
use spiffile.Disk.Paths.{path-IsPure}
use spiffile.Disk.Locate.{place}
use spiffile.Errors.{ok}
use spiffile.SpiffeId.{to_str}
use spiffile.SpiffeId.Grammar.{IsValid}
use spiffile.SpiffeId.Parsing.{parse_iff}
use spiffile.Keys.{public_jwk, algorithm}
use spiffile.Identity.{text, verify, expected_audience, default_ttl_seconds, default_leeway_seconds}
use spiffile.Identity.Minting.{audience_id, minted_claims, token}
use spiffile.Identity.RoundTrip.{KeyPairs, Sender, IsBound, verify-token}
use spiffile.KeySource.Reading.{get_key-file}
use spiffile.Provision.{load_identity}
use spiffile.Provision.Operations.{id_text}
use spiffile.Provision.Places.{IsName, key_place}
use spiffile.Provision.Stored.{Stores}
use spiffile.Provision.Layout.{IsVacant}
use spiffile.Provision.Init.{IsClear, empty_bundle}
use spiffile.Provision.Loaded.{key_id-public_jwk, identity_of, load_identity-written}
use spiffile.Provision.Use.{IsEcPair, token_header, own_key-IsUsable, token-encoded}
use spiffile.Conformance.CommandLine.{
  trust_domain, id_of, verified, report, mint, check_token, main,
}
use spiffile.Conformance.Provisioned.{provision-Provisioned}
use spiffile.Conformance.Services.{
  orders, billing, service_id, with_orders, with_both, parse-orders, parse-billing, HasService,
  Provisioned,
}

module _ (codec : Codec) (c : Crypto) (pairs : KeyPairs codec c) (d : Disk) (root : Text)
    (orders_key billing_key : c.PrivateKey) (orders_jwk billing_jwk : Fields) (kid : Text)
    (now later : ℤ) (t : c.Token) (back : ReadsBack codec) (clear : IsClear d (path root))
    (no_orders : IsVacant d (path root) orders (orders ∷ []))
    (no_billing : IsVacant d (path root) billing (billing ∷ []))
    (is_orders : public_jwk codec c orders_key ≡ ok orders_jwk)
    (is_billing : public_jwk codec c billing_key ≡ ok billing_jwk)
    (has_kid : get (codes "kid") orders_jwk ≡ some (str kid))
    (pair : IsEcPair codec c pairs orders_key) where
  -- Either service on a disk that was provisioned.
  module _ (host : Host) (d' : Disk)
      (p : Provisioned codec host d d'
        (path root)
        (c.to_pem orders_key)
        (c.to_pem billing_key)
        (with_both orders_jwk billing_jwk)) where
    loads :
        (name : Text) (pem : List ℕ)
        → IsName name (name ∷ [])
        → IsValid (service_id name)
        → HasService codec host d' (place d.cwd (path root)) name pem
        → load_identity codec {K = c.PrivateKey} d' (path root) name
          ≡ ok (identity_of (path root) name (service_id name))
    loads name pem is_name valid has =
        load_identity-written codec {K = c.PrivateKey} d' d.cwd (path root) name (name ∷ [])
          (service_id name) has.id_file back (path-IsPure root) clear.direct is_name valid p.cwd_is
          has.has_id has.id_bytes

    -- orders, as the sender of a token for billing
    abbrev sender :
        audience_id (text (id_of billing)) ≡ ok (service_id billing)
        → IsValid (service_id orders)
        → Sender codec c d' d'
            (identity_of (path root) orders (service_id orders))
            (text (id_of billing))
    sender is_audience valid = record {
      aud = service_id billing;
      key = orders_key;
      kid = kid;
      has_audience = is_audience;
      has_key =
          get_key-file codec c d' _ _ _ orders_key kid
            (key_place d.cwd (path root) orders (orders ∷ []) clear.direct no_orders.is_name d'
              p.cwd_is)
            p.has_orders.has_key pair.load_pem-to_pem
            (key_id-public_jwk codec c orders_key orders_jwk kid is_orders has_kid);
      valid = valid;
    }

    is_bound : IsBound codec c (service_id orders) orders_key kid (with_both orders_jwk billing_jwk)
    is_bound = record {
      jwk = orders_jwk;
      keys = obj orders_jwk ∷ [];
      is_jwk = is_orders;
      has_kid = has_kid;
      bound =
          lookup-insert_ne (to_str (service_id billing)) (to_str (service_id orders))
            (obj billing_jwk ∷ []) _ (unfold to_str in λ e. ground arith)
          ∙ lookup-insert_self (to_str (service_id orders)) (obj orders_jwk ∷ []) [];
      usable = (own_key-IsUsable codec c pairs orders_key orders_jwk is_orders pair.is_ec, tt);
      among = inl refl;
    }

  orders-IsValid : IsValid (service_id orders)
  orders-IsValid =
      ((parse_iff _ (service_id orders)).0 (parse-orders codec (empty_bundle trust_domain) refl)).1

  billing-IsValid : IsValid (service_id billing)
  billing-IsValid =
      ((parse_iff _ (service_id billing)).0
        (parse-billing codec (empty_bundle trust_domain) refl)).1

  is_audience : audience_id (text (id_of billing)) ≡ ok (service_id billing)
  unfolding audience_id id_text
  is_audience = parse-billing codec (empty_bundle trust_domain) refl

  module _ (token_text : c.Token → Text) (read_token : Text → c.Token) (host : Host)
      (same_token : read_token (token_text t) ≡ t)
      (encoded : c.encode
          (minted_claims (service_id orders) (service_id billing) now default_ttl_seconds)
          orders_key
          algorithm
          (token_header kid)
        ≡ ok t)
      (d' : Disk)
      (p : Provisioned codec host d d'
        (path root)
        (c.to_pem orders_key)
        (c.to_pem billing_key)
        (with_both orders_jwk billing_jwk)) where
    minted :
        (token codec c d' d' now
          (identity_of (path root) orders (service_id orders))
          (text (id_of billing))
          default_ttl_seconds).0
        ≡ ok t
    minted =
        token-encoded codec c d' _ (text (id_of billing)) now default_ttl_seconds
          (sender host d' p is_audience orders-IsValid) t encoded

    mint-prints :
        mint codec c token_text read_token host now (path root) (orders ∷ billing ∷ []) d'
        ≡ (ok (token_text t), d')
    unfolding mint
    mint-prints =
        >>=-ok _ _ d' (
          ap (λ r. (r, d'))
            (loads host d' p orders _ no_orders.is_name orders-IsValid p.has_orders))
        ∙ >>=-ok _ _ d' (ap (λ r. (r, d')) minted)

    accepts :
        later <ℤ (now +ℤ default_ttl_seconds) +ℤ default_leeway_seconds
        → now ≤ℤ later +ℤ default_leeway_seconds
        → IsFaithful c
        → IsStrict c
        → (verify codec c d' d' later
            (identity_of (path root) billing (service_id billing))
            t
            none
            default_leeway_seconds).0
          ≡ ok (record {
            id = service_id orders;
            claims = minted_claims (service_id orders) (service_id billing) now default_ttl_seconds;
          })
    accepts fresh begun faithful strict =
        verify-token codec c faithful strict pairs d' d' d' d'
          (identity_of (path root) orders (service_id orders))
          (identity_of (path root) billing (service_id billing)) (text (id_of billing)) none now
          default_ttl_seconds default_leeway_seconds later
          (sender host d' p is_audience orders-IsValid) t (with_both orders_jwk billing_jwk) minted
          (unfold expected_audience in refl) p.is_root.has_bundle (is_bound host d' p) fresh begun

    verify-prints :
        later <ℤ (now +ℤ default_ttl_seconds) +ℤ default_leeway_seconds
        → now ≤ℤ later +ℤ default_leeway_seconds
        → IsFaithful c
        → IsStrict c
        → check_token codec c token_text read_token host later
            (path root)
            (billing ∷ token_text t ∷ orders ∷ [])
            d'
          ≡ (ok (verified (id_of orders)), d')
    unfolding check_token
    verify-prints fresh begun faithful strict =
        >>=-ok _ _ d' (
          ap (λ r. (r, d'))
            (loads host d' p billing _ no_billing.is_name billing-IsValid p.has_billing))
        ∙ >>=-ok _ _ d' (
            ap
              (λ u. (
                (verify codec c d' d' later (identity_of (path root) billing (service_id billing)) u
                    none default_leeway_seconds).0,
                d',
              ))
              same_token
            ∙ ap (λ r. (r, d')) (accepts fresh begun faithful strict))
        ∙ unfold report to_str text_eq in refl

-- The three commands work together. On a disk with room for the root and both services,
-- `provision` prints that it is done. On the disk that it leaves, `mint` for orders prints the
-- token that PyJWT encodes for billing, and `verify` for billing prints that it has verified the
-- ID of orders, until the lifetime and the leeway are over; neither changes the disk. The keys
-- must have public JWKs, that of orders must survive its PEM text and be an EC key, the token must
-- survive its text, and what the program writes as JSON and as UTF-8 must be readable.
pub main-prints :
    (codec : Codec) (c : Crypto) (pairs : KeyPairs codec c) (token_text : c.Token → Text)
    (read_token : Text → c.Token) (host : Host) (d : Disk) (root : Text)
    (orders_key billing_key : c.PrivateKey) (orders_jwk billing_jwk : Fields) (kid : Text)
    (now later : ℤ) (t : c.Token)
    → ReadsBack codec
    → IsFaithful c
    → IsStrict c
    → IsClear d (path root)
    → IsVacant d (path root) orders (orders ∷ [])
    → IsVacant d (path root) billing (billing ∷ [])
    → public_jwk codec c orders_key ≡ ok orders_jwk
    → public_jwk codec c billing_key ≡ ok billing_jwk
    → get (codes "kid") orders_jwk ≡ some (str kid)
    → IsEcPair codec c pairs orders_key
    → Stores codec (empty_bundle trust_domain)
    → Stores codec (with_orders orders_jwk)
    → Stores codec (with_both orders_jwk billing_jwk)
    → read_token (token_text t) ≡ t
    → c.encode
        (minted_claims (service_id orders) (service_id billing) now default_ttl_seconds)
        orders_key
        algorithm
        (token_header kid)
      ≡ ok t
    → later <ℤ (now +ℤ default_ttl_seconds) +ℤ default_leeway_seconds
    → now ≤ℤ later +ℤ default_leeway_seconds
    → (d' : Disk) × (main codec c token_text read_token host now
          (codes "provision" ∷ root ∷ [])
          orders_key
          billing_key
          d
        ≡ (ok (codes "provisioned"), d'))
      × (main codec c token_text read_token host now
            (codes "mint" ∷ root ∷ orders ∷ billing ∷ [])
            orders_key
            billing_key
            d'
          ≡ (ok (token_text t), d'))
      × (main codec c token_text read_token host later
            (codes "verify" ∷ root ∷ billing ∷ token_text t ∷ orders ∷ [])
            orders_key
            billing_key
            d'
          ≡ (ok (verified (id_of orders)), d'))
unfolding main text_eq
main-prints codec c pairs token_text read_token host d root orders_key billing_key orders_jwk
      billing_jwk kid now later t back faithful strict clear no_orders no_billing is_orders
      is_billing has_kid pair stores0 stores1 stores2 same_token encoded fresh begun =
    let (d', called, p) =
      provision-Provisioned codec c token_text read_token host now d (path root) orders_key
        billing_key orders_jwk billing_jwk clear no_orders no_billing is_orders is_billing stores0
        stores1 stores2 in
    (
      d',
      called,
      mint-prints codec c pairs d root orders_key billing_key orders_jwk billing_jwk kid now later t
          back clear no_orders no_billing is_orders is_billing has_kid pair token_text read_token
          host same_token encoded d' p,
      verify-prints codec c pairs d root orders_key billing_key orders_jwk billing_jwk kid now later
          t back clear no_orders no_billing is_orders is_billing has_kid pair token_text read_token
          host same_token encoded d' p fresh begun faithful strict,
    )
