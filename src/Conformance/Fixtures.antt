-- ===== src/Conformance/Fixtures.antt =====
-- The fixtures that conformance/generate.py derives, under python/src/spiffile.
use spiffile.Prelude.{
  Text, codes, false, some, List, [], ◌∷◌, ◌≡◌, refl, sym, ap, ◌∙◌, text_Eq, text_eq, strip_prefix,
  partition, split, split_first, all, All,
}
use spiffile.Prelude.Dict.{lookup, insert}
use spiffile.Prelude.Value.{Value, str, obj, Fields, end, field, get}
use spiffile.Codec.{Codec}
use spiffile.Crypto.{Crypto}
use spiffile.Errors.{ok, key_error, from_option, >>=-eq-ok}
use spiffile.SpiffeId.{
  parse, to_str, parse_text, parse_rest, is_trust_domain_char, is_segment_char, check_path,
  check_segments, check_segment,
}
use spiffile.Bundle.{
  Bundle, from_dict, member, is_version_one, items_method, read_entries, read_entry, is_text,
  keys_member, bind_keys, read_parsed,
}
use spiffile.Keys.{item, public_jwk}
use spiffile.Conformance.Members.{
  get-set_item_self, get-set_item_ne, written-token, written-bundle, written-other, looped-orders,
}
use spiffile.Conformance.{
  trust_domain, id_of, set_item, entry_of, bundle_document, one_audience, two_audiences, pem_member,
  jwk_member, token_member, multi_member, Derived, key_in, derive_service, derive_services,
  encode_token, derive,
}

ok-inj {ℓ} : {A : Type ℓ} {x y : A} → ok x ≡ ok y → x ≡ y
ok-inj h = cc

some-inj {ℓ} : {A : Type ℓ} {x y : A} → some x ≡ some y → x ≡ y
some-inj h = cc

-- The bundle of the fixtures.
abbrev pub fixture_bundle : Fields → Fields → Bundle
fixture_bundle orders_jwk billing_jwk = record {
  trust_domain = str trust_domain;
  identities =
      (id_of (codes "orders"), obj orders_jwk ∷ [])
      ∷ (id_of (codes "billing"), obj billing_jwk ∷ [])
      ∷ [];
}

abbrev pub identities_of : Fields → Fields → Fields
identities_of orders_jwk billing_jwk =
    field (id_of (codes "orders")) (entry_of orders_jwk)
      (field (id_of (codes "billing")) (entry_of billing_jwk) end)

from_dict-fixtures :
    (orders_jwk billing_jwk : Fields)
    → from_dict (bundle_document (identities_of orders_jwk billing_jwk))
      ≡ ok (fixture_bundle orders_jwk billing_jwk)
unfolding from_dict member is_version_one items_method read_entries read_entry is_text keys_member
    bind_keys read_parsed insert parse parse_text parse_rest strip_prefix partition split
    split_first all text_eq is_trust_domain_char is_segment_char check_path check_segments
    check_segment to_str
from_dict-fixtures orders_jwk billing_jwk = refl

-- The members that are derived.
abbrev pub set_members : List Text
set_members =
    jwk_member (codes "orders")
    ∷ jwk_member (codes "billing")
    ∷ codes "bundle"
    ∷ token_member
    ∷ multi_member
    ∷ []

module _ (codec : Codec) (c : Crypto) (token_text : c.Token → Text) where
  -- What the derived members are.
  pub record IsDerived (before after : Fields) : Type 0 where
    pub orders_key : c.PrivateKey
    pub billing_key : c.PrivateKey
    pub orders_jwk : Fields
    pub billing_jwk : Fields
    pub token : c.Token
    pub multi : c.Token
    pub is_orders_key : key_in codec c token_text (codes "orders") before ≡ ok orders_key
    pub is_billing_key : key_in codec c token_text (codes "billing") before ≡ ok billing_key
    pub is_orders_jwk : public_jwk codec c orders_key ≡ ok orders_jwk
    pub is_billing_jwk : public_jwk codec c billing_key ≡ ok billing_jwk
    pub has_orders : get (jwk_member (codes "orders")) after ≡ some (obj orders_jwk)
    pub has_billing : get (jwk_member (codes "billing")) after ≡ some (obj billing_jwk)
    pub document : Value
    pub has_document : get (codes "bundle") after ≡ some document
    pub reads_document : from_dict document ≡ ok (fixture_bundle orders_jwk billing_jwk)
    pub is_token : encode_token codec c token_text one_audience orders_key orders_jwk ≡ ok token
    pub has_token : get token_member after ≡ some (str (token_text token))
    pub is_multi : encode_token codec c token_text two_audiences orders_key orders_jwk ≡ ok multi
    pub has_multi : get multi_member after ≡ some (str (token_text multi))
    pub preserved :
        (k : Text) → All (λ set. text_eq set k ≡ false) set_members → get k after ≡ get k before

  key_in-set_item :
      (service k : Text) (v : Value) (fs : Fields)
      → text_eq k (pem_member service) ≡ false
      → key_in codec c token_text service (set_item k v fs) ≡ key_in codec c token_text service fs
  unfolding key_in item
  key_in-set_item service k v fs ne = rw (get-set_item_ne k (pem_member service) v fs ne) refl

  -- One round of the loop.
  record Round (service : Text) (s s' : Derived codec c token_text) : Type 0 where
    key : c.PrivateKey
    jwk : Fields
    is_key : key_in codec c token_text service s.data_members ≡ ok key
    is_jwk : public_jwk codec c key ≡ ok jwk
    is_next :
        record {
          data_members = set_item (jwk_member service) (obj jwk) s.data_members;
          keys = insert service (key, jwk) s.keys;
          identities = set_item (id_of service) (entry_of jwk) s.identities;
        }
        ≡ s'

  derive_service-Round :
      (service : Text) (s s' : Derived codec c token_text)
      → derive_service codec c token_text service s ≡ ok s'
      → Round service s s'
  unfolding derive_service
  derive_service-Round service s s' h =
      let (key, is_key, r1) = >>=-eq-ok (key_in codec c token_text service s.data_members) _ h in
      let (jwk, is_jwk, r2) = >>=-eq-ok (public_jwk codec c key) _ r1 in
      record { key = key; jwk = jwk; is_key = is_key; is_jwk = is_jwk; is_next = ok-inj r2 }

  -- Both rounds of the loop.
  record Rounds (before : Fields) (s : Derived codec c token_text) : Type 0 where
    orders_key : c.PrivateKey
    billing_key : c.PrivateKey
    orders_jwk : Fields
    billing_jwk : Fields
    is_orders_key : key_in codec c token_text (codes "orders") before ≡ ok orders_key
    is_billing_key : key_in codec c token_text (codes "billing") before ≡ ok billing_key
    is_orders_jwk : public_jwk codec c orders_key ≡ ok orders_jwk
    is_billing_jwk : public_jwk codec c billing_key ≡ ok billing_jwk
    is_data :
        s.data_members
        ≡ set_item
            (jwk_member (codes "billing"))
            (obj billing_jwk)
            (set_item (jwk_member (codes "orders")) (obj orders_jwk) before)
    has_key : lookup (codes "orders") s.keys ≡ some (orders_key, orders_jwk)
    is_identities : s.identities ≡ identities_of orders_jwk billing_jwk

  derive_services-Rounds :
      (before : Fields) (s : Derived codec c token_text)
      → derive_services codec c token_text
          (codes "orders" ∷ codes "billing" ∷ [])
          (record { data_members = before; keys = []; identities = end })
        ≡ ok s
      → Rounds before s
  unfolding derive_services
  derive_services-Rounds before s h =
      let s0 : Derived codec c token_text = record {
        data_members = before;
        keys = [];
        identities = end;
      } in
      let (s1, h1, r1) = >>=-eq-ok (derive_service codec c token_text (codes "orders") s0) _ h in
      let (s2, h2, r2) = >>=-eq-ok (derive_service codec c token_text (codes "billing") s1) _ r1 in
      let a = derive_service-Round (codes "orders") s0 s1 h1 in
      let b = derive_service-Round (codes "billing") s1 s2 h2 in
      let same : s2 ≡ s = ok-inj r2 in
      let data1 = ap (λ x. x.data_members) a.is_next in
      record {
        orders_key = a.key;
        billing_key = b.key;
        orders_jwk = a.jwk;
        billing_jwk = b.jwk;
        is_orders_key = a.is_key;
        is_billing_key =
            sym (
              key_in-set_item (codes "billing") (jwk_member (codes "orders")) (obj a.jwk) before
                (unfold text_eq in refl))
            ∙ ap (key_in codec c token_text (codes "billing")) data1
            ∙ b.is_key;
        is_orders_jwk = a.is_jwk;
        is_billing_jwk = b.is_jwk;
        is_data =
            sym (ap (λ x. x.data_members) (b.is_next ∙ same))
            ∙ ap (set_item (jwk_member (codes "billing")) (obj b.jwk)) (sym data1);
        has_key =
            ap (λ x. lookup (codes "orders") x.keys) (sym (b.is_next ∙ same))
            ∙ ap (λ x. lookup (codes "orders") (insert (codes "billing") (b.key, b.jwk) x.keys))
                (sym a.is_next)
            ∙ unfold lookup insert text_eq in refl;
        is_identities =
            ap (λ x. x.identities) (sym (b.is_next ∙ same))
            ∙ ap (λ x. set_item (id_of (codes "billing")) (entry_of b.jwk) x.identities)
                (sym a.is_next)
            ∙ unfold set_item text_eq in refl;
      }

  -- When the fixtures are derived, the keys are those of the two PEM texts and the JWKs theirs, the
  -- bundle is a document that `from_dict` reads as the bundle that binds each JWK to the ID of its
  -- service, and the two tokens are the ones that PyJWT encodes with the key of orders and the
  -- `kid` of its JWK, for one audience and for two. Every other member is preserved.
  pub derive-IsDerived :
      (before after : Fields) → derive codec c token_text before ≡ ok after → IsDerived before after
  unfolding derive
  derive-IsDerived before after h =
      let (s, is_s, r1) =
        >>=-eq-ok (derive_services codec c token_text (codes "orders" ∷ codes "billing" ∷ []) _) _
          h in
      let (orders, found, r2) =
        >>=-eq-ok (from_option (lookup (codes "orders") s.keys) key_error) _ r1 in
      let (token, is_token, r3) =
        >>=-eq-ok (encode_token codec c token_text one_audience orders.0 orders.1) _ r2 in
      let (multi, is_multi, r4) =
        >>=-eq-ok (encode_token codec c token_text two_audiences orders.0 orders.1) _ r3 in
      let r = derive_services-Rounds before s is_s in
      let same : (r.orders_key, r.orders_jwk) ≡ orders =
        ok-inj (ap (λ o. from_option o key_error) (sym r.has_key) ∙ found) in
      let end_is = ok-inj r4 in
      record {
        orders_key = r.orders_key;
        billing_key = r.billing_key;
        orders_jwk = r.orders_jwk;
        billing_jwk = r.billing_jwk;
        token = token;
        multi = multi;
        is_orders_key = r.is_orders_key;
        is_billing_key = r.is_billing_key;
        is_orders_jwk = r.is_orders_jwk;
        is_billing_jwk = r.is_billing_jwk;
        has_orders =
            ap (get (jwk_member (codes "orders"))) (sym end_is)
            ∙ written-other _ _ _ s.data_members (jwk_member (codes "orders"))
                (unfold text_eq in refl) (unfold text_eq in refl) (unfold text_eq in refl)
            ∙ ap (get (jwk_member (codes "orders"))) r.is_data
            ∙ looped-orders (obj r.orders_jwk) (obj r.billing_jwk) before;
        has_billing =
            ap (get (jwk_member (codes "billing"))) (sym end_is)
            ∙ written-other _ _ _ s.data_members (jwk_member (codes "billing"))
                (unfold text_eq in refl) (unfold text_eq in refl) (unfold text_eq in refl)
            ∙ ap (get (jwk_member (codes "billing"))) r.is_data
            ∙ get-set_item_self (jwk_member (codes "billing")) (obj r.billing_jwk) _;
        document = bundle_document s.identities;
        has_document =
            ap (get (codes "bundle")) (sym end_is)
            ∙ written-bundle (bundle_document s.identities) (str (token_text token))
                (str (token_text multi)) s.data_members;
        reads_document =
            ap (λ x. from_dict (bundle_document x)) r.is_identities
            ∙ from_dict-fixtures r.orders_jwk r.billing_jwk;
        is_token = ap (λ x. encode_token codec c token_text one_audience x.0 x.1) same ∙ is_token;
        has_token =
            ap (get token_member) (sym end_is)
            ∙ written-token (bundle_document s.identities) (str (token_text token))
                (str (token_text multi)) s.data_members;
        is_multi = ap (λ x. encode_token codec c token_text two_audiences x.0 x.1) same ∙ is_multi;
        preserved = λ k (not_orders, (not_billing, (not_bundle, (not_token, (not_multi, _))))).
            ap (get k) (sym end_is)
            ∙ written-other _ _ _ s.data_members k not_multi not_token not_bundle
            ∙ ap (get k) r.is_data
            ∙ get-set_item_ne (jwk_member (codes "billing")) k (obj r.billing_jwk) _ not_billing
            ∙ get-set_item_ne (jwk_member (codes "orders")) k (obj r.orders_jwk) before not_orders;
        has_multi = ap (get multi_member) (sym end_is) ∙ get-set_item_self multi_member _ _;
      }
