-- ===== src/Examples/ConformanceWitnesses.antt =====
-- The theorems on the fixtures at concrete data.
use spiffile.Prelude.{ℕ, Text, codes, Option, some, [], ◌∷◌, ◌≡◌, refl, arith, text_Eq, text_eq}
use spiffile.Prelude.Dict.{lookup, insert}
use spiffile.Prelude.Int.{ℤ, pos, ◌+ℤ◌}
use spiffile.Prelude.Value.{Value, str, obj, Fields, end, field, get}
use spiffile.Codec.{Codec}
use spiffile.Disk.{Disk, stat, read_bytes, node_at, location_eq}
use spiffile.Errors.{ok, raise, invalid_token, multi_audience}
use spiffile.SpiffeId.{to_str}
use spiffile.Bundle.{
  from_dict, member, is_version_one, items_method, read_entries, read_entry, is_text, keys_member,
  bind_keys, read_parsed,
}
use spiffile.BundleSource.{source, get_at, refresh, load, cached}
use spiffile.BundleSource
use spiffile.Keys.{
  public_jwk, private_key_from_pem, to_bytes, b64url, jwk_thumbprint, coordinates, item,
}
use spiffile.Identity.{Identity, Audience, verify, default_leeway_seconds, expected_audience}
use spiffile.Conformance.{
  bundle_document, claims_for, one_audience, two_audiences, token_member, multi_member, pem_member,
  jwk_member, set_item, encode_method, key_in, derive_service, derive_services, encode_token,
  derive,
}
use spiffile.Conformance.Fixtures.{fixture_bundle, identities_of, IsDerived, derive-IsDerived}
use spiffile.Conformance.Tokens.{orders, derive-multi_audience, derived-verify}
use spiffile.Examples.Toy.{ToyToken, toy, coordinate}
use spiffile.Examples.ToyLaws.{toy-IsStrict, toy-IsFaithful, toy-KeyPairs}
use spiffile.Examples.Data.{codec_of, history, receiver}
use spiffile.Examples.TokenWitnesses.{parse_id}
use spiffile.Examples.Provisioned.{public_of}

abbrev orders_jwk : Fields
orders_jwk = public_of 7 (codes "e30")

abbrev billing_jwk : Fields
billing_jwk = public_of 9 (codes "e30")

abbrev document : Value
document = bundle_document (identities_of orders_jwk billing_jwk)

abbrev codec : Codec
codec = codec_of document

abbrev token_text : ToyToken → Text
token_text t = t.alg

-- The file with the keys 7 and 9 and nothing derived yet.
abbrev inputs : Fields
inputs =
    field (pem_member (codes "orders")) (str (7 ∷ []))
      (field (pem_member (codes "billing")) (str (9 ∷ [])) end)

abbrev outputs : Fields
outputs = field (pem_member (codes "orders")) (str (7 ∷ [])) (
    field (pem_member (codes "billing")) (str (9 ∷ [])) (
      field (jwk_member (codes "orders")) (obj orders_jwk) (
        field (jwk_member (codes "billing")) (obj billing_jwk) (
          field (codes "bundle") document (
            field token_member (str (codes "ES256"))
              (field multi_member (str (codes "ES256")) end))))))

derived : derive codec toy token_text inputs ≡ ok outputs
unfolding derive derive_services derive_service key_in encode_method encode_token set_item item
    private_key_from_pem public_jwk to_bytes jwk_thumbprint coordinates b64url text_eq coordinate
    lookup insert
derived = refl

derive-IsDerived_example : IsDerived codec toy token_text inputs outputs
derive-IsDerived_example = derive-IsDerived codec toy token_text inputs outputs derived

derive-multi_audience_example :
    (t : ToyToken) × (get multi_member outputs ≡ some (str (token_text t)))
    × ((d1 d2 : Disk) (now leeway : ℤ) (self : Identity ℕ) (audience : Option Audience)
        → (verify codec toy d1 d2 now self t audience leeway).0
          ≡ raise (invalid_token multi_audience))
derive-multi_audience_example =
    derive-multi_audience codec toy token_text inputs outputs toy-IsFaithful derived

abbrev token_for_both : Value → ToyToken
token_for_both audience = record {
  header = record { kid = some (codes "e30"); typ = some (codes "JWT") };
  alg = codes "ES256";
  claims = claims_for audience;
  signer = 7;
}

facts : IsDerived codec toy token_text inputs outputs
unfolding key_in encode_method encode_token item private_key_from_pem public_jwk to_bytes
    jwk_thumbprint coordinates b64url text_eq coordinate lookup insert from_dict member
    is_version_one items_method read_entries read_entry is_text keys_member bind_keys read_parsed
    parse_id to_str
facts = record {
  orders_key = 7;
  billing_key = 9;
  orders_jwk = orders_jwk;
  billing_jwk = billing_jwk;
  token = token_for_both one_audience;
  multi = token_for_both two_audiences;
  is_orders_key = refl;
  is_billing_key = refl;
  is_orders_jwk = refl;
  is_billing_jwk = refl;
  has_orders = refl;
  has_billing = refl;
  document = document;
  has_document = refl;
  reads_document = refl;
  is_token = refl;
  has_token = refl;
  is_multi = refl;
  has_multi = refl;
  preserved = derive-IsDerived_example.preserved;
}

has_bundle :
    (BundleSource.get codec (history 0) (history 0) receiver.bundle_source).0
    ≡ ok (fixture_bundle orders_jwk billing_jwk)
unfolding from_dict member is_version_one items_method read_entries read_entry is_text keys_member
    bind_keys read_parsed insert lookup parse_id to_str BundleSource.get load cached read_bytes stat
    node_at location_eq text_eq
has_bundle = refl

derived-verify_example :
    (verify codec toy
      (history 0)
      (history 0)
      (pos 1800000000)
      receiver
      facts.token
      (some (Audience.text (codes "spiffe://example.org/billing")))
      default_leeway_seconds).0
    ≡ ok (record { id = orders; claims = claims_for one_audience })
unfolding facts ◌+ℤ◌
derived-verify_example =
    derived-verify codec toy token_text inputs outputs facts (toy-KeyPairs codec) (history 0)
      (history 0) receiver (some (Audience.text (codes "spiffe://example.org/billing")))
      default_leeway_seconds (pos 1800000000) toy-IsFaithful toy-IsStrict refl has_bundle
      (unfold expected_audience in refl) (omega arith) (omega arith)
