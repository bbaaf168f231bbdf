-- ===== src/Examples/TokenWitnesses.antt =====
-- The theorems on tokens at concrete data.
use spiffile.Prelude.{
  codes, none, some, ◌≡◌, refl, arith, inl, inr, text_Eq, text_eq, strip_prefix, partition, split,
  split_first, all,
}
use spiffile.Prelude.Dict.{lookup, insert}
use spiffile.Prelude.Int.{pos, ◌+ℤ◌}
use spiffile.Prelude.Value.{Value, str, truthy}
use spiffile.Codec.{Codec}
use spiffile.Disk.{stat, read_bytes, node_at, location_eq}
use spiffile.Errors.{Result, ok, raise}
use spiffile.SpiffeId.{
  SpiffeId, parse, to_str, parse_text, parse_rest, is_trust_domain_char, is_segment_char,
  check_path, check_segments, check_segment,
}
use spiffile.SpiffeId.Grammar.{IsValid}
use spiffile.SpiffeId.Parsing.{parse_iff}
use spiffile.Bundle.{
  Bundle, from_dict, member, is_version_one, items_method, read_entries, read_entry, is_text,
  keys_member, bind_keys, read_parsed,
}
use spiffile.BundleSource.{source, get, load, cached}
use spiffile.Keys.{public_jwk, to_bytes, b64url, jwk_thumbprint, coordinates, item}
use spiffile.KeySource.{get_key}
use spiffile.Identity.{
  check_of, spiffe, verify, read_claims, default_leeway_seconds, expected_audience,
}
use spiffile.Identity.Minting.{minted_claims, token, token_for, audience_id}
use spiffile.Identity.Refusals.{Answers, IsUsableBundle, verify-Answers}
use spiffile.Identity.Forged.{AllReject, refusal, verify-Rejects}
use spiffile.Identity.RoundTrip.{Sender, IsBound, verify-token}
use spiffile.Examples.Toy.{ToyToken, toy, coordinate}
use spiffile.Examples.ToyLaws.{toy-IsStrict, toy-IsFaithful, toy-KeyPairs}
use spiffile.Examples.Data.{
  orders, billing, orders_name, bundle, codec, published, published_bundle, public_7, bundle_path,
  history, receiver, sender,
}

-- To unfold `parse_id` is to unfold all that reading an ID calls.
unfoldable pub parse_id : Value → Result SpiffeId
unfolding parse parse_text parse_rest strip_prefix partition split split_first all text_eq
    is_trust_domain_char is_segment_char check_path check_segments check_segment
parse_id = parse

abbrev climbing : Value
climbing = str (codes "spiffe://example.org/a/../b")

-- To unfold `get_bundle` is to unfold all that the bundle source calls.
abbrev get_bundle : Codec → Result Bundle
unfolding from_dict member is_version_one items_method read_entries read_entry is_text keys_member
    bind_keys read_parsed insert lookup parse_id to_str get load cached read_bytes stat node_at
    location_eq
get_bundle c = (get c (history 0) (history 0) (source bundle_path)).0

get_bundle-codec : (get codec (history 0) (history 0) receiver.bundle_source).0 ≡ ok bundle
unfolding get_bundle
get_bundle-codec = refl

get_bundle-published :
    (get published (history 0) (history 0) receiver.bundle_source).0 ≡ ok published_bundle
unfolding get_bundle
get_bundle-published = refl

bundle-IsUsableBundle : IsUsableBundle toy bundle
unfolding text_eq
bundle-IsUsableBundle = (
  (
    record { members = _; is_dict = refl; reads = inl (coordinate 7, refl, refl) },
    (record { members = _; is_dict = refl; reads = inl (coordinate 8, refl, refl) }, tt),
  ),
  tt,
)

-- A token that key 9 has signed and that claims the ID of orders.
abbrev forged : ToyToken
forged = record {
  header = record { kid = some (codes "k8"); typ = some (codes "JWT") };
  alg = codes "ES256";
  claims = minted_claims orders billing (pos 1000) (pos 60);
  signer = 9;
}

verify-Answers_example :
    Answers toy forged
      (check_of (expected_audience receiver.id none) default_leeway_seconds (pos 1010))
      (verify codec toy
        (history 0)
        (history 0)
        (pos 1010)
        receiver
        forged
        none
        default_leeway_seconds).0
verify-Answers_example =
    verify-Answers codec toy (history 0) (history 0) receiver forged none default_leeway_seconds
      (pos 1010) bundle get_bundle-codec bundle-IsUsableBundle

claimed : read_claims toy forged ≡ ok (record { id = orders; kid = some (codes "k8") })
unfolding read_claims parse_id minted_claims truthy to_str
claimed = refl

orders-AllReject : AllReject toy forged (lookup (to_str orders) bundle.identities)
unfolding lookup text_eq coordinate to_str
orders-AllReject = (
  record { members = _; is_dict = refl; rejects = inl (coordinate 7, refl, refl, refl) },
  (record { members = _; is_dict = refl; rejects = inl (coordinate 8, refl, refl, refl) }, tt),
)

verify-Rejects_example :
    (verify codec toy
      (history 0)
      (history 0)
      (pos 1010)
      receiver
      forged
      none
      default_leeway_seconds).0
    ≡ raise (refusal orders (lookup (to_str orders) bundle.identities))
verify-Rejects_example =
    verify-Rejects codec toy (history 0) (history 0) receiver forged none default_leeway_seconds
      (pos 1010) (record { id = orders; kid = some (codes "k8") }) bundle toy-IsStrict claimed
      get_bundle-codec (inl refl) orders-AllReject

-- A token of orders for billing.
abbrev request : ToyToken
request = record {
  header = record { kid = some (codes "e30"); typ = some (codes "JWT") };
  alg = codes "ES256";
  claims = minted_claims orders billing (pos 1000) (pos 60);
  signer = 7;
}

pub orders-IsValid : IsValid orders
orders-IsValid = ((parse_iff (str orders_name) orders).0 parse-orders).1
  where
    parse-orders : parse (str orders_name) ≡ ok orders
    parse-orders = unfold parse_id in refl

used : Sender published toy (history 0) (history 0) sender (spiffe billing)
unfolding audience_id get_key
used = record {
  aud = billing;
  key = 7;
  kid = codes "e30";
  has_audience = refl;
  has_key = refl;
  valid = orders-IsValid;
}

pub public_jwk-7 : public_jwk published toy 7 ≡ ok public_7
unfolding public_jwk to_bytes jwk_thumbprint coordinates item b64url text_eq coordinate
public_jwk-7 = refl

orders-IsBound : IsBound published toy orders 7 (codes "e30") published_bundle
unfolding lookup text_eq to_str coordinate
orders-IsBound = record {
  jwk = public_7;
  keys = _;
  is_jwk = public_jwk-7;
  has_kid = refl;
  bound = refl;
  usable = (
    record { members = _; is_dict = refl; reads = inl (coordinate 8, refl, refl) },
    (record { members = _; is_dict = refl; reads = inl (coordinate 7, refl, refl) }, tt),
  );
  among = inr (inl refl);
}

token-request :
    (token published toy (history 0) (history 0) (pos 1000) sender (spiffe billing) (pos 60)).0
    ≡ ok request
unfolding token token_for audience_id get_key
token-request = refl

verify-token_example :
    (verify published toy
      (history 0)
      (history 0)
      (pos 1030)
      receiver
      request
      none
      default_leeway_seconds).0
    ≡ ok (record { id = orders; claims = minted_claims orders billing (pos 1000) (pos 60) })
unfolding used ◌+ℤ◌
verify-token_example =
    verify-token published toy toy-IsFaithful toy-IsStrict (toy-KeyPairs published) (history 0)
      (history 0) (history 0) (history 0) sender receiver (spiffe billing) none (pos 1000) (pos 60)
      default_leeway_seconds (pos 1030) used request published_bundle token-request
      (unfold expected_audience in refl) get_bundle-published orders-IsBound (omega arith)
      (omega arith)
