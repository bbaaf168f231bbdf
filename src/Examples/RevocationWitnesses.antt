-- ===== src/Examples/RevocationWitnesses.antt =====
-- The theorems on the tokens of a provisioned service at concrete data.
use spiffile.Prelude.{
  ℕ, codes, true, false, none, some, [], ◌∷◌, ◌≡◌, refl, ap, arith, text_Eq, text_eq, inl, split,
  split_first,
}
use spiffile.Prelude.Dict.{lookup}
use spiffile.Prelude.Int.{pos, ◌+ℤ◌}
use spiffile.Prelude.Value.{obj, truthy}
use spiffile.Disk.{Disk, path, clean, ◌//◌}
use spiffile.BundleSource.{source}
use spiffile.Disk.Paths.{IsPure, path-IsPure}
use spiffile.Errors.{ok, raise, unknown_identity, invalid_token, no_matching_key}
use spiffile.SpiffeId.{to_str}
use spiffile.Identity.{
  Identity, spiffe, verify, read_claims, default_leeway_seconds, expected_audience,
}
use spiffile.Identity.Minting.{minted_claims, token, audience_id}
use spiffile.Identity.RoundTrip.{IsBound}
use spiffile.Provision.Retained.{without_kid}
use spiffile.Keys.{item}
use spiffile.Provision.{bundle_filename, load_identity}
use spiffile.Provision.Operations.{id_text, add_service, rotate_service, remove_service}
use spiffile.Provision.Complete.{unbound}
use spiffile.Provision.Use.{add_service-verify}
use spiffile.Provision.Revocation.{
  rotate_service-verify, rotate_service-Rejects, remove_service-verify,
}
use spiffile.Examples.Toy.{ToyToken, toy, coordinate}
use spiffile.Examples.ToyLaws.{toy-IsStrict, toy-IsFaithful, toy-KeyPairs, public-toy-KeyPairs}
use spiffile.Examples.Data.{example_org, orders, orders_name, billing}
use spiffile.Examples.TokenWitnesses.{parse_id}
use spiffile.Examples.Provisioned.{
  root, host, public_7, public_8, no_service, with_orders, root_disk, orders_disk, verifier,
}
use spiffile.Examples.ProvisionFacts.{
  adding, rotating, removing, replacing, name, parse-name, root_disk-IsRoot, orders_disk-IsRoot,
  codec_for-Stores, codec_for-ReadsBack, is_public_7, is_public_8, root_disk-IsVacant,
  orders_disk-IsService, orders_disk-IsComplete,
}

-- A token of orders for billing, signed with key 7.
abbrev pub request : ToyToken
request = record {
  header = record { kid = some (codes "Nw"); typ = some (codes "JWT") };
  alg = codes "ES256";
  claims = minted_claims orders billing (pos 1000) (pos 60);
  signer = 7;
}

root-IsPure : IsPure root
root-IsPure = unfold path clean split split_first text_eq in path-IsPure (codes "/srv")

pub reads_root : verifier.bundle_source ≡ source (root // bundle_filename)
unfolding path clean split split_first text_eq ◌//◌
reads_root = refl

add_service-verify_example :
    (d' : Disk) × (issuer : Identity ℕ) × (add_service adding toy host root name 7 root_disk
      ≡ (ok orders, d'))
    × (load_identity adding d' root name ≡ ok issuer)
    × ((token adding toy d' d' (pos 1000) issuer (spiffe billing) (pos 60)).0 ≡ ok request)
    × ((verify adding toy d' d' (pos 1030) verifier request none default_leeway_seconds).0
        ≡ ok (record { id = orders; claims = minted_claims orders billing (pos 1000) (pos 60) }))
unfolding ◌+ℤ◌
add_service-verify_example =
    add_service-verify adding toy host root_disk root name (name ∷ []) example_org no_service orders
      7 public_7 (codes "Nw") (toy-KeyPairs adding) verifier (spiffe billing) billing none
      (pos 1000) (pos 60) default_leeway_seconds (pos 1030) request toy-IsFaithful toy-IsStrict
      (codec_for-ReadsBack _ _) root-IsPure (root_disk-IsRoot _) root_disk-IsVacant
      (parse-name no_service adding refl) (is_public_7 _ _) (unfold text_eq in refl)
      (record { load_pem-to_pem = refl; is_ec = refl }) (codec_for-Stores _ _) reads_root
      (unfold audience_id in refl) (unfold expected_audience in refl) refl (omega arith)
      (omega arith)

claimed : read_claims toy request ≡ ok (record { id = orders; kid = some (codes "Nw") })
unfolding read_claims parse_id minted_claims truthy to_str
claimed = refl

to_str-id_text : to_str orders ≡ id_text removing with_orders name
unfolding id_text to_str
to_str-id_text = refl

remove_service-verify_example :
    (d' : Disk) × (remove_service removing host root name orders_disk ≡ (ok tt, d'))
    × ((verify removing toy d' d' (pos 1030) verifier request none default_leeway_seconds).0
        ≡ raise (unknown_identity (to_str orders)))
remove_service-verify_example =
    remove_service-verify removing toy host orders_disk root name (name ∷ []) example_org
      with_orders verifier request none default_leeway_seconds (pos 1030)
      (record { id = orders; kid = some (codes "Nw") }) (orders_disk-IsRoot _)
      orders_disk-IsComplete
      (unfold id_text in codec_for-Stores with_orders (unbound with_orders orders_name)) reads_root
      claimed to_str-id_text

pub orders-IsBound : IsBound rotating toy orders 7 (codes "Nw") with_orders
unfolding lookup text_eq to_str coordinate
orders-IsBound = record {
  jwk = public_7;
  keys = _;
  is_jwk = is_public_7 _ _;
  has_kid = refl;
  bound = refl;
  usable = (record { members = _; is_dict = refl; reads = inl (coordinate 7, refl, refl) }, tt);
  among = inl refl;
}

pub keeps_bound : without_kid public_8 orders-IsBound.keys ≡ ok (obj public_7 ∷ [])
unfolding orders-IsBound without_kid text_eq item
keeps_bound = refl

rotate_service-verify_example :
    (d' : Disk) × (rotate_service rotating toy host root name true 8 orders_disk ≡ (ok orders, d'))
    × ((verify rotating toy d' d' (pos 1030) verifier request none default_leeway_seconds).0
        ≡ ok (record { id = orders; claims = minted_claims orders billing (pos 1000) (pos 60) }))
unfolding ◌+ℤ◌
rotate_service-verify_example =
    rotate_service-verify rotating toy host orders_disk root name (name ∷ []) example_org
      with_orders orders 8 public_8 (toy-KeyPairs rotating) verifier none default_leeway_seconds
      (pos 1030) request toy-IsStrict (orders_disk-IsRoot _) orders_disk-IsService
      (parse-name with_orders rotating refl) (is_public_8 _ _) refl reads_root 7 (codes "OA")
      (codes "Nw") (obj public_7 ∷ []) billing (pos 1000) (pos 60) orders-IsBound toy-IsFaithful
      (unfold text_eq in refl) (λ e. ground arith) keeps_bound (codec_for-Stores _ _)
      (unfold expected_audience in refl) refl (omega arith) (omega arith)

old_key : toy.verifies ((toy-KeyPairs replacing).public 8) request ≡ false
unfolding coordinate text_eq
old_key = ap (λ k. toy.verifies k request) (public-toy-KeyPairs replacing 8)

rotate_service-Rejects_example :
    (d' : Disk) × (rotate_service replacing toy host root name false 8 orders_disk
      ≡ (ok orders, d'))
    × ((verify replacing toy d' d' (pos 1030) verifier request none default_leeway_seconds).0
        ≡ raise (invalid_token no_matching_key))
rotate_service-Rejects_example =
    rotate_service-Rejects replacing toy host orders_disk root name (name ∷ []) example_org
      with_orders orders 8 public_8 (toy-KeyPairs replacing) verifier none default_leeway_seconds
      (pos 1030) request toy-IsStrict (orders_disk-IsRoot _) orders_disk-IsService
      (parse-name with_orders replacing refl) (is_public_8 _ _) refl reads_root
      (record { id = orders; kid = some (codes "Nw") }) (codec_for-Stores _ _) claimed refl
      (inl refl) old_key
