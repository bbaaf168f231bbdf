-- ===== src/Examples/MatrixWitnesses.antt =====
-- The theorem on the three commands at concrete data: an empty folder, and the keys 7 and 8.
use spiffile.Prelude.{
  ℕ, ◌+◌, Text, codes, none, some, Option, [], ◌∷◌, ◌≡◌, refl, arith, nat_eq, text_Eq, text_eq,
  split, split_first, all, if◌then◌else◌,
}
use spiffile.Prelude.Dict.{lookup, insert}
use spiffile.Prelude.Int.{pos, ◌+ℤ◌}
use spiffile.Prelude.Value.{Value, obj, Fields, end, field, get}
use spiffile.Codec.{Codec}
use spiffile.Disk.{Disk, path, clean, ◌//◌, node_at, location_eq, behind_file}
use spiffile.Disk.Locate.{place, descend}
use spiffile.Errors.{ok}
use spiffile.SpiffeId.{is_segment_char, to_str}
use spiffile.SpiffeId.Grammar.{all-IsSegmentChar}
use spiffile.Bundle.{Bundle, to_dict, identity_fields}
use spiffile.Keys.{public_jwk, to_bytes, jwk_thumbprint, coordinates, item, b64url}
use spiffile.Identity.Minting.{minted_claims}
use spiffile.Provision.{service_dir}
use spiffile.Provision.Places.{IsName}
use spiffile.Provision.Stored.{Stores}
use spiffile.Provision.Layout.{IsVacant}
use spiffile.Provision.Init.{IsClear, empty_bundle}
use spiffile.Conformance.CommandLine.{trust_domain, id_of, verified, main}
use spiffile.Conformance.Services.{orders, billing, service_id, with_orders, with_both}
use spiffile.Conformance.Matrix.{main-prints}
use spiffile.Examples.Toy.{ToyToken, toy, coordinate}
use spiffile.Examples.ToyLaws.{toy-IsStrict, toy-IsFaithful, toy-KeyPairs}
use spiffile.Examples.ProvisionFacts.{orders-IsName}
use spiffile.Examples.Provisioned.{host, public_7, public_8, bare_disk, dumps_compact}

-- A document is written as the number of its identities.
abbrev count : Fields → ℕ
count end = 0
count (field k v fs) = 1 + count fs

abbrev size : Option Value → ℕ
size (some (obj fs)) = count fs
size _ = 0

abbrev dumps : Value → Text
dumps (obj fs) = (b'0' + size (get (codes "identities") fs)) ∷ []
dumps _ = []

abbrev bundle_of : ℕ → Bundle
bundle_of n =
    if nat_eq n b'0'
    then empty_bundle trust_domain
    else if nat_eq n b'1'
    then with_orders public_7
    else with_both public_7 public_8

abbrev loads : Text → Option Value
loads [] = none
loads (n ∷ _) = some (to_dict (bundle_of n))

abbrev codec : Codec
codec = record {
  decode = λ bytes. some bytes;
  encode = λ text. text;
  loads = loads;
  dumps = dumps;
  dumps_compact = dumps_compact;
  py_str = λ v. codes "{}";
}

abbrev srv : Text
srv = codes "/srv"

abbrev request : ToyToken
request = record {
  header = record { kid = some (codes "Nw"); typ = some (codes "JWT") };
  alg = codes "ES256";
  claims = minted_claims (service_id orders) (service_id billing) (pos 1000) (pos 60);
  signer = 7;
}

stored :
    Stores codec (empty_bundle trust_domain)
    × Stores codec (with_orders public_7)
    × Stores codec (with_both public_7 public_8)
unfolding to_dict identity_fields insert text_eq to_str
stored = (
  record { decodes = refl; loads_text = refl },
  record { decodes = refl; loads_text = refl },
  record { decodes = refl; loads_text = refl },
)

is_orders : public_jwk codec toy 7 ≡ ok public_7
unfolding public_jwk to_bytes jwk_thumbprint coordinates item b64url text_eq coordinate
is_orders = refl

is_billing : public_jwk codec toy 8 ≡ ok public_8
unfolding public_jwk to_bytes jwk_thumbprint coordinates item b64url text_eq coordinate
is_billing = refl

clear : IsClear bare_disk (path srv)
unfolding node_at lookup location_eq text_eq place descend behind_file path clean split split_first
clear = record { direct = (λ e. cc, tt); no_bundle = refl; open_services = refl; has_base = refl }

billing-IsName : IsName billing (billing ∷ [])
unfolding path clean split split_first text_eq all is_segment_char
billing-IsName = record {
  below = record { is_path = refl; steps = (λ e. cc, tt) };
  each = (
    record {
      nonempty = λ e. cc;
      not_dot = λ e. cc;
      not_dot_dot = λ e. cc;
      chars = (all-IsSegmentChar billing).0 refl;
    },
    tt,
  );
  nonempty = λ e. cc;
}

no_orders : IsVacant bare_disk (path srv) orders (orders ∷ [])
unfolding node_at lookup location_eq text_eq place descend behind_file service_dir path ◌//◌ clean
    split split_first
no_orders = record {
  is_name = orders-IsName;
  no_key = refl;
  no_id = refl;
  open_dir = refl;
  has_base = refl;
}

no_billing : IsVacant bare_disk (path srv) billing (billing ∷ [])
unfolding node_at lookup location_eq text_eq place descend behind_file service_dir path ◌//◌ clean
    split split_first
no_billing = record {
  is_name = billing-IsName;
  no_key = refl;
  no_id = refl;
  open_dir = refl;
  has_base = refl;
}

main-prints_example :
    (d' : Disk) × (main codec toy
        (λ t. codes "token")
        (λ s. request)
        host
        (pos 1000)
        (codes "provision" ∷ srv ∷ [])
        7
        8
        bare_disk
      ≡ (ok (codes "provisioned"), d'))
    × (main codec toy
          (λ t. codes "token")
          (λ s. request)
          host
          (pos 1000)
          (codes "mint" ∷ srv ∷ orders ∷ billing ∷ [])
          7
          8
          d'
        ≡ (ok (codes "token"), d'))
    × (main codec toy
          (λ t. codes "token")
          (λ s. request)
          host
          (pos 1030)
          (codes "verify" ∷ srv ∷ billing ∷ codes "token" ∷ orders ∷ [])
          7
          8
          d'
        ≡ (ok (verified (id_of orders)), d'))
unfolding ◌+ℤ◌
main-prints_example =
    main-prints codec toy (toy-KeyPairs codec) (λ t. codes "token") (λ s. request) host bare_disk
      srv 7 8 public_7 public_8 (codes "Nw") (pos 1000) (pos 1030) request
      (record { decode-encode = λ t. refl }) toy-IsFaithful toy-IsStrict clear no_orders no_billing
      is_orders is_billing (unfold text_eq in refl)
      (record { load_pem-to_pem = refl; is_ec = refl }) stored.0 stored.1 stored.2 refl refl
      (omega arith) (omega arith)
