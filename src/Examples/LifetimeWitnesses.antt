-- ===== src/Examples/LifetimeWitnesses.antt =====
-- The theorems on the life of a provisioned root at concrete data: orders is rotated twice.
use spiffile.Prelude.{
  codes, true, none, some, [], ◌∷◌, ◌≡◌, ◌≢◌, refl, ap, ◌∙◌, arith, text_Eq, text_eq,
}
use spiffile.Prelude.Dict.{lookup, insert}
use spiffile.Prelude.Int.{pos}
use spiffile.Prelude.Value.{obj, truthy}
use spiffile.Disk.{Disk}
use spiffile.Errors.{ok}
use spiffile.SpiffeId.{to_str}
use spiffile.Bundle.{Bundle}
use spiffile.Identity.{verify, read_claims, default_leeway_seconds}
use spiffile.Identity.Minting.{minted_claims}
use spiffile.Keys.{item}
use spiffile.Provision.Operations.{existing_keys}
use spiffile.Provision.Retained.{without_kid}
use spiffile.Provision.Layout.{IsRoot, bound}
use spiffile.Provision.Writes.{key_file_of}
use spiffile.Provision.Rotate.{IsService, rotate_service-Rotated}
use spiffile.Provision.Registry.{registry, replay}
use spiffile.Provision.Runs.{Step, rotated, Run, done, after, events, Becomes, Run-replay}
use spiffile.Provision.Lifetime.{Run-verify}
use spiffile.Examples.Toy.{ToyToken, toy}
use spiffile.Examples.Data.{example_org, orders, billing}
use spiffile.Examples.TokenWitnesses.{parse_id}
use spiffile.Examples.RevocationWitnesses.{reads_root}
use spiffile.Examples.Provisioned.{
  root, host, public_7, public_8, with_orders, orders_disk, verifier,
}
use spiffile.Examples.ProvisionFacts.{
  rotating, keeps_key_7, name, parse-name, orders_disk-IsRoot, orders-IsName, codec_for-Stores,
  is_public_8, orders_disk-IsService,
}

abbrev rotated_bundle : Bundle
rotated_bundle = bound with_orders orders (obj public_8 ∷ obj public_7 ∷ [])

-- A rotation of orders to key 8 that changes the bundle to `rotated_bundle`.
record Rotation (d : Disk) : Type 0 where
  disk : Disk
  step : Step rotating toy root example_org (to_str orders) d disk
  is_root : IsRoot rotating disk root example_org rotated_bundle
  is_service : IsService disk root name (name ∷ [])

rotate :
    (d : Disk) (b : Bundle)
    → IsRoot rotating d root example_org b
    → IsService d root name (name ∷ [])
    → without_kid public_8 (existing_keys b (to_str orders) true) ≡ ok (obj public_7 ∷ [])
    → bound b orders (obj public_8 ∷ obj public_7 ∷ []) ≡ rotated_bundle
    → Rotation d
rotate d b r s kept same =
    let (d', called, post) =
      rotate_service-Rotated rotating toy host d root name (name ∷ []) example_org b orders true 8
        public_8 (obj public_7 ∷ []) r s (parse-name b rotating r.is_text) (is_public_8 _ _) kept
        (rw same (codec_for-Stores _ _)) in
    record {
      disk = d';
      step =
          rotated host name (name ∷ []) b orders true 8 public_8 (obj public_7 ∷ []) r s
            (parse-name b rotating r.is_text) (is_public_8 _ _) kept
            (rw same (codec_for-Stores _ _)) refl called;
      is_root = record {
        direct = r.direct;
        has_bundle = post.has_bundle ∙ ap (λ x. ok x) same;
        is_text = refl;
        domain = r.domain;
      };
      is_service = record {
        is_name = orders-IsName;
        key_file = key_file_of host (8 ∷ []);
        has_key = rw (post.keeps.cwd_is) post.has_key;
      };
    }

first : Rotation orders_disk
first = rotate orders_disk with_orders (orders_disk-IsRoot _) orders_disk-IsService keeps_key_7 refl

kept_again :
    without_kid public_8 (existing_keys rotated_bundle (to_str orders) true)
    ≡ ok (obj public_7 ∷ [])
unfolding without_kid existing_keys lookup insert text_eq to_str item
kept_again = refl

same_again : bound rotated_bundle orders (obj public_8 ∷ obj public_7 ∷ []) ≡ rotated_bundle
unfolding insert text_eq to_str
same_again = refl

second : Rotation first.disk
second = rotate first.disk rotated_bundle first.is_root first.is_service kept_again same_again

run : Run rotating toy root example_org (to_str orders ∷ to_str orders ∷ []) orders_disk second.disk
run = after first.step (after second.step done)

Run-replay_example :
    Becomes rotating second.disk root example_org
      (replay (events rotating toy root example_org run) (registry with_orders))
Run-replay_example =
    Run-replay rotating toy root example_org (to_str orders ∷ to_str orders ∷ []) orders_disk
      second.disk with_orders (orders_disk-IsRoot _) run

-- A token that claims the ID of billing, which the bundle does not know.
abbrev answer : ToyToken
answer = record {
  header = record { kid = some (codes "Nw"); typ = some (codes "JWT") };
  alg = codes "ES256";
  claims = minted_claims billing orders (pos 1000) (pos 60);
  signer = 9;
}

claimed : read_claims toy answer ≡ ok (record { id = billing; kid = some (codes "Nw") })
unfolding read_claims parse_id minted_claims truthy to_str
claimed = refl

others : to_str orders ≢ to_str billing
unfolding to_str
others e = ground arith

Run-verify_example :
    (verify rotating toy second.disk second.disk
      (pos 1030)
      verifier
      answer
      none
      default_leeway_seconds).0
    ≡ (verify rotating toy orders_disk orders_disk
        (pos 1030)
        verifier
        answer
        none
        default_leeway_seconds).0
Run-verify_example =
    Run-verify rotating toy verifier answer none default_leeway_seconds (pos 1030)
      (record { id = billing; kid = some (codes "Nw") }) claimed root example_org
      (to_str orders ∷ to_str orders ∷ []) orders_disk second.disk with_orders reads_root
      (orders_disk-IsRoot _) run (others, (others, tt))
