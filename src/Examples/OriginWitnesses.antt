-- ===== src/Examples/OriginWitnesses.antt =====
-- The origin of the key behind an accepted token at concrete data: orders is rotated once, and a
-- token that was signed before is verified behind it.
use spiffile.Prelude.{codes, true, none, [], ◌∷◌, ◌≡◌, refl, arith, text_Eq, text_eq}
use spiffile.Prelude.Int.{pos, ◌+ℤ◌}
use spiffile.Prelude.Value.{obj}
use spiffile.Disk.{Disk}
use spiffile.Errors.{ok}
use spiffile.SpiffeId.{to_str}
use spiffile.Identity.{Caller, verify, default_leeway_seconds, expected_audience}
use spiffile.Identity.Minting.{minted_claims}
use spiffile.Provision.Operations.{rotate_service}
use spiffile.Provision.Revocation.{rotate_service-verify}
use spiffile.Provision.Registry.{registry}
use spiffile.Provision.Runs.{Run, rotated, done, after, events}
use spiffile.Provision.Origin.{SignedBy, Run-SignedBy}
use spiffile.Examples.Toy.{toy, toy-IsSound}
use spiffile.Examples.ToyLaws.{toy-IsStrict, toy-IsFaithful, toy-KeyPairs}
use spiffile.Examples.Data.{example_org, orders, billing}
use spiffile.Examples.RevocationWitnesses.{reads_root, request, orders-IsBound, keeps_bound}
use spiffile.Examples.Provisioned.{
  root, host, public_7, public_8, with_orders, orders_disk, verifier,
}
use spiffile.Examples.ProvisionFacts.{
  rotating, keeps_key_7, name, parse-name, orders_disk-IsRoot, codec_for-Stores, is_public_8,
  orders_disk-IsService,
}

abbrev caller : Caller
caller = record { id = orders; claims = minted_claims orders billing (pos 1000) (pos 60) }

-- The disk behind the rotation, on which the token is accepted.
rotation :
    (d' : Disk) × (rotate_service rotating toy host root name true 8 orders_disk ≡ (ok orders, d'))
    × ((verify rotating toy d' d' (pos 1030) verifier request none default_leeway_seconds).0
        ≡ ok caller)
unfolding ◌+ℤ◌
rotation =
    rotate_service-verify rotating toy host orders_disk root name (name ∷ []) example_org
      with_orders orders 8 public_8 (toy-KeyPairs rotating) verifier none default_leeway_seconds
      (pos 1030) request toy-IsStrict (orders_disk-IsRoot _) orders_disk-IsService
      (parse-name with_orders rotating refl) (is_public_8 _ _) refl reads_root 7 (codes "OA")
      (codes "Nw") (obj public_7 ∷ []) billing (pos 1000) (pos 60) orders-IsBound toy-IsFaithful
      (unfold text_eq in refl) (λ e. ground arith) keeps_bound (codec_for-Stores _ _)
      (unfold expected_audience in refl) refl (omega arith) (omega arith)

run : Run rotating toy root example_org (to_str orders ∷ []) orders_disk rotation.0
run =
    after
      (rotated host name (name ∷ []) with_orders orders true 8 public_8 (obj public_7 ∷ [])
        (orders_disk-IsRoot _) orders_disk-IsService (parse-name with_orders rotating refl)
        (is_public_8 _ _) keeps_key_7 (codec_for-Stores _ _) refl rotation.1)
      done

Run-SignedBy_example :
    SignedBy toy request
      (to_str orders)
      (events rotating toy root example_org run)
      (registry with_orders)
Run-SignedBy_example =
    Run-SignedBy rotating toy toy-IsSound root example_org (to_str orders ∷ []) orders_disk
      rotation.0 with_orders verifier request none default_leeway_seconds (pos 1030) caller
      reads_root (orders_disk-IsRoot _) run rotation.2
