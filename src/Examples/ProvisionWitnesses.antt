-- ===== src/Examples/ProvisionWitnesses.antt =====
-- The theorems on provisioning at concrete data.
use spiffile.Prelude.{true, [], ◌∷◌, ◌≡◌, refl, text_Eq}
use spiffile.Prelude.Value.{obj}
use spiffile.Disk.{Disk}
use spiffile.Disk.Action.{◌>>◌}
use spiffile.Disk.Locate.{place}
use spiffile.Errors.{ok}
use spiffile.Provision.Operations.{id_text, init_root, add_service, rotate_service, remove_service}
use spiffile.Provision.Places.{service_at}
use spiffile.Provision.Layout.{Added, bound}
use spiffile.Provision.Init.{Initialized, init_root-Initialized}
use spiffile.Provision.Add.{add_service-Added}
use spiffile.Provision.Again.{add_service-again}
use spiffile.Provision.Rotate.{Rotated, rotate_service-Rotated}
use spiffile.Provision.Remove.{remove_service-Removed}
use spiffile.Provision.Complete.{Removed, unbound}
use spiffile.Examples.Toy.{toy}
use spiffile.Examples.Data.{example_org, orders, orders_name}
use spiffile.Examples.Provisioned.{
  root, host, codec_for, public_7, public_8, no_service, with_orders, bare_disk, root_disk,
  orders_disk,
}
use spiffile.Examples.ProvisionFacts.{
  adding, rotating, removing, keeps_key_7, name, parse-name, root_disk-IsRoot, orders_disk-IsRoot,
  codec_for-Stores, is_public_7, is_public_8, bare_disk-IsClear, root_disk-IsVacant,
  orders_disk-IsService, orders_disk-IsComplete,
}

init_root-Initialized_example :
    (d' : Disk) × (init_root (codec_for no_service no_service) host root example_org bare_disk
      ≡ (ok root, d'))
    × Initialized (codec_for no_service no_service) bare_disk d' root example_org
init_root-Initialized_example =
    init_root-Initialized (codec_for no_service no_service) host bare_disk root example_org
      bare_disk-IsClear (codec_for-Stores no_service no_service)

add_service-Added_example :
    (d' : Disk) × (add_service adding toy host root name 7 root_disk ≡ (ok orders, d'))
    × Added adding host root_disk d' root
        (service_at (place [] root) (name ∷ []))
        orders
        (7 ∷ [])
        (bound no_service orders (obj public_7 ∷ []))
add_service-Added_example =
    add_service-Added adding toy host root_disk root name (name ∷ []) example_org no_service orders
      7 public_7 (root_disk-IsRoot _) root_disk-IsVacant (parse-name no_service adding refl)
      (is_public_7 _ _) (codec_for-Stores _ _)

add_service-again_example :
    (do add_service adding toy host root name 7; add_service adding toy host root name 8) root_disk
    ≡ add_service adding toy host root name 7 root_disk
add_service-again_example =
    add_service-again adding toy host host root_disk root name (name ∷ []) example_org no_service
      orders 7 8 public_7 (root_disk-IsRoot _) root_disk-IsVacant
      (parse-name no_service adding refl) (is_public_7 _ _) (codec_for-Stores _ _)

rotate_service-Rotated_example :
    (d' : Disk) × (rotate_service rotating toy host root name true 8 orders_disk ≡ (ok orders, d'))
    × Rotated rotating host orders_disk d' root
        (service_at (place [] root) (name ∷ []))
        (8 ∷ [])
        (bound with_orders orders (obj public_8 ∷ obj public_7 ∷ []))
rotate_service-Rotated_example =
    rotate_service-Rotated rotating toy host orders_disk root name (name ∷ []) example_org
      with_orders orders true 8 public_8 (obj public_7 ∷ []) (orders_disk-IsRoot _)
      orders_disk-IsService (parse-name with_orders rotating refl) (is_public_8 _ _) keeps_key_7
      (codec_for-Stores _ _)

remove_service-Removed_example :
    (d' : Disk) × (remove_service removing host root name orders_disk ≡ (ok tt, d'))
    × Removed removing orders_disk d' root
        (service_at (place [] root) (name ∷ []))
        (unbound with_orders (id_text removing with_orders name))
remove_service-Removed_example =
    remove_service-Removed removing host orders_disk root name (name ∷ []) example_org with_orders
      (orders_disk-IsRoot _) orders_disk-IsComplete
      (unfold id_text in codec_for-Stores with_orders (unbound with_orders orders_name))
