-- ===== src/Examples/RenewalWitnesses.antt =====
-- The theorems on repeated provisioning at concrete data: orders is removed, and comes back with
-- key 8.
use spiffile.Prelude.{
  ℕ, ◌+◌, Text, codes, true, Option, none, some, [], ◌∷◌, ◌≡◌, refl, nat_eq, text_eq, text_Eq,
  if◌then◌else◌,
}
use spiffile.Prelude.Dict.{lookup, insert, erase}
use spiffile.Prelude.Value.{Value, obj, Fields, end, field, get}
use spiffile.Codec.{Codec}
use spiffile.Disk.{Disk, stat, read_bytes, node_at, locate, walk, location_eq, path, ◌//◌}
use spiffile.Disk.Locate.{place, descend}
use spiffile.Errors.{Result, ok, raise, plain, already_initialized, unknown_service}
use spiffile.SpiffeId.{to_str}
use spiffile.Bundle.{
  Bundle, from_dict, to_dict, member, is_version_one, items_method, read_entries, read_entry,
  is_text, keys_member, bind_keys, read_parsed, identity_fields,
}
use spiffile.BundleSource.{get as read_source, load, cached}
use spiffile.Keys.{public_jwk, to_bytes, jwk_thumbprint, coordinates, item, b64url}
use spiffile.Provision.Operations.{id_text, init_root, add_service, rotate_service, remove_service}
use spiffile.Provision.Places.{service_at}
use spiffile.Provision.Stored.{Stores, current}
use spiffile.Provision.Layout.{IsRoot, Added, bound}
use spiffile.Provision.Init.{init_root-again}
use spiffile.Provision.Complete.{unbound}
use spiffile.Provision.Room.{IsReached}
use spiffile.Provision.Renewal.{remove_service-rotate_service, remove_service-add_service}
use spiffile.Examples.Toy.{toy, coordinate}
use spiffile.Examples.Data.{example_org, orders, orders_name}
use spiffile.Examples.TokenWitnesses.{parse_id}
use spiffile.Examples.Provisioned.{
  root, host, codec_for, public_8, no_service, with_orders, bare_disk, orders_disk, dumps_compact,
}
use spiffile.Examples.ProvisionFacts.{
  removing, name, parse-name, orders_disk-IsRoot, codec_for-Stores, bare_disk-IsClear,
  orders_disk-IsComplete, example-IsDomain,
}

init_root-again_example :
    (d' : Disk) × (init_root (codec_for no_service no_service) host root example_org bare_disk
      ≡ (ok root, d'))
    × (init_root (codec_for no_service no_service) host root (codes "b.org") d'
        ≡ (raise (plain already_initialized), d'))
init_root-again_example =
    init_root-again (codec_for no_service no_service) host host bare_disk root example_org
      (codes "b.org") bare_disk-IsClear (codec_for-Stores no_service no_service)

remove_service-rotate_service_example :
    (d1 : Disk) × (remove_service removing host root name orders_disk ≡ (ok tt, d1))
    × (rotate_service removing toy host root name true 8 d1 ≡ (raise (plain unknown_service), d1))
remove_service-rotate_service_example =
    remove_service-rotate_service removing toy host host orders_disk root name (name ∷ [])
      example_org with_orders orders 8 (orders_disk-IsRoot _) orders_disk-IsComplete
      (parse-name with_orders removing refl) true
      (unfold id_text in codec_for-Stores with_orders (unbound with_orders orders_name))

-- A document is written as the number of its identities; the file of `orders_disk` starts with "O".
abbrev count : Fields → ℕ
count end = 0
count (field k v fs) = 1 + count fs

abbrev size : Option Value → ℕ
size (some (obj fs)) = count fs
size _ = 0

abbrev dumps : Value → Text
dumps (obj fs) = (b'0' + size (get (codes "identities") fs)) ∷ []
dumps _ = []

abbrev with_8 : Bundle
with_8 = record {
  trust_domain = no_service.trust_domain;
  identities = (to_str orders, obj public_8 ∷ []) ∷ [];
}

abbrev bundle_of : ℕ → Bundle
bundle_of n = if nat_eq n b'0' then no_service else if nat_eq n b'1' then with_8 else with_orders

abbrev loads : Text → Option Value
loads [] = none
loads (n ∷ _) = some (to_dict (bundle_of n))

abbrev renewing : Codec
renewing = record {
  decode = λ bytes. some bytes;
  encode = λ text. text;
  loads = loads;
  dumps = dumps;
  dumps_compact = dumps_compact;
  py_str = λ v. codes "{}";
}

abbrev bundle_at : Codec → Disk → Result Bundle
unfolding from_dict to_dict identity_fields member is_version_one items_method read_entries
    read_entry is_text keys_member bind_keys read_parsed insert lookup parse_id to_str read_source
    load cached read_bytes stat node_at location_eq path ◌//◌ locate walk
bundle_at codec d = current codec d root

renewing-IsRoot : IsRoot renewing orders_disk root example_org with_orders
unfolding bundle_at
renewing-IsRoot = record {
  direct = (λ e. cc, tt);
  has_bundle = refl;
  is_text = refl;
  domain = example-IsDomain;
}

is_public_8 : public_jwk renewing toy 8 ≡ ok public_8
unfolding public_jwk to_bytes jwk_thumbprint coordinates item b64url text_eq coordinate
is_public_8 = refl

unbound-Stores : Stores renewing (unbound with_orders (id_text renewing with_orders name))
unfolding to_dict identity_fields id_text erase text_eq to_str
unbound-Stores = record { decodes = refl; loads_text = refl }

bound-Stores :
    Stores renewing
      (bound (unbound with_orders (id_text renewing with_orders name)) orders (obj public_8 ∷ []))
unfolding to_dict identity_fields id_text erase insert text_eq to_str
bound-Stores = record { decodes = refl; loads_text = refl }

orders_disk-IsReached : IsReached orders_disk (service_at (place orders_disk.cwd root) (name ∷ []))
unfolding node_at lookup location_eq text_eq place descend
orders_disk-IsReached = (refl, (refl, (refl, refl)))

remove_service-add_service_example :
    (d1 : Disk) × (d2 : Disk) × (remove_service renewing host root name orders_disk ≡ (ok tt, d1))
    × (add_service renewing toy host root name 8 d1 ≡ (ok orders, d2))
    × Added renewing host d1 d2 root
        (service_at (place d1.cwd root) (name ∷ []))
        orders
        (8 ∷ [])
        (bound (unbound with_orders (id_text renewing with_orders name)) orders (obj public_8 ∷ []))
remove_service-add_service_example =
    remove_service-add_service renewing toy host host orders_disk root name (name ∷ []) example_org
      with_orders orders 8 renewing-IsRoot orders_disk-IsComplete
      (parse-name with_orders renewing refl) public_8 orders_disk-IsReached is_public_8
      unbound-Stores bound-Stores
