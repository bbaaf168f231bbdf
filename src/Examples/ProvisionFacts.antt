-- ===== src/Examples/ProvisionFacts.antt =====
-- What the provisioned root of the examples has.
use spiffile.Prelude.{
  Text, codes, Bool, ◌&&◌, true, false, Option, some, [], ◌∷◌, ◌≡◌, refl, text_eq, text_Eq, split,
  split_first, all,
}
use spiffile.Prelude.Dict.{lookup, insert}
use spiffile.Prelude.Value.{str, obj}
use spiffile.Codec.{Codec, ReadsBack}
use spiffile.Disk.{
  Disk, Location, Node, stat, read_bytes, node_at, locate, walk, file, location_eq, path, clean,
  ◌//◌, behind_file,
}
use spiffile.Disk.Locate.{IsDirect, place, descend}
use spiffile.Errors.{Result, ok}
use spiffile.SpiffeId.{parse, to_str, is_segment_char}
use spiffile.SpiffeId.Grammar.{IsDomain, all-IsSegmentChar}
use spiffile.Bundle.{
  Bundle, from_dict, to_dict, member, is_version_one, items_method, read_entries, read_entry,
  is_text, keys_member, bind_keys, read_parsed, identity_fields,
}
use spiffile.BundleSource.{get, load, cached}
use spiffile.Keys.{public_jwk, to_bytes, b64url, jwk_thumbprint, coordinates, item}
use spiffile.Provision.Operations.{id_text}
use spiffile.Provision.Places.{IsName}
use spiffile.Provision.Stored.{Stores, current}
use spiffile.Provision.{service_dir}
use spiffile.Provision.Operations.{existing_keys}
use spiffile.Provision.Retained.{without_kid}
use spiffile.Provision.Layout.{bound}
use spiffile.Provision.Complete.{unbound}
use spiffile.Provision.Layout.{IsRoot, IsVacant}
use spiffile.Provision.Init.{IsClear}
use spiffile.Provision.Rotate.{IsService}
use spiffile.Provision.Complete.{IsComplete}
use spiffile.Examples.Toy.{toy, coordinate}
use spiffile.Examples.Data.{example_org, orders, orders_name}
use spiffile.Examples.TokenWitnesses.{parse_id, orders-IsValid}
use spiffile.Examples.Provisioned.{
  root, codec_for, public_7, public_8, no_service, with_orders, bare_disk, root_disk, orders_disk,
}

abbrev pub name : Text
name = codes "orders"

-- To unfold `bundle_at` is to unfold all that reading the bundle calls.
abbrev bundle_at : Codec → Disk → Result Bundle
unfolding from_dict to_dict identity_fields member is_version_one items_method read_entries
    read_entry is_text keys_member bind_keys read_parsed insert lookup parse_id to_str get load
    cached read_bytes stat node_at location_eq path ◌//◌ locate walk
bundle_at codec d = current codec d root

pub parse-name :
    (b : Bundle) (codec : Codec)
    → b.trust_domain ≡ str example_org
    → parse (str (id_text codec b name)) ≡ ok orders
unfolding id_text parse_id
parse-name b codec e = rw e refl

pub example-IsDomain : IsDomain example_org
example-IsDomain = orders-IsValid.domain

pub orders-IsName : IsName name (codes "orders" ∷ [])
unfolding path clean split split_first text_eq all is_segment_char
orders-IsName = record {
  below = record { is_path = refl; steps = (λ e. cc, tt) };
  each = (
    record {
      nonempty = λ e. cc;
      not_dot = λ e. cc;
      not_dot_dot = λ e. cc;
      chars = (all-IsSegmentChar name).0 refl;
    },
    tt,
  );
  nonempty = λ e. cc;
}

pub root_disk-IsRoot :
    (new : Bundle) → IsRoot (codec_for no_service new) root_disk root example_org no_service
unfolding bundle_at
root_disk-IsRoot new = record {
  direct = (λ e. cc, tt);
  has_bundle = refl;
  is_text = refl;
  domain = example-IsDomain;
}

pub orders_disk-IsRoot :
    (new : Bundle) → IsRoot (codec_for with_orders new) orders_disk root example_org with_orders
unfolding bundle_at
orders_disk-IsRoot new = record {
  direct = (λ e. cc, tt);
  has_bundle = refl;
  is_text = refl;
  domain = example-IsDomain;
}

pub codec_for-Stores : (old new : Bundle) → Stores (codec_for old new) new
codec_for-Stores old new = record { decodes = refl; loads_text = refl }

pub codec_for-ReadsBack : (old new : Bundle) → ReadsBack (codec_for old new)
codec_for-ReadsBack old new = record { decode-encode = λ t. refl }

pub is_public_7 : (old new : Bundle) → public_jwk (codec_for old new) toy 7 ≡ ok public_7
unfolding public_jwk to_bytes jwk_thumbprint coordinates item b64url text_eq coordinate
is_public_7 old new = refl

pub is_public_8 : (old new : Bundle) → public_jwk (codec_for old new) toy 8 ≡ ok public_8
unfolding public_jwk to_bytes jwk_thumbprint coordinates item b64url text_eq coordinate
is_public_8 old new = refl

-- To unfold `at` is to unfold all that looking up a location calls.
abbrev at : Disk → Location → Option Node
unfolding node_at lookup location_eq text_eq place descend behind_file service_dir path ◌//◌ clean
    split split_first
at d here = node_at d here

pub bare_disk-IsClear : IsClear bare_disk root
unfolding at
bare_disk-IsClear = record {
  direct = (λ e. cc, tt);
  no_bundle = refl;
  open_services = refl;
  has_base = refl;
}

pub root_disk-IsVacant : IsVacant root_disk root name (codes "orders" ∷ [])
unfolding at
root_disk-IsVacant = record {
  is_name = orders-IsName;
  no_key = refl;
  no_id = refl;
  open_dir = refl;
  has_base = refl;
}

pub orders_disk-IsService : IsService orders_disk root name (codes "orders" ∷ [])
unfolding at
orders_disk-IsService = record { is_name = orders-IsName; key_file = _; has_key = refl }

and_false : (b : Bool) → (b && false) ≡ false
and_false true = refl
and_false false = refl

pub orders_disk-IsComplete : IsComplete orders_disk root name (codes "orders" ∷ [])
unfolding at
orders_disk-IsComplete = record {
  is_name = orders-IsName;
  key_file = _;
  has_key = refl;
  id_file = _;
  has_id = refl;
  is_dir = refl;
  no_more = λ other not_key not_id.
      rw
        (
          not_key,
          not_id,
          and_false (text_eq (codes "orders") other),
          and_false (text_eq (codes "services") other),
          and_false (text_eq (codes "bundle.json") other),
          and_false (text_eq (codes "srv") other),
        )
        refl;
}

pub root-IsDirect : IsDirect root
root-IsDirect = (λ e. cc, tt)

pub root_disk-bundle :
    node_at root_disk (codes "bundle.json" ∷ place [] root)
    ≡ some (file (record { bytes = codes "O"; mtime = 100; mode = 0o644 }))
unfolding at
root_disk-bundle = refl

abbrev pub adding : Codec
adding = codec_for no_service (bound no_service orders (obj public_7 ∷ []))

abbrev pub rotating : Codec
rotating = codec_for with_orders (bound with_orders orders (obj public_8 ∷ obj public_7 ∷ []))

pub keeps_key_7 :
    without_kid public_8 (existing_keys with_orders (to_str orders) true) ≡ ok (obj public_7 ∷ [])
unfolding without_kid existing_keys lookup text_eq to_str item
keeps_key_7 = refl

abbrev pub removing : Codec
removing = codec_for with_orders (unbound with_orders orders_name)

abbrev pub replacing : Codec
replacing = codec_for with_orders (bound with_orders orders (obj public_8 ∷ []))
