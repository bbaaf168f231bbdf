-- ===== src/Examples/Provisioned.antt =====
-- A provisioned root with the service orders, at the steps of its life.
use spiffile.Prelude.{
  ℕ, ◌+◌, Text, codes, Option, some, [], ◌∷◌, ◌++◌, text_eq, nat_eq, if◌then◌else◌,
}
use spiffile.Prelude.Value.{Value, str, obj, Fields, end, field, get}
use spiffile.Codec.{Codec}
use spiffile.Disk.{FilePath, folder, file, Location, Node, Disk}
use spiffile.Disk.Action.{Host}
use spiffile.SpiffeId.{to_str}
use spiffile.Bundle.{Bundle, to_dict}
use spiffile.BundleSource.{source}
use spiffile.KeySource.{static}
use spiffile.Identity.{Identity}
use spiffile.Examples.Toy.{coordinate}
use spiffile.Examples.Data.{example_org, orders, orders_name, billing}

abbrev pub root : FilePath
root = record { root = 1; parts = codes "srv" ∷ [] }

abbrev pub host : Host
host = record { mtime = 500; mode = 0o644 }

-- The thumbprint of key 7 differs from that of the others.
abbrev compact : Option Value → Text
compact (some (str x)) = if text_eq x (coordinate 7) then codes "7" else codes "8"
compact _ = []

abbrev pub dumps_compact : Value → Text
dumps_compact (obj members) = compact (get (codes "x") members)
dumps_compact _ = []

abbrev loads : Bundle → Bundle → Text → Option Value
loads old new [] = some (to_dict old)
loads old new (c ∷ _) = some (to_dict (if nat_eq c b'N' then new else old))

-- The old bundle's file starts with "O"; what is written is the new bundle.
abbrev pub codec_for : Bundle → Bundle → Codec
codec_for old new = record {
  decode = λ bytes. some bytes;
  encode = λ text. text;
  loads = loads old new;
  dumps = λ v. codes "N";
  dumps_compact = dumps_compact;
  py_str = λ v. codes "{}";
}

-- What `public_jwk` makes of a key, with this thumbprint.
abbrev pub public_of : ℕ → Text → Fields
public_of k kid = field (codes "kty") (str (codes "EC")) (
    field (codes "crv") (str (codes "P-256")) (
      field (codes "x") (str (coordinate k)) (
        field (codes "y") (str (coordinate (k + 1))) (
          field (codes "kid") (str kid) (
            field (codes "use") (str (codes "jwt-svid"))
              (field (codes "alg") (str (codes "ES256")) end))))))

abbrev pub public_7 : Fields
public_7 = public_of 7 (codes "Nw")

abbrev pub public_8 : Fields
public_8 = public_of 8 (codes "OA")

abbrev pub no_service : Bundle
no_service = record { trust_domain = str example_org; identities = [] }

abbrev pub with_orders : Bundle
with_orders = record {
  trust_domain = str example_org;
  identities = (orders_name, obj public_7 ∷ []) ∷ [];
}

abbrev pub with_both_keys : Bundle
with_both_keys = record {
  trust_domain = str example_org;
  identities = (orders_name, obj public_8 ∷ obj public_7 ∷ []) ∷ [];
}

abbrev pub with_new_key : Bundle
with_new_key = record {
  trust_domain = str example_org;
  identities = (orders_name, obj public_8 ∷ []) ∷ [];
}

abbrev pub root_at : Location
root_at = codes "srv" ∷ []

abbrev pub orders_at : Location
orders_at = codes "orders" ∷ codes "services" ∷ root_at

abbrev directory : Node
directory = folder (record { mtime = 0; size = 0 })

abbrev pub bare_disk : Disk
bare_disk = record { nodes = (root_at, directory) ∷ []; cwd = [] }

abbrev pub root_disk : Disk
root_disk = record {
  nodes =
      (
        codes "bundle.json" ∷ root_at,
        file (record { bytes = codes "O"; mtime = 100; mode = 0o644 }),
      )
      ∷ bare_disk.nodes;
  cwd = [];
}

abbrev pub orders_disk : Disk
orders_disk = record {
  nodes =
      (codes "key.pem" ∷ orders_at, file (record { bytes = 7 ∷ []; mtime = 200; mode = 0o600 }))
      ∷ (
        codes "id" ∷ orders_at,
        file (record { bytes = to_str orders ++ b'\n' ∷ []; mtime = 200; mode = 0o644 }),
      )
      ∷ (orders_at, directory)
      ∷ (codes "services" ∷ root_at, directory)
      ∷ root_disk.nodes;
  cwd = [];
}

abbrev pub verifier : Identity ℕ
verifier = record {
  id = billing;
  key_source = static 9 (codes "OA");
  bundle_source = source (record { root = 1; parts = codes "srv" ∷ codes "bundle.json" ∷ [] });
}
