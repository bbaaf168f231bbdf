-- ===== src/Examples/Data.antt =====
-- Concrete IDs, documents, disks and identities.
use spiffile.Prelude.{ℕ, Text, codes, some, [], ◌∷◌}
use spiffile.Prelude.Int.{pos}
use spiffile.Prelude.Value.{Value, str, obj, arr, int, Items, nil, cons, Fields, end, field}
use spiffile.Codec.{Codec}
use spiffile.Disk.{FilePath, folder, file, Disk}
use spiffile.SpiffeId.{SpiffeId}
use spiffile.Bundle.{Bundle}
use spiffile.BundleSource.{source}
use spiffile.KeySource.{static}
use spiffile.Identity.{Identity}
use spiffile.Examples.Toy.{coordinate}
use spiffile.Examples.History.{once}

abbrev pub example_org : Text
example_org = codes "example.org"

abbrev pub orders : SpiffeId
orders = record { trust_domain = example_org; path = codes "/orders" }

abbrev pub billing : SpiffeId
billing = record { trust_domain = example_org; path = codes "/billing" }

abbrev pub orders_name : Text
orders_name = codes "spiffe://example.org/orders"

abbrev pub billing_name : Text
billing_name = codes "spiffe://example.org/billing"

-- A name that is no SPIFFE ID.
abbrev pub bad_name : Text
bad_name = codes "spiffe://example.org/bad~path"

abbrev pub jwk : Text → Text → Value
jwk kid x = obj (field (codes "x") (str x) (field (codes "kid") (str kid) end))

abbrev pub jwks : Items → Value
jwks keys = obj (field (codes "keys") (arr keys) end)

-- The keys of orders are 7 and 8, that of billing is 9.
abbrev pub key_7 : Value
key_7 = jwk (codes "k7") (coordinate 7)

abbrev pub key_8 : Value
key_8 = jwk (codes "k8") (coordinate 8)

abbrev pub identities : Fields
identities =
    field orders_name (jwks (cons key_7 (cons key_8 nil)))
      (field bad_name (jwks (cons key_8 nil)) (field billing_name (jwks nil) end))

abbrev pub document : Value
document = obj (
    field (codes "trust_domain") (str example_org) (
      field (codes "spiffile_version") (int (pos 1))
        (field (codes "identities") (obj identities) end)))

abbrev pub bundle : Bundle
bundle = record {
  trust_domain = str example_org;
  identities = (orders_name, key_7 ∷ key_8 ∷ []) ∷ [];
}

-- Each file holds the document, whatever their bytes are.
abbrev pub codec_of : Value → Codec
codec_of v = record {
  decode = λ bytes. some bytes;
  encode = λ text. text;
  loads = λ text. some v;
  dumps = λ v. codes "{}";
  dumps_compact = λ v. codes "{}";
  py_str = λ v. codes "{}";
}

abbrev pub codec : Codec
codec = codec_of document

abbrev pub bundle_path : FilePath
bundle_path = record { root = 1; parts = codes "etc" ∷ codes "bundle.json" ∷ [] }

abbrev pub disk_at : ℕ → Disk
disk_at mtime = record {
  nodes =
      (codes "etc" ∷ [], folder (record { mtime = 0; size = 0 }))
      ∷ (
        codes "bundle.json" ∷ codes "etc" ∷ [],
        file (record { bytes = codes "{}"; mtime = mtime; mode = 0o644 }),
      )
      ∷ [];
  cwd = [];
}

-- The file is replaced once, after the first moment.
abbrev pub history : ℕ → Disk
history = once (disk_at 100) (disk_at 200)

abbrev pub receiver : Identity ℕ
receiver = record {
  id = billing;
  key_source = static 9 (codes "k9");
  bundle_source = source bundle_path;
}

abbrev pub sender : Identity ℕ
sender = record {
  id = orders;
  key_source = static 7 (codes "e30");
  bundle_source = source bundle_path;
}

-- What `public_jwk` makes of key 7.
abbrev pub public_7 : Fields
public_7 = field (codes "kty") (str (codes "EC")) (
    field (codes "crv") (str (codes "P-256")) (
      field (codes "x") (str (coordinate 7)) (
        field (codes "y") (str (coordinate 8)) (
          field (codes "kid") (str (codes "e30")) (
            field (codes "use") (str (codes "jwt-svid"))
              (field (codes "alg") (str (codes "ES256")) end))))))

abbrev pub published : Codec
published = codec_of (
    obj (
      field (codes "trust_domain") (str example_org) (
        field (codes "spiffile_version") (int (pos 1)) (
          field (codes "identities")
            (obj (field orders_name (jwks (cons key_8 (cons (obj public_7) nil))) end)) end))))

abbrev pub published_bundle : Bundle
published_bundle = record {
  trust_domain = str example_org;
  identities = (orders_name, key_8 ∷ obj public_7 ∷ []) ∷ [];
}
