-- ===== src/Examples/KeyWitnesses.antt =====
-- The theorems on signing keys at concrete data.
use spiffile.Prelude.{ℕ, codes, [], ◌∷◌, ◌≡◌, refl, arith, text_eq}
use spiffile.Prelude.Dict.{lookup}
use spiffile.Disk.{FilePath, folder, file, Disk, stat, node_at, location_eq}
use spiffile.Errors.{ok}
use spiffile.BundleSource.Fresh.{Detects}
use spiffile.KeySource.{file_source, get_file}
use spiffile.KeySource.Cache.{asked, made}
use spiffile.KeySource.Fresh.{uncached_key, get_file-uncached_key}
use spiffile.Examples.Toy.{toy}
use spiffile.Examples.Data.{codec, published, public_7}
use spiffile.Examples.TokenWitnesses.{public_jwk-7}
use spiffile.Keys.Bounds.{Bounded, public_jwk-Bounded}
use spiffile.Errors.{raise, overflow_error}
use spiffile.Prelude.{◌^◌, ◌-◌}
use spiffile.Keys.Jwk.{IsJwkOf, public_jwk-IsJwkOf}
use spiffile.Examples.History.{once, once-Detects}
use spiffile.Prelude.{some}
use spiffile.Prelude.Int.{pos}
use spiffile.Disk.{locate, walk}
use spiffile.BundleSource.{source}
use spiffile.Keys.{key_id, public_jwk, to_bytes, jwk_thumbprint, coordinates, item, b64url}
use spiffile.KeySource.{static, from_file, static_source}
use spiffile.Identity.{Identity, spiffe}
use spiffile.Identity.Loading.{construct, private_key, key_file_source}
use spiffile.Identity.Minting.{token}
use spiffile.Identity.Static.{token-construct}
use spiffile.Examples.Toy.{coordinate}
use spiffile.Examples.Data.{orders, billing, bundle_path}

abbrev key_path : FilePath
key_path = record { root = 1; parts = codes "etc" ∷ codes "key.pem" ∷ [] }

-- The key file holds this key.
abbrev key_disk : ℕ → ℕ → Disk
key_disk key mtime = record {
  nodes =
      (codes "etc" ∷ [], folder (record { mtime = 0; size = 0 }))
      ∷ (
        codes "key.pem" ∷ codes "etc" ∷ [],
        file (record { bytes = key ∷ []; mtime = mtime; mode = 0o600 }),
      )
      ∷ [];
  cwd = [];
}

abbrev rotation : ℕ → Disk
rotation = once (key_disk 7 100) (key_disk 8 200)

stat-key_disk :
    (key mtime : ℕ) → stat (key_disk key mtime) key_path ≡ ok (record { mtime = mtime; size = 1 })
unfolding stat text_eq node_at location_eq lookup
stat-key_disk key mtime = refl

rotation-Detects : Detects rotation key_path
rotation-Detects =
    once-Detects (key_disk 7 100) (key_disk 8 200) key_path _ _ (stat-key_disk 7 100)
      (stat-key_disk 8 200) (λ e. ground arith)

-- The first call's read comes after the replacement, and its stat before.
get_file-uncached_key_example :
    (get_file codec toy
      (rotation 2)
      (rotation 2)
      (get_file codec toy (rotation 0) (rotation 1) (file_source key_path)).1).0
    ≡ uncached_key codec toy (rotation 2) key_path
get_file-uncached_key_example =
    get_file-uncached_key codec toy rotation key_path 2 rotation-Detects
      (asked 0 1 (made {n = 0}) (omega arith) (omega arith) refl) (omega arith)

public_jwk-IsJwkOf_example : IsJwkOf published toy 7 8 public_7
public_jwk-IsJwkOf_example = public_jwk-IsJwkOf published toy 7 public_7 public_jwk-7

abbrev given : Identity ℕ
given = record {
  id = orders;
  key_source = static 7 (codes "e30");
  bundle_source = source bundle_path;
}

abbrev reading : Identity ℕ
reading = record {
  id = orders;
  key_source = from_file (file_source key_path);
  bundle_source = source bundle_path;
}

construct-given : construct codec toy orders (private_key 7) (source bundle_path) ≡ ok given
unfolding construct static_source key_id public_jwk to_bytes jwk_thumbprint coordinates item b64url
    text_eq coordinate
construct-given = refl

construct-reading :
    construct codec toy orders (key_file_source (file_source key_path)) (source bundle_path)
    ≡ ok reading
unfolding construct
construct-reading = refl

key_place : locate (key_disk 7 100) key_path ≡ ok (codes "key.pem" ∷ codes "etc" ∷ [])
unfolding locate walk text_eq
key_place = refl

key_node :
    node_at (key_disk 7 100) (codes "key.pem" ∷ codes "etc" ∷ [])
    ≡ some (file (record { bytes = 7 ∷ []; mtime = 100; mode = 0o600 }))
unfolding node_at lookup location_eq text_eq
key_node = refl

token-construct_example :
    (token codec toy (key_disk 7 100) (key_disk 7 100) (pos 1000) given (spiffe billing) (pos 60)).0
    ≡ (token codec toy
        (key_disk 7 100)
        (key_disk 7 100)
        (pos 1000)
        reading
        (spiffe billing)
        (pos 60)).0
token-construct_example =
    token-construct codec toy (key_disk 7 100) orders 7 (source bundle_path) given reading key_path
      _ _ (spiffe billing) (pos 1000) (pos 60) construct-given construct-reading key_place key_node
      refl

public_jwk-Bounded_example : Bounded published toy 7 7 8
public_jwk-Bounded_example = public_jwk-Bounded published toy 7

-- The last x coordinate that fits has a y coordinate here that does not.
overflow : public_jwk published toy (2 ^ 256 - 1) ≡ raise overflow_error
unfolding public_jwk to_bytes
overflow = refl
