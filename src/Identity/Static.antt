-- ===== src/Identity/Static.antt =====
-- Identities that are given their private key, beside those that read it from a file
-- (python/src/spiffile/identity.py).
use spiffile.Prelude.{Text, some, ◌≡◌, refl, ap, ◌∙◌, inl, inr}
use spiffile.Prelude.Int.{ℤ}
use spiffile.Codec.{Codec}
use spiffile.Crypto.{Crypto, ec}
use spiffile.Disk.{FilePath, File, file, Location, Disk, node_at, locate}
use spiffile.Errors.{ok, Result-cases, >>=-eq-ok}
use spiffile.SpiffeId.{SpiffeId}
use spiffile.BundleSource
use spiffile.Keys.{key_id}
use spiffile.KeySource.{static, from_file, file_source, static_source, get_key}
use spiffile.Identity.{Identity, Audience}
use spiffile.Identity.Loading.{private_key, key_file_source, construct}
use spiffile.Identity.Minting.{audience_id, token, token_for}
use spiffile.KeySource.Reading.{get_key-file}

module _ (codec : Codec) (c : Crypto) (d : Disk) (id : SpiffeId) (key : c.PrivateKey)
    (source : BundleSource.FileBundleSource) where
  construct-static :
      (self : Identity c.PrivateKey)
      → construct codec c id (private_key key) source ≡ ok self
      → (kid : Text) × (key_id codec c key ≡ ok kid)
        × (record { id = id; key_source = static key kid; bundle_source = source } ≡ self)
  unfolding construct static_source
  construct-static self h =
      let (s, is_s, r1) = >>=-eq-ok (static_source codec c key) _ h in
      let (kid, is_kid, r2) = >>=-eq-ok (key_id codec c key) _ is_s in
      (
        kid,
        is_kid,
        ap (λ x. record { id = id; key_source = x; bundle_source = source }) (ok-inj r2)
            ∙ ok-inj r1,
      )
    where
      ok-inj : {A : Type 0} {x y : A} → ok x ≡ ok y → x ≡ y
      ok-inj e = cc

  -- What `token` returns or raises does not depend on where the key comes from: an identity that is
  -- constructed with a private key does as one whose key file, not read yet, has a PEM text of that
  -- key.
  pub token-construct :
      (self read_self : Identity c.PrivateKey) (p : FilePath) (here : Location) (f : File)
      (audience : Audience) (now ttl : ℤ)
      → construct codec c id (private_key key) source ≡ ok self
      → construct codec c id (key_file_source (file_source p)) source ≡ ok read_self
      → locate d p ≡ ok here
      → node_at d here ≡ some (file f)
      → c.load_pem f.bytes ≡ ok (ec key)
      → (token codec c d d now self audience ttl).0
        ≡ (token codec c d d now read_self audience ttl).0
  unfolding token token_for get_key construct
  token-construct self read_self p here f audience now ttl given reads at_p is_file loads =
      let (kid, is_kid, same) = construct-static self given in
      let from_p : (get_key codec c d d (from_file (file_source p))).0 ≡ ok (key, kid) =
        get_key-file codec c d p here f key kid at_p is_file loads is_kid in
      let same' : record { id = id; key_source = from_file (file_source p); bundle_source = source }
          ≡ read_self =
        ok-inj reads in
      rw (← same, ← same')
        (elim (Result-cases (audience_id audience)) [
          | inl (a, e) ↦ rw (e, from_p) refl
          | inr (x, e) ↦ rw e refl
        ])
    where
      ok-inj : {A : Type 0} {x y : A} → ok x ≡ ok y → x ≡ y
      ok-inj e = cc
