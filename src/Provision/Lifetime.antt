-- ===== src/Provision/Lifetime.antt =====
-- The life of a provisioned root (python/src/spiffile/provision.py): runs of `add_service`,
-- `rotate_service` and `remove_service` for the services of a trust domain, one after the other.
use spiffile.Prelude.{Text, Option, List, [], ◌∷◌, ◌≡◌, ◌≢◌, refl, ap, ◌∙◌, text_Eq, All}
use spiffile.Prelude.Int.{ℤ}
use spiffile.Prelude.Dict.{lookup}
use spiffile.Codec.{Codec}
use spiffile.Crypto.{Crypto}
use spiffile.Disk.{FilePath, Disk, ◌//◌}
use spiffile.Errors.{ok}
use spiffile.SpiffeId.{to_str}
use spiffile.Bundle.{Bundle, keys_for}
use spiffile.BundleSource
use spiffile.Identity.{
  Identity, Audience, Claimed, read_claims, verify_with, verify_claimed, verify,
}
use spiffile.Provision.{bundle_filename}
use spiffile.Provision.Layout.{IsRoot}
use spiffile.Provision.Registry.{registry, apply_ne}
use spiffile.Provision.Runs.{Step, Run, done, after, event, event-id_of, Step-Becomes}

-- The root has a bundle, which binds the same keys to all IDs but these.
pub record Differs (codec : Codec) (d' : Disk) (root : FilePath) (td : Text) (ids : List Text)
    (b : Bundle) : Type 0 where
  pub after_bundle : Bundle
  pub is_root : IsRoot codec d' root td after_bundle
  pub same_keys :
      (id : Text)
      → All (λ changed. changed ≢ id) ids
      → lookup id after_bundle.identities ≡ lookup id b.identities

module _ (codec : Codec) (c : Crypto) (root : FilePath) (td : Text) where
  Step-Differs :
      (spiffe_id : Text) (d d' : Disk) (b : Bundle)
      → IsRoot codec d root td b
      → Step codec c root td spiffe_id d d'
      → Differs codec d' root td (spiffe_id ∷ []) b
  Step-Differs spiffe_id d d' b r step =
      let next = Step-Becomes codec c root td spiffe_id d d' b r step in
      record {
        after_bundle = next.after_bundle;
        is_root = next.is_root;
        same_keys = λ i (ne, _).
            ap (λ x. x i) next.is_registry
            ∙ apply_ne (event codec c root td step) (registry b) i
                (λ e. ne (event-id_of codec c root td step ∙ e));
      }

  -- What a run leaves as it was.
  Run-Differs :
      (ids : List Text) (d d' : Disk) (b : Bundle)
      → IsRoot codec d root td b
      → Run codec c root td ids d d'
      → Differs codec d' root td ids b
  Run-Differs [] d d' b r done = record { after_bundle = b; is_root = r; same_keys = λ i h. refl }
  Run-Differs (spiffe_id ∷ ids) d d' b r (after {d1 = d1} step run) =
      let first = Step-Differs spiffe_id d d1 b r step in
      let rest = Run-Differs ids d1 d' first.after_bundle first.is_root run in
      record {
        after_bundle = rest.after_bundle;
        is_root = rest.is_root;
        same_keys = λ i (h, hs). rest.same_keys i hs ∙ first.same_keys i (h, tt);
      }

module _ (codec : Codec) (c : Crypto) (verifier : Identity c.PrivateKey) (token : c.Token)
    (audience : Option Audience) (leeway now : ℤ) (claimed : Claimed)
    (reads : read_claims c token ≡ ok claimed) where
  -- `verify` asks the bundle for the keys of the claimed ID alone.
  verify-keys_for :
      (d d' : Disk) (b b' : Bundle)
      → (BundleSource.get codec d d verifier.bundle_source).0 ≡ ok b
      → (BundleSource.get codec d' d' verifier.bundle_source).0 ≡ ok b'
      → lookup (to_str claimed.id) b'.identities ≡ lookup (to_str claimed.id) b.identities
      → (verify codec c d' d' now verifier token audience leeway).0
        ≡ (verify codec c d d now verifier token audience leeway).0
  unfolding verify verify_claimed verify_with keys_for
  verify-keys_for d d' b b' got got' same = rw (reads, got, got', same) refl

  -- What `verify` makes of a token does not change with calls for other services. Take a root with
  -- a readable bundle, and any run of calls of `add_service` for new services, of `rotate_service`
  -- for services with a key file and of `remove_service` for services with their two files alone in
  -- their folder, each of which returns and writes a bundle that can be read back, and of calls of
  -- the three that leave the disk as it is. For an identity that reads the bundle of the root, the
  -- result or the error for a token with readable claims is the same before and after, if no call
  -- was made for the ID that it claims.
  pub Run-verify :
      (root : FilePath) (td : Text) (ids : List Text) (d d' : Disk) (b : Bundle)
      → verifier.bundle_source ≡ BundleSource.source (root // bundle_filename)
      → IsRoot codec d root td b
      → Run codec c root td ids d d'
      → All (λ changed. changed ≢ to_str claimed.id) ids
      → (verify codec c d' d' now verifier token audience leeway).0
        ≡ (verify codec c d d now verifier token audience leeway).0
  Run-verify root td ids d d' b is_source r run others =
      let end = Run-Differs codec c root td ids d d' b r run in
      verify-keys_for d d' b end.after_bundle
        (ap (λ s. (BundleSource.get codec d d s).0) is_source ∙ r.has_bundle)
        (ap (λ s. (BundleSource.get codec d' d' s).0) is_source ∙ end.is_root.has_bundle)
        (end.same_keys (to_str claimed.id) others)
