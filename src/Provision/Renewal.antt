-- ===== src/Provision/Renewal.antt =====
-- A service that was removed: `remove_service` followed by `rotate_service` or `add_service`
-- (python/src/spiffile/provision.py).
use spiffile.Prelude.{Text, Bool, List, [], ◌∷◌, ◌≡◌, ap, ◌∙◌}
use spiffile.Prelude.Value.{str, obj, Fields}
use spiffile.Codec.{Codec}
use spiffile.Crypto.{Crypto}
use spiffile.Disk.{FilePath, Location, Disk}
use spiffile.Disk.Action.{Host, >>=-ok}
use spiffile.Disk.Effects.{exists-none}
use spiffile.Disk.Locate.{place}
use spiffile.Errors.{ok, raise, plain, unknown_service}
use spiffile.SpiffeId.{SpiffeId, parse}
use spiffile.Bundle.{Bundle}
use spiffile.Keys.{public_jwk}
use spiffile.Provision.Operations.{
  id_text, read_bundle, replace_key, add_service, rotate_service, remove_service,
}
use spiffile.Provision.Places.{service_at, key_place}
use spiffile.Provision.Stored.{Stores}
use spiffile.Provision.Layout.{IsRoot, Added, bound}
use spiffile.Provision.Complete.{IsComplete, Removed, unbound}
use spiffile.Provision.Add.{add_service-Added}
use spiffile.Provision.Remove.{remove_service-Removed}
use spiffile.Provision.Room.{IsReached, Removed-IsVacant}

Removed-IsRoot :
    (codec : Codec) (d d' : Disk) (root : FilePath) (td id : Text) (dir : Location) (b : Bundle)
    → IsRoot codec d root td b
    → Removed codec d d' root dir (unbound b id)
    → IsRoot codec d' root td (unbound b id)
Removed-IsRoot codec d d' root td id dir b is_root removed = record {
  direct = is_root.direct;
  has_bundle = removed.has_bundle;
  is_text = is_root.is_text;
  domain = is_root.domain;
}

module _ (codec : Codec) (c : Crypto) (host later : Host) (d : Disk) (root : FilePath) (name : Text)
    (segments : List Text) (td : Text) (b : Bundle) (id : SpiffeId) (new_key : c.PrivateKey)
    (is_root : IsRoot codec d root td b) (s : IsComplete d root name segments)
    (parsed : parse (str (id_text codec b name)) ≡ ok id) where
  -- A removed service cannot be rotated. In a root with a readable bundle, for a service that has
  -- its two files and nothing else in its folder, and whose name `parse` accepts, `remove_service`
  -- returns, if the bundle that it writes can be read back, and a call of `rotate_service` for the
  -- same name behind it raises, at whatever time and with whatever key, and leaves the disk as the
  -- first call left it.
  pub remove_service-rotate_service :
      (keep_old : Bool)
      → Stores codec (unbound b (id_text codec b name))
      → (d1 : Disk) × (remove_service codec host root name d ≡ (ok tt, d1))
        × (rotate_service codec c later root name keep_old new_key d1
            ≡ (raise (plain unknown_service), d1))
  unfolding rotate_service read_bundle replace_key id_text
  remove_service-rotate_service keep_old stores =
      let (d1, called, removed) =
        remove_service-Removed codec host d root name segments td b is_root s stores in
      (
        d1,
        called,
        >>=-ok _ _ d1 (ap (λ r. (r, d1)) removed.has_bundle)
            ∙ >>=-ok _ _ d1 (ap (λ r. (r, d1)) parsed)
            ∙ >>=-ok _ _ d1 (
                exists-none d1 _ _
                  (key_place d.cwd root name segments is_root.direct s.is_name d1
                    removed.keeps.cwd_is)
                  removed.no_key),
      )

  -- A removed service can be added again. In a root with a readable bundle, for a service whose
  -- name `parse` accepts and that has its two files and nothing else in its folder, where all
  -- folders on the way to it are there, `remove_service` returns, and a call of `add_service` for
  -- the same name behind it returns the ID, if the bundles that the two write can be read back and
  -- the new key has a public JWK. The new key is then the only one that the bundle binds to the ID,
  -- the other IDs have the keys that they had at first, the key file holds the PEM of the new key
  -- with the mode 0600, and whatever else was on the disk between the two calls is as it was.
  pub remove_service-add_service :
      (jwk : Fields)
      → IsReached d (service_at (place d.cwd root) segments)
      → public_jwk codec c new_key ≡ ok jwk
      → Stores codec (unbound b (id_text codec b name))
      → Stores codec (bound (unbound b (id_text codec b name)) id (obj jwk ∷ []))
      → (d1 : Disk) × (d2 : Disk) × (remove_service codec host root name d ≡ (ok tt, d1))
        × (add_service codec c later root name new_key d1 ≡ (ok id, d2))
        × Added codec later d1 d2 root
            (service_at (place d1.cwd root) segments)
            id
            (c.to_pem new_key)
            (bound (unbound b (id_text codec b name)) id (obj jwk ∷ []))
  unfolding id_text
  remove_service-add_service jwk reached is_jwk stores stores' =
      let gone = id_text codec b name in
      let (d1, called, removed) =
        remove_service-Removed codec host d root name segments td b is_root s stores in
      let (d2, called', added) =
        add_service-Added codec c later d1 root name segments td (unbound b gone) id new_key jwk
          (Removed-IsRoot codec d d1 root td gone _ b is_root removed)
          (Removed-IsVacant codec d d1 root name segments td b _ is_root s reached removed) parsed
          is_jwk stores' in
      (d1, d2, called, called', added)
