-- ===== src/Provision/Again.antt =====
-- `add_service` of python/src/spiffile/provision.py, for a service that has a key.
use spiffile.Prelude.{Text, some, List, [], ◌∷◌, ◌≡◌, refl, sym, ap, ◌∙◌, text_Eq}
use spiffile.Prelude.Value.{str, obj, Fields}
use spiffile.Codec.{Codec}
use spiffile.Crypto.{Crypto}
use spiffile.Disk.{FilePath, Node, file, Disk, node_at}
use spiffile.Disk.Action.{Host, ◌>>◌, >>=-ok}
use spiffile.Disk.Effects.{exists-some}
use spiffile.Disk.Locate.{place}
use spiffile.Errors.{ok}
use spiffile.SpiffeId.{SpiffeId, parse}
use spiffile.Bundle.{Bundle}
use spiffile.Keys.{public_jwk}
use spiffile.Provision.{key_filename}
use spiffile.Provision.Operations.{read_bundle, id_text, register, add_service}
use spiffile.Provision.Places.{IsName, service_at, key_place}
use spiffile.Provision.Stored.{Stores}
use spiffile.Provision.Writes.{key_file_of}
use spiffile.Provision.Layout.{IsRoot, IsVacant, bound}
use spiffile.Provision.Add.{add_service-Added}

-- A service that has a key file keeps it.
add_service-present :
    (codec : Codec) (c : Crypto) (host : Host) (d : Disk) (root : FilePath) (name : Text)
    (segments : List Text) (td : Text) (b : Bundle) (id : SpiffeId) (new_key : c.PrivateKey)
    (n : Node)
    → IsRoot codec d root td b
    → IsName name segments
    → parse (str (id_text codec b name)) ≡ ok id
    → node_at d (key_filename ∷ service_at (place d.cwd root) segments) ≡ some n
    → add_service codec c host root name new_key d ≡ (ok id, d)
unfolding add_service read_bundle register
add_service-present codec c host d root name segments td b id new_key n is_root is_name parsed
      present =
    >>=-ok _ _ d (ap (λ r. (r, d)) is_root.has_bundle)
    ∙ >>=-ok _ _ d (ap (λ r. (r, d)) parsed)
    ∙ >>=-ok _ _ d (
        exists-some d _ _ (key_place d.cwd root name segments is_root.direct is_name d refl) n
          present)

-- After a call of `add_service` for a new service in a root with a readable bundle, a second call,
-- with whatever key and at whatever time, returns the same ID and changes nothing on the disk that
-- the first call has left, if the bundle that this has written can be read back.
pub add_service-again :
    (codec : Codec) (c : Crypto) (host later : Host) (d : Disk) (root : FilePath) (name : Text)
    (segments : List Text) (td : Text) (b : Bundle) (id : SpiffeId)
    (new_key other_key : c.PrivateKey) (jwk : Fields)
    → IsRoot codec d root td b
    → IsVacant d root name segments
    → parse (str (id_text codec b name)) ≡ ok id
    → public_jwk codec c new_key ≡ ok jwk
    → Stores codec (bound b id (obj jwk ∷ []))
    → (do add_service codec c host root name new_key; add_service codec c later root name other_key)
        d
      ≡ add_service codec c host root name new_key d
add_service-again codec c host later d root name segments td b id new_key other_key jwk is_root
      vacant parsed is_jwk stores =
    let (d', called, added) =
      add_service-Added codec c host d root name segments td b id new_key jwk is_root vacant parsed
        is_jwk stores in
    >>=-ok _ _ d called
    ∙ add_service-present codec c later d' root name segments td (bound b id (obj jwk ∷ [])) id
        other_key (file (key_file_of host (c.to_pem new_key)))
        (record {
          direct = is_root.direct;
          has_bundle = added.has_bundle;
          is_text = is_root.is_text;
          domain = is_root.domain;
        })
        vacant.is_name (unfold id_text in parsed) (rw (added.keeps.cwd_is) added.has_key)
    ∙ sym called
