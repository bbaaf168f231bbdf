-- ===== src/Provision/Writes.antt =====
-- The files that python/src/spiffile/provision.py writes.
use spiffile.Prelude.{ℕ, Text, false, List, ◌∷◌, ◌≡◌, refl, ◌∙◌, text_Eq, text_eq}
use spiffile.Codec.{Codec}
use spiffile.Crypto.{Crypto}
use spiffile.Disk.{FilePath, File, Node, file, Location, location_eq, Disk, node_at, locate}
use spiffile.Disk.Action.{Host, put, >>=-ok}
use spiffile.Disk.Effects.{Writable, written, write_bytes-Writable, chmod-file, node_at-put_self}
use spiffile.Errors.{ok}
use spiffile.Provision.{bundle_filename, id_filename, key_filename}
use spiffile.Provision.Operations.{write_key}

-- The names differ, so the files do.
pub key-ne-id : (s t : Location) → location_eq (key_filename ∷ s) (id_filename ∷ t) ≡ false
unfolding location_eq text_eq
key-ne-id s t = refl

pub key-ne-bundle : (s t : Location) → location_eq (key_filename ∷ s) (bundle_filename ∷ t) ≡ false
unfolding location_eq text_eq
key-ne-bundle s t = refl

pub id-ne-bundle : (s t : Location) → location_eq (id_filename ∷ s) (bundle_filename ∷ t) ≡ false
unfolding location_eq text_eq
id-ne-bundle s t = refl

pub bundle-ne-key : (s t : Location) → location_eq (bundle_filename ∷ s) (key_filename ∷ t) ≡ false
unfolding location_eq text_eq
bundle-ne-key s t = refl

pub bundle-ne-id : (s t : Location) → location_eq (bundle_filename ∷ s) (id_filename ∷ t) ≡ false
unfolding location_eq text_eq
bundle-ne-id s t = refl

pub id-ne-key : (s t : Location) → location_eq (id_filename ∷ s) (key_filename ∷ t) ≡ false
unfolding location_eq text_eq
id-ne-key s t = refl

pub cwd-put : (here : Location) (n : Node) (d : Disk) → (put here n d).cwd ≡ d.cwd
unfolding put
cwd-put here n d = refl

-- The key file as `write_key` leaves it.
abbrev pub key_file_of : Host → List ℕ → File
key_file_of host pem = record { bytes = pem; mtime = host.mtime; mode = 0o600 }

-- `write_bytes` followed by `chmod(0o600)`.
pub write_key-lem :
    (codec : Codec) (c : Crypto) (host : Host) (d : Disk) (p : FilePath) (key : c.PrivateKey)
    (name : Text) (above : Location)
    → ((d' : Disk) → d'.cwd ≡ d.cwd → locate d' p ≡ ok (name ∷ above))
    → Writable d name above
    → write_key codec c host p key d ≡ (
      ok tt,
      put
          (name ∷ above)
          (file (key_file_of host (c.to_pem key)))
          (put (name ∷ above) (file (written host (c.to_pem key) (node_at d (name ∷ above)))) d),
    )
unfolding write_key
write_key-lem codec c host d p key name above at_p w =
    let f = written host (c.to_pem key) (node_at d (name ∷ above)) in
    >>=-ok _ _ d (write_bytes-Writable host d p name above (at_p d refl) (c.to_pem key) w)
    ∙ chmod-file host (put (name ∷ above) (file f) d) p name above
        (at_p _ (cwd-put (name ∷ above) (file f) d)) 0o600 f
        (node_at-put_self d name above (file f))
