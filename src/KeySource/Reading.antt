-- ===== src/KeySource/Reading.antt =====
-- A key file that is read for the first time (python/src/spiffile/identity.py, `_FileKeySource`).
use spiffile.Prelude.{Text, some, ◌≡◌, refl, text_Eq}
use spiffile.Codec.{Codec}
use spiffile.Crypto.{Crypto, ec}
use spiffile.Disk.{
  FilePath, File, file, Location, Disk, node_at, node, node_stat, stat, read_bytes, locate,
}
use spiffile.Errors.{ok}
use spiffile.Keys.{key_id, private_key_from_pem}
use spiffile.KeySource.{
  from_file, file_source, get_key, get_file, get_file_at, refresh_key, cached_key, load_key,
  set_key, set_kid,
}

-- A new source reads the key that the file holds.
pub get_key-file :
    (codec : Codec) (c : Crypto) (d : Disk) (p : FilePath) (here : Location) (f : File)
    (key : c.PrivateKey) (kid : Text)
    → locate d p ≡ ok here
    → node_at d here ≡ some (file f)
    → c.load_pem f.bytes ≡ ok (ec key)
    → key_id codec c key ≡ ok kid
    → (get_key codec c d d (from_file (file_source p))).0 ≡ ok (key, kid)
unfolding get_key get_file get_file_at refresh_key cached_key load_key set_key set_kid
    private_key_from_pem
get_key-file codec c d p here f key kid at_p is_file loads is_kid =
    let is_stat : stat d p ≡ ok (node_stat (file f)) =
      unfold stat node in rw (at_p, is_file) refl in
    let is_read : read_bytes d p ≡ ok f.bytes = unfold read_bytes node in rw (at_p, is_file) refl in
    rw is_stat (rw is_read (rw loads (rw is_kid refl)))
