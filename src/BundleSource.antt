-- ===== src/BundleSource.antt =====
-- python/src/spiffile/bundle.py, the class `FileBundleSource`: a bundle file, read again when its
-- modification time or its size has changed.
pub mod Fresh
use spiffile.Prelude.{Option, none, some, if◌then◌else◌}
use spiffile.Prelude.Value.{Value}
use spiffile.Codec.{Codec}
use spiffile.Disk.{Bytes, FilePath, Stat, stat_eq, Disk, stat, read_bytes}
use spiffile.Errors.{
  Exn, invalid_bundle, unreadable, os_error, file_not_found, unicode_error, Result, ok, raise,
  from_option, ◌>>=◌,
}
use spiffile.Bundle.{Bundle, from_dict}

pub record FileBundleSource : Type 0 where
  pub path : FilePath
  pub stat : Option Stat
  pub bundle : Option Bundle

-- `FileBundleSource(path)`
abbrev pub source : FilePath → FileBundleSource
source path = record { path = path; stat = none; bundle = none }

-- `except (OSError, json.JSONDecodeError)`: a failure to decode the bytes is neither.
unfoldable pub as_bundle_error : Exn → Exn
as_bundle_error os_error = invalid_bundle unreadable
as_bundle_error file_not_found = invalid_bundle unreadable
as_bundle_error e = e

unfoldable pub read_or_raise : Result Bytes → Result Bytes
unfolding as_bundle_error
read_or_raise (ok bytes) = ok bytes
read_or_raise (raise e) = raise (as_bundle_error e)

-- The bundle that the cache has for a file with this stat.
unfoldable pub cached : Option Bundle → Option Stat → Stat → Option Bundle
cached (some b) (some old) current = if stat_eq current old then some b else none
cached _ _ current = none

module _ (c : Codec) where
  -- `Bundle.from_dict(json.loads(path.read_text()))`, with the handler around it.
  unfoldable pub load : Disk → FilePath → Result Bundle
  unfolding read_or_raise
  load d p = do
    bytes ← read_or_raise (read_bytes d p)
    text ← from_option (c.decode bytes) unicode_error
    doc ← from_option (c.loads text) (invalid_bundle unreadable)
    from_dict doc

  -- The assignments after a load that has returned.
  unfoldable pub keep : FileBundleSource → Stat → Result Bundle → Result Bundle × FileBundleSource
  keep s current (ok b) = (ok b, record s { stat = some current; bundle = some b })
  keep s current (raise e) = (raise e, s)

  unfoldable pub refresh :
      FileBundleSource → Disk → Stat → Option Bundle → Result Bundle × FileBundleSource
  unfolding keep load
  refresh s at_read current (some b) = (ok b, s)
  refresh s at_read current none = keep s current (load at_read s.path)

  unfoldable pub get_at : FileBundleSource → Disk → Result Stat → Result Bundle × FileBundleSource
  unfolding refresh cached
  get_at s at_read (raise e) = (raise e, s)
  get_at s at_read (ok current) = refresh s at_read current (cached s.bundle s.stat current)

  -- `get`, on the disk as it is at `os.stat` and as it is when the file is read.
  unfoldable pub get : Disk → Disk → FileBundleSource → Result Bundle × FileBundleSource
  unfolding get_at
  get at_stat at_read s = get_at s at_read (stat at_stat s.path)
