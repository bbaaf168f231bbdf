-- ===== src/Identity/Files.antt =====
-- `Identity.from_files` and `from_env` (python/src/spiffile/identity.py) on the files that
-- python/src/spiffile/provision.py writes.
use spiffile.Prelude.{Text, List, [], ◌∷◌, ◌++◌, ◌≡◌, ◌≢◌, refl, arith, All, join_behind, is_space}
use spiffile.Prelude.Stripping.{Bare, graphic-Bare, All-append, strip-newline}
use spiffile.Prelude.Value.{str}
use spiffile.Codec.{Codec, ReadsBack}
use spiffile.Disk.{FilePath, Disk, read_bytes}
use spiffile.Errors.{ok}
use spiffile.SpiffeId.{SpiffeId, to_str, scheme}
use spiffile.SpiffeId.Grammar.{IsValid, IsTrustDomainChar, IsSegmentChar, IsSegment}
use spiffile.SpiffeId.Parsing.{parse_iff}
use spiffile.BundleSource
use spiffile.KeySource.{from_file, file_source}
use spiffile.Identity.Loading.{read_text, from_files}

IsTrustDomainChar-Bare : (s : Text) → All IsTrustDomainChar s → All Bare s
IsTrustDomainChar-Bare [] h = tt
IsTrustDomainChar-Bare (c ∷ s) (h, hs) =
    (graphic-Bare c (ground arith) (ground arith), IsTrustDomainChar-Bare s hs)

IsSegmentChar-Bare : (s : Text) → All IsSegmentChar s → All Bare s
IsSegmentChar-Bare [] h = tt
IsSegmentChar-Bare (c ∷ s) (h, hs) =
    (graphic-Bare c (ground arith) (ground arith), IsSegmentChar-Bare s hs)

join_behind-Bare : (ss : List Text) → All IsSegment ss → All Bare (join_behind b'/' ss)
join_behind-Bare [] h = tt
join_behind-Bare (s ∷ ss) (h, hs) = (
  graphic-Bare b'/' (omega arith) (omega arith),
  All-append Bare s (join_behind b'/' ss) (IsSegmentChar-Bare s h.chars) (join_behind-Bare ss hs),
)

scheme-Bare : All Bare scheme
unfolding is_space
scheme-Bare = (refl, (refl, (refl, (refl, (refl, (refl, (refl, (refl, (refl, tt)))))))))

to_str-Bare : (id : SpiffeId) → IsValid id → All Bare (to_str id)
unfolding to_str
to_str-Bare id valid = All-append Bare scheme (id.trust_domain ++ id.path) scheme-Bare (
    All-append Bare id.trust_domain id.path
      (IsTrustDomainChar-Bare id.trust_domain valid.domain.chars)
      (rw valid.path_is (join_behind-Bare valid.segments valid.each)))

to_str-nonempty : (id : SpiffeId) → to_str id ≢ []
unfolding to_str
to_str-nonempty id e = ground arith

-- An ID that is written to the file as `add_service` writes it, followed by a newline, is the ID of
-- the identity that `from_files` returns, which has read neither the key nor the bundle.
pub from_files-written :
    (codec : Codec) {K : Type 0} (d : Disk) (id_file key_file bundle_file : FilePath)
    (id : SpiffeId)
    → ReadsBack codec
    → IsValid id
    → read_bytes d id_file ≡ ok (codec.encode (to_str id ++ b'\n' ∷ []))
    → from_files codec {K = K} d id_file key_file bundle_file
      ≡ ok (record {
        id = id;
        key_source = from_file (file_source key_file);
        bundle_source = BundleSource.source bundle_file;
      })
unfolding from_files read_text
from_files-written codec d id_file key_file bundle_file id back valid written =
    rw
      (
        written,
        back.decode-encode (to_str id ++ b'\n' ∷ []),
        strip-newline (to_str id) (to_str-nonempty id) (to_str-Bare id valid),
        (parse_iff (str (to_str id)) id).1 (refl, valid),
      )
      refl
