-- ===== src/Provision/Stored.antt =====
-- The bundle file of a provisioned root: what `_write_bundle` writes, `_read_bundle` reads
-- (python/src/spiffile/provision.py).
use spiffile.Prelude.{
  Text, Option, none, some, List, [], ◌∷◌, ◌++◌, ◌≡◌, refl, sym, ◌∙◌, arith, text_Eq, Bool-cases,
  text_eq, inl, inr,
}
use spiffile.Prelude.Dict.{Dict, insert, erase, insert-NodupKeys, erase-NodupKeys}
use spiffile.Prelude.Value.{Value}
use spiffile.Codec.{Codec}
use spiffile.Disk.{
  FilePath, Stat, File, Node, folder, file, Location, Disk, node_at, node, stat, read_bytes, ◌//◌,
  locate,
}
use spiffile.Errors.{
  invalid_bundle, unreadable, unicode_error, Result, ok, raise, from_option, >>=-eq-ok, ◌>>=◌,
}
use spiffile.Bundle.{Bundle, from_dict, to_dict}
use spiffile.Bundle.RoundTrip.{
  IsBinding, IsWellFormed, AllBindings, insert-AllBindings, from_dict-to_dict,
  from_dict-IsWellFormed,
}
use spiffile.BundleSource
use spiffile.BundleSource.{get, get_at, refresh, keep, cached, load, read_or_raise}
use spiffile.Provision.{bundle_filename}

abbrev pub bundle_text : Codec → Bundle → Text
bundle_text codec b = codec.dumps (to_dict b) ++ b'\n' ∷ []

-- The document of the bundle survives the text file and the JSON module.
pub record Stores (codec : Codec) (b : Bundle) : Type 0 where
  pub decodes : codec.decode (codec.encode (bundle_text codec b)) ≡ some (bundle_text codec b)
  pub loads_text : codec.loads (bundle_text codec b) ≡ some (to_dict b)

-- What a new source of the bundle file answers.
abbrev pub current : Codec → Disk → FilePath → Result Bundle
current codec d root = (get codec d d (BundleSource.source (root // bundle_filename))).0

module _ (codec : Codec) (d : Disk) (p : FilePath) where
  keep_answer : (st : Stat) (r : Result Bundle) → (keep codec (BundleSource.source p) st r).0 ≡ r
  unfolding keep
  keep_answer st (ok b) = refl
  keep_answer st (raise x) = refl

  get_at-load :
      (r : Result Stat) → (get_at codec (BundleSource.source p) d r).0 ≡ (do _ ← r; load codec d p)
  unfolding get_at refresh cached
  get_at-load (ok st) = keep_answer st (load codec d p)
  get_at-load (raise x) = refl

  -- A new source has nothing in its cache.
  pub get-load : (get codec d d (BundleSource.source p)).0 ≡ (do _ ← stat d p; load codec d p)
  unfolding get
  get-load = get_at-load (stat d p)

  -- A bundle that is read comes from a document.
  get-from_dict :
      (b : Bundle)
      → (get codec d d (BundleSource.source p)).0 ≡ ok b
      → (doc : Value) × (from_dict doc ≡ ok b)
  unfolding load
  get-from_dict b h =
      let (st, _, h1) = >>=-eq-ok (stat d p) _ (sym get-load ∙ h) in
      let (bytes, _, h2) = >>=-eq-ok (read_or_raise (read_bytes d p)) _ h1 in
      let (text, _, h3) = >>=-eq-ok (from_option (codec.decode bytes) unicode_error) _ h2 in
      let (doc, _, h4) =
        >>=-eq-ok (from_option (codec.loads text) (invalid_bundle unreadable)) _ h3 in
      (doc, h4)

  pub get-IsWellFormed :
      (b : Bundle) → (get codec d d (BundleSource.source p)).0 ≡ ok b → IsWellFormed b
  get-IsWellFormed b h = let (doc, e) = get-from_dict b h in from_dict-IsWellFormed doc b e

  module _ (here : Location) (at_p : locate d p ≡ ok here) where
    pub get-stored :
        (f : File) (b : Bundle)
        → node_at d here ≡ some (file f)
        → f.bytes ≡ codec.encode (bundle_text codec b)
        → Stores codec b
        → IsWellFormed b
        → (get codec d d (BundleSource.source p)).0 ≡ ok b
    get-stored f b e bytes s w =
        get-load
        ∙ unfold load stat read_bytes node read_or_raise in
          rw (at_p, e, bytes, s.decodes, s.loads_text) (from_dict-to_dict b w)

    pub get-file :
        (b : Bundle)
        → (get codec d d (BundleSource.source p)).0 ≡ ok b
        → (f : File) × (node_at d here ≡ some (file f))
    unfolding stat node load read_bytes read_or_raise
    get-file b h = found (node_at d here) refl (sym get-load ∙ h)
      where
        found :
            (o : Option Node)
            → node_at d here ≡ o
            → (do _ ← stat d p; load codec d p) ≡ ok b
            → (f : File) × (o ≡ some (file f))
        found none e h' = absurd (let x = rw (at_p, e) at h' in ground arith)
        found (some (folder s)) e h' = absurd (let x = rw (at_p, e) at h' in ground arith)
        found (some (file f)) e h' = (f, refl)

-- One more binding, and one less.
pub insert-IsWellFormed :
    (b : Bundle) (k : Text) (keys : List Value)
    → IsWellFormed b
    → IsBinding b.trust_domain k keys
    → IsWellFormed (record b { identities = insert k keys b.identities })
insert-IsWellFormed b k keys w h = record {
  nodup = insert-NodupKeys k keys b.identities w.nodup;
  each = insert-AllBindings b.trust_domain k keys b.identities h w.each;
}

erase-AllBindings :
    (td : Value) (k : Text) (d : Dict Text (List Value))
    → AllBindings td d
    → AllBindings td (erase k d)
unfolding erase
erase-AllBindings td k [] h = tt
erase-AllBindings td k ((j, keys) ∷ d) (h, hs) = elim (Bool-cases (text_eq j k)) [
  | inl e ↦ rw e (erase-AllBindings td k d hs)
  | inr e ↦ rw e (h, erase-AllBindings td k d hs)
]

pub erase-IsWellFormed :
    (b : Bundle) (k : Text)
    → IsWellFormed b
    → IsWellFormed (record b { identities = erase k b.identities })
erase-IsWellFormed b k w = record {
  nodup = erase-NodupKeys k b.identities w.nodup;
  each = erase-AllBindings b.trust_domain k b.identities w.each;
}
