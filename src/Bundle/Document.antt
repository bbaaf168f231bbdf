-- ===== src/Bundle/Document.antt =====
-- `Bundle.from_dict` and `Bundle.to_dict` (python/src/spiffile/bundle.py) on whole documents.
use spiffile.Prelude.{
  Text, codes, true, ◌↔◌, ◌⊎◌, inl, inr, Option, none, some, List, [], ◌≡◌, ◌≢◌, refl, arith,
  text_Eq, Bool-cases,
}
use spiffile.Prelude.Int.{pos, negsuc}
use spiffile.Prelude.Dict.{lookup, NodupKeys}
use spiffile.Prelude.Value.{Value, obj, bool, float, int, Fields, entries, get}
use spiffile.Errors.{
  Exn, Result, ok, raise, ◌>>=◌, invalid_bundle, missing_member, unsupported_version,
  attribute_error,
}
use spiffile.Bundle.{
  Bundle, is_version_one, read_entries, items_method, member, from_dict, keys_for,
}
use spiffile.Bundle.Entries.{Binds, lookup-read_entries_iff}

-- What Python finds equal to 1: the number, as an int or as a float, and `True`.
abbrev pub IsOne : Value → Type 0
IsOne version =
    (version ≡ int (pos 1)) ⊎ (version ≡ bool true) ⊎ (version ≡ float 0x3ff0000000000000)

is_version_one_iff : (v : Value) → (is_version_one v ≡ true) ↔ IsOne v
unfolding is_version_one
is_version_one_iff (int (pos n)) = ground arith
is_version_one_iff (int (negsuc n)) = ground arith
is_version_one_iff (bool b) = ground arith
is_version_one_iff (float bits) = ground arith
is_version_one_iff _ = ground arith

-- The document has the three members, a version that equals 1, and a dict of identities.
pub record IsDocument (doc trust_domain : Value) (identities : Fields) : Type 0 where
  pub members : Fields
  pub version : Value
  pub is_dict : doc ≡ obj members
  pub has_domain : get (codes "trust_domain") members ≡ some trust_domain
  pub has_version : get (codes "spiffile_version") members ≡ some version
  pub has_identities : get (codes "identities") members ≡ some (obj identities)
  pub supported : IsOne version

pub from_dict-IsDocument :
    (doc trust_domain : Value) (identities : Fields)
    → IsDocument doc trust_domain identities
    → from_dict doc
      ≡ ok (record {
        trust_domain = trust_domain;
        identities = read_entries trust_domain (entries identities) [];
      })
unfolding from_dict member items_method
from_dict-IsDocument doc trust_domain identities d = ground (arith, is_version_one_iff d.version)

-- A document is read whatever its entries are. In the bundle, an identity has exactly the keys of
-- the entry under its own name, if that entry names an ID of the trust domain and holds a set of
-- keys that is not empty, and it is unknown if not: no other entry has a say.
pub keys_for-from_dict :
    (doc trust_domain : Value) (identities : Fields) (k : Text) (keys : List Value)
    → IsDocument doc trust_domain identities
    → NodupKeys (entries identities)
    → (b : Bundle) × (from_dict doc ≡ ok b)
      × (b.trust_domain ≡ trust_domain)
      × ((keys_for b k ≡ ok keys) ↔ (
          (jwks : Value) × (lookup k (entries identities) ≡ some jwks)
          × Binds trust_domain k jwks keys))
unfolding keys_for lookup
keys_for-from_dict doc trust_domain identities k keys d u =
    let exact = lookup-read_entries_iff trust_domain k (entries identities) keys u in
    (
      record {
        trust_domain = trust_domain;
        identities = read_entries trust_domain (entries identities) [];
      },
      from_dict-IsDocument doc trust_domain identities d,
      refl,
      (λ h. exact.0 (ground arith), λ h. rw (exact.1 h) refl),
    )

-- Why a document is refused: with `InvalidBundleError`, or, where `identities` has no `items`, with
-- Python's own `AttributeError`.
pub data IsRefused (doc : Value) : Exn → Type 0 where
  no_dict :
      {e : Exn}
      → e ≡ invalid_bundle missing_member
      → ((fs : Fields) → doc ≢ obj fs)
      → IsRefused doc e
  lacks :
      {e : Exn} (fs : Fields) (key : Text)
      → e ≡ invalid_bundle missing_member
      → doc ≡ obj fs
      → (key ≡ codes "trust_domain") ⊎ (key ≡ codes "spiffile_version") ⊎ (key ≡ codes "identities")
      → get key fs ≡ none
      → IsRefused doc e
  other_version :
      {e : Exn} (fs : Fields) (version : Value)
      → e ≡ invalid_bundle unsupported_version
      → doc ≡ obj fs
      → get (codes "spiffile_version") fs ≡ some version
      → ¬ IsOne version
      → IsRefused doc e
  no_items :
      {e : Exn} (fs : Fields) (v : Value)
      → e ≡ attribute_error
      → doc ≡ obj fs
      → get (codes "identities") fs ≡ some v
      → ((ids : Fields) → v ≢ obj ids)
      → IsRefused doc e

-- A document is read, entry by entry, or refused.
abbrev pub Reading : Value → Result Bundle → Type 0
Reading doc (ok b) =
    (ids : Fields) × IsDocument doc b.trust_domain ids
    × (b.identities ≡ read_entries b.trust_domain (entries ids) [])
Reading doc (raise e) = IsRefused doc e

from_dict-Reading_of_items :
    (fs : Fields) (td version ids : Value)
    → get (codes "trust_domain") fs ≡ some td
    → get (codes "spiffile_version") fs ≡ some version
    → get (codes "identities") fs ≡ some ids
    → is_version_one version ≡ true
    → Reading (obj fs) (
        items_method ids >>= λ items.
        ok (record { trust_domain = td; identities = read_entries td items [] }))
unfolding items_method
from_dict-Reading_of_items fs td version (obj ids) p q r one = (
  ids,
  record {
    members = fs;
    version = version;
    is_dict = refl;
    has_domain = p;
    has_version = q;
    has_identities = r;
    supported = (is_version_one_iff version).0 one;
  },
  refl,
)
from_dict-Reading_of_items fs td version ids p q r one =
    no_items fs ids refl refl r (λ fields. ground arith)

from_dict-Reading_of_obj :
    (fs : Fields) (td version ids : Option Value)
    → get (codes "trust_domain") fs ≡ td
    → get (codes "spiffile_version") fs ≡ version
    → get (codes "identities") fs ≡ ids
    → Reading (obj fs) (from_dict (obj fs))
unfolding from_dict member items_method
from_dict-Reading_of_obj fs none version ids p q r =
    rw p (lacks fs (codes "trust_domain") refl refl (inl refl) p)
from_dict-Reading_of_obj fs (some td) none ids p q r =
    rw (p, q) (lacks fs (codes "spiffile_version") refl refl (inr (inl refl)) q)
from_dict-Reading_of_obj fs (some td) (some version) none p q r =
    rw (p, q, r) (lacks fs (codes "identities") refl refl (inr (inr refl)) r)
from_dict-Reading_of_obj fs (some td) (some version) (some ids) p q r =
    elim (Bool-cases (is_version_one version)) [
      | inl one ↦ rw (p, q, r, one) (from_dict-Reading_of_items fs td version ids p q r one)
      | inr other ↦
          rw (p, q, r, other)
            (other_version fs version refl refl q (λ h. ground (arith, is_version_one_iff version)))
    ]

-- Every document is read, or is refused for a reason that the document shows.
pub from_dict-Reading : (doc : Value) → Reading doc (from_dict doc)
unfolding from_dict member
from_dict-Reading (obj fs) = from_dict-Reading_of_obj fs _ _ _ refl refl refl
from_dict-Reading _ = no_dict refl (λ fs. ground arith)
