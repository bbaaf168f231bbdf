-- ===== src/Bundle.antt =====
-- python/src/spiffile/bundle.py, the class `Bundle`: the trust bundle and its JSON document.
pub mod Entries
pub mod Document
pub mod RoundTrip
use spiffile.Prelude.{
  Text, codes, Bool, true, false, ◌&&◌, Option, none, some, List, [], ◌∷◌, text_eq, text_Eq, nat_eq,
  if◌then◌else◌,
}
use spiffile.Prelude.Int.{pos, negsuc}
use spiffile.Prelude.Dict.{Dict, lookup, insert}
use spiffile.Prelude.Value.{
  Value, null, bool, int, float, str, arr, obj, Fields, end, field, elements, items_of, entries,
  get,
}
use spiffile.Errors.{
  Exn, invalid_bundle, invalid_spiffe_id, IdFault, missing_member, unsupported_version,
  unknown_identity, attribute_error, Result, ok, raise, require, from_option, ◌>>=◌, ◌>>◌,
}
use spiffile.SpiffeId.{SpiffeId, parse, to_str}

-- `trust_domain` is whatever JSON value the document has: nothing checks that it is a text.
pub record Bundle : Type 0 where
  pub trust_domain : Value
  pub identities : Dict Text (List Value)

-- `version == BUNDLE_VERSION`, that is `== 1`: so are `true` and the float 1.0.
unfoldable pub is_version_one : Value → Bool
is_version_one (int (pos n)) = nat_eq n 1
is_version_one (bool b) = b
is_version_one (float bits) = nat_eq bits 0x3ff0000000000000
is_version_one _ = false

-- `v == t` for a text `t`
unfoldable pub is_text : Value → Text → Bool
is_text (str s) t = text_eq s t
is_text _ t = false

-- The `keys` of an entry, empty where the entry is no dict or has no list of them.
abbrev pub elements_if_list : Option Value → List Value
elements_if_list (some (arr keys)) = elements keys
elements_if_list _ = []

unfoldable pub keys_member : Value → List Value
keys_member (obj jwks) = elements_if_list (get (codes "keys") jwks)
keys_member _ = []

-- Why an entry is skipped: the three warnings.
pub data Skip : Type 0 where
  invalid_id : Skip
  other_domain no_keys : Skip

pub data Outcome : Type 0 where
  skip : Skip → Outcome
  bind : Text → List Value → Outcome

unfoldable pub bind_keys : SpiffeId → List Value → Outcome
bind_keys id [] = skip no_keys
bind_keys id (key ∷ keys) = bind (to_str id) (key ∷ keys)

unfoldable pub read_parsed : Value → Result SpiffeId → Value → Outcome
read_parsed trust_domain (raise e) jwks = skip invalid_id
read_parsed trust_domain (ok id) jwks =
    if is_text trust_domain id.trust_domain
    then bind_keys id (keys_member jwks)
    else skip other_domain

-- The body of the loop over `identities_doc.items()`.
unfoldable pub read_entry : Value → Text → Value → Outcome
unfolding read_parsed bind_keys
read_entry trust_domain raw_id jwks = read_parsed trust_domain (parse (str raw_id)) jwks

abbrev pub store : Outcome → Dict Text (List Value) → Dict Text (List Value)
store (skip why) identities = identities
store (bind id keys) identities = insert id keys identities

-- The loop, on the identities read so far.
unfoldable pub read_entries :
    Value → Dict Text Value → Dict Text (List Value) → Dict Text (List Value)
read_entries trust_domain [] identities = identities
read_entries trust_domain ((raw_id, jwks) ∷ rest) identities =
    read_entries trust_domain rest (store (read_entry trust_domain raw_id jwks) identities)

-- `identities_doc.items()`
unfoldable pub items_method : Value → Result (Dict Text Value)
items_method (obj fs) = ok (entries fs)
items_method _ = raise attribute_error

-- `doc[key]` under the `except (KeyError, TypeError)`.
unfoldable pub member : Text → Value → Result Value
member key (obj fs) = from_option (get key fs) (invalid_bundle missing_member)
member key _ = raise (invalid_bundle missing_member)

unfoldable pub from_dict : Value → Result Bundle
from_dict doc = do
  trust_domain ← member (codes "trust_domain") doc
  version ← member (codes "spiffile_version") doc
  identities_doc ← member (codes "identities") doc
  require (is_version_one version) (invalid_bundle unsupported_version)
  items ← items_method identities_doc
  ok (record { trust_domain = trust_domain; identities = read_entries trust_domain items [] })

-- `{spiffe_id: {"keys": keys} for …}`
unfoldable pub identity_fields : Dict Text (List Value) → Fields
identity_fields [] = end
identity_fields ((id, keys) ∷ rest) =
    field id (obj (field (codes "keys") (arr (items_of keys)) end)) (identity_fields rest)

unfoldable pub to_dict : Bundle → Value
to_dict b = obj (
    field (codes "trust_domain") b.trust_domain (
      field (codes "spiffile_version") (int (pos 1))
        (field (codes "identities") (obj (identity_fields b.identities)) end)))

unfoldable pub keys_for : Bundle → Text → Result (List Value)
keys_for b id = from_option (lookup id b.identities) (unknown_identity id)
