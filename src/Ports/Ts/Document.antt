-- ===== src/Ports/Ts/Document.antt =====
-- ts/src/bundle.ts: `Bundle.fromDocument`, on what `JSON.parse` returns. An int and a float of the
-- model are both numbers there, and the characters of a string are its UTF-16 code units.
use spiffile.Prelude.{
  ℕ, suc, Text, codes, Bool, true, false, not, Option, none, some, List, [], ◌∷◌, text_eq, text_Eq,
  nat_eq, if◌then◌else◌,
}
use spiffile.Prelude.Int.{pos}
use spiffile.Prelude.Dict.{Dict, insert}
use spiffile.Prelude.Value.{
  Value, int, float, str, arr, obj, Items, nil, cons, elements, entries, get,
}
use spiffile.Errors.{
  invalid_bundle, invalid_spiffe_id, missing_member, unsupported_version, Result, ok, raise,
  require, ◌>>=◌, ◌>>◌,
}
use spiffile.SpiffeId.{SpiffeId, to_str}
use spiffile.Bundle.{Bundle}
use spiffile.Ports.Ts.{parse_units}

-- `typeof v === "object" && v !== null`
unfoldable pub is_object : Value → Bool
is_object (obj fs) = true
is_object (arr vs) = true
is_object _ = false

-- `v.key` of an object; `none` is `undefined`. An array has no member of these names but `keys`,
-- which is a function.
unfoldable pub member_of : Text → Value → Option Value
member_of key (obj fs) = get key fs
member_of key _ = none

-- `v === 1`
unfoldable pub is_one : Value → Bool
is_one (int (pos n)) = nat_eq n 1
is_one (float bits) = nat_eq bits 0x3ff0000000000000
is_one _ = false

-- `Array.isArray(keys) && keys.length > 0`
unfoldable pub keys_array : Option Value → Option (List Value)
keys_array (some (arr (cons key keys))) = some (key ∷ elements keys)
keys_array _ = none

-- `const keys = jwks && typeof jwks === "object" ? jwks.keys : undefined`
unfoldable pub keys_in : Value → Option Value
unfolding is_object member_of
keys_in jwks = if is_object jwks then member_of (codes "keys") jwks else none

unfoldable pub set_keys_array :
    SpiffeId → Option (List Value) → Dict Text (List Value) → Dict Text (List Value)
set_keys_array id none parsed = parsed
set_keys_array id (some keys) parsed = insert (to_str id) keys parsed

-- The body of the loop behind `SpiffeId.parse`; an error that is no `InvalidSpiffeIdError` is
-- thrown again.
unfoldable pub read_one :
    Text → Result SpiffeId → Value → Dict Text (List Value) → Result (Dict Text (List Value))
unfolding set_keys_array keys_array keys_in
read_one trust_domain (raise (invalid_spiffe_id fault)) jwks parsed = ok parsed
read_one trust_domain (raise e) jwks parsed = raise e
read_one trust_domain (ok id) jwks parsed =
    if not (text_eq id.trust_domain trust_domain)
    then ok parsed
    else ok (set_keys_array id (keys_array (keys_in jwks)) parsed)

unfoldable pub read_all :
    Text → Dict Text Value → Dict Text (List Value) → Result (Dict Text (List Value))
unfolding read_one
read_all trust_domain [] parsed = ok parsed
read_all trust_domain ((raw_id, jwks) ∷ rest) parsed =
    read_one trust_domain (parse_units raw_id) jwks parsed >>= read_all trust_domain rest

-- A member that is a string.
unfoldable pub text_member : Option Value → Option Text
text_member (some (str t)) = some t
text_member _ = none

-- The names and values of `Object.entries`; an array has its indices for names.
unfoldable pub indexed : (ℕ → Text) → ℕ → Items → Dict Text Value
indexed index_text i nil = []
indexed index_text i (cons v vs) = (index_text i, v) ∷ indexed index_text (suc i) vs

unfoldable pub object_entries : (ℕ → Text) → Value → Dict Text Value
unfolding indexed
object_entries index_text (obj fs) = entries fs
object_entries index_text (arr vs) = indexed index_text 0 vs
object_entries index_text _ = []

-- The three members, once none is `undefined` and the others are of their types.
unfoldable pub from_members : (ℕ → Text) → Option Text → Option Value → Option Value → Result Bundle
unfolding is_object is_one object_entries read_all
from_members index_text (some trust_domain) (some version) (some identities) = do
  require (is_object identities) (invalid_bundle missing_member)
  require (is_one version) (invalid_bundle unsupported_version)
  parsed ← read_all trust_domain (object_entries index_text identities) []
  ok (record { trust_domain = str trust_domain; identities = parsed })
from_members index_text _ _ _ = raise (invalid_bundle missing_member)

-- `Bundle.fromDocument`; `index_text` gives the name of an index of an array.
unfoldable pub from_document : (ℕ → Text) → Value → Result Bundle
unfolding is_object text_member member_of from_members
from_document index_text doc = do
  require (is_object doc) (invalid_bundle missing_member)
  from_members index_text (text_member (member_of (codes "trust_domain") doc))
      (member_of (codes "spiffile_version") doc) (member_of (codes "identities") doc)
