-- ===== src/Ports/Bundles.antt =====
-- `Bundle.fromDocument` of ts/src/bundle.ts against `Bundle.from_dict` of
-- python/src/spiffile/bundle.py.
use spiffile.Prelude.{
  ℕ, Text, codes, Bool, Option, none, some, List, [], ◌∷◌, ◌≡◌, ◌≢◌, refl, sym, ap, ◌∙◌, text_eq,
  text_eq_iff, text_Eq, Bool-cases, inl, inr,
}
use spiffile.Prelude.Int.{pos, negsuc}
use spiffile.Prelude.Dict.{Dict}
use spiffile.Prelude.Value.{Value, bool, int, float, str, arr, obj, nil, cons, Fields, entries, get}
use spiffile.Errors.{
  invalid_bundle, missing_member, unsupported_version, Result, ok, require, from_option, ◌>>=◌,
  ◌>>◌, Result-cases,
}
use spiffile.SpiffeId.{SpiffeId, parse}
use spiffile.SpiffeId.Faults.{parse-IsFault}
use spiffile.Bundle.{
  Bundle, is_version_one, is_text, keys_member, elements_if_list, read_parsed, read_entry,
  read_entries, bind_keys, store, member, items_method, from_dict,
}
use spiffile.Ports.Tests.{same_test}
use spiffile.Ports.Ts.{parse_units}
use spiffile.Ports.Ts.Document
use spiffile.Ports.Ts.Parsing.{parse_units-parse_text}

is_one-version : (v : Value) → ((b : Bool) → v ≢ bool b) → Document.is_one v ≡ is_version_one v
unfolding Document.is_one is_version_one
is_one-version (bool b) h = absurd (h b refl)
is_one-version (int (pos n)) h = refl
is_one-version (int (negsuc n)) h = refl
is_one-version (float bits) h = refl
is_one-version _ h = refl

array_keys :
    (id : SpiffeId) (o : Option Value) (parsed : Dict Text (List Value))
    → Document.set_keys_array id (Document.keys_array o) parsed
      ≡ store (bind_keys id (elements_if_list o)) parsed
unfolding Document.set_keys_array Document.keys_array bind_keys
array_keys id (some (arr nil)) parsed = refl
array_keys id (some (arr (cons key keys))) parsed = refl
array_keys id none parsed = refl
array_keys id (some _) parsed = refl

keys_in-keys_member :
    (id : SpiffeId) (jwks : Value) (parsed : Dict Text (List Value))
    → Document.set_keys_array id (Document.keys_array (Document.keys_in jwks)) parsed
      ≡ store (bind_keys id (keys_member jwks)) parsed
unfolding Document.keys_in Document.is_object Document.member_of keys_member
keys_in-keys_member id (obj fs) parsed = array_keys id (get (codes "keys") fs) parsed
keys_in-keys_member id (arr vs) parsed = array_keys id none parsed
keys_in-keys_member id _ parsed = array_keys id none parsed

text_eq_comm : (s t : Text) → text_eq s t ≡ text_eq t s
text_eq_comm s t =
    same_test (text_eq s t) (text_eq t s) (text_eq_iff s t)
      (λ h. sym ((text_eq_iff t s).0 h), λ h. (text_eq_iff t s).1 (sym h))

-- The body of the loop, for the result of the parser.
read_one-read_parsed :
    (td : Text) (id : SpiffeId) (jwks : Value) (parsed : Dict Text (List Value))
    → Document.read_one td (ok id) jwks parsed
      ≡ ok (store (read_parsed (str td) (ok id) jwks) parsed)
unfolding Document.read_one read_parsed is_text
read_one-read_parsed td id jwks parsed = elim (Bool-cases (text_eq td id.trust_domain)) [
  | inl e ↦
      rw (text_eq_comm id.trust_domain td, e) (ap (λ x. ok x) (keys_in-keys_member id jwks parsed))
  | inr e ↦ rw (text_eq_comm id.trust_domain td, e) refl
]

read_one-read_entry :
    (td raw_id : Text) (jwks : Value) (parsed : Dict Text (List Value))
    → Document.read_one td (parse_units raw_id) jwks parsed
      ≡ ok (store (read_entry (str td) raw_id jwks) parsed)
unfolding read_entry
read_one-read_entry td raw_id jwks parsed =
    let same : parse_units raw_id ≡ parse (str raw_id) =
      unfold parse in parse_units-parse_text raw_id in
    elim (Result-cases (parse (str raw_id))) [
      | inl (id, e) ↦ rw (same, e) (read_one-read_parsed td id jwks parsed)
      | inr (x, e) ↦
          let (fault, is_fault, _) = parse-IsFault (str raw_id) x e in
          rw (same, e, is_fault) (unfold Document.read_one read_parsed in refl)
    ]

read_all-read_entries :
    (td : Text) (names : Dict Text Value) (parsed : Dict Text (List Value))
    → Document.read_all td names parsed ≡ ok (read_entries (str td) names parsed)
unfolding Document.read_all read_entries
read_all-read_entries td [] parsed = refl
read_all-read_entries td ((raw_id, jwks) ∷ names) parsed =
    rw (read_one-read_entry td raw_id jwks parsed)
      (read_all-read_entries td names (store (read_entry (str td) raw_id jwks) parsed))

-- The members that a document has are of the types that the profile gives them; the version may be
-- any value that is no Boolean.
pub record IsTyped (trust_domain version identities : Option Value) : Type 0 where
  pub is_domain : (v : Value) → trust_domain ≡ some v → (td : Text) × (v ≡ str td)
  pub no_bool : (b : Bool) → version ≢ some (bool b)
  pub is_dict : (v : Value) → identities ≡ some v → (fs : Fields) × (v ≡ obj fs)

-- What `from_dict` does with the three members.
read_members : Option Value → Option Value → Option Value → Result Bundle
read_members a b c = do
  trust_domain ← from_option a (invalid_bundle missing_member)
  version ← from_option b (invalid_bundle missing_member)
  identities_doc ← from_option c (invalid_bundle missing_member)
  require (is_version_one version) (invalid_bundle unsupported_version)
  items ← items_method identities_doc
  ok (record { trust_domain = trust_domain; identities = read_entries trust_domain items [] })

typed_members :
    (index_text : ℕ → Text) (td : Text) (version : Value) (fs : Fields)
    → ((b : Bool) → version ≢ bool b)
    → Document.from_members index_text (some td) (some version) (some (obj fs))
      ≡ read_members (some (str td)) (some version) (some (obj fs))
unfolding Document.from_members Document.is_object Document.object_entries read_members items_method
typed_members index_text td version fs no_bool =
    rw (is_one-version version no_bool, read_all-read_entries td (entries fs) []) refl

from_members-read_members :
    (index_text : ℕ → Text) (a b c : Option Value)
    → IsTyped a b c
    → Document.from_members index_text (Document.text_member a) b c ≡ read_members a b c
unfolding Document.text_member
from_members-read_members index_text none b c h = unfold Document.from_members read_members in refl
from_members-read_members index_text (some td) none c h =
    let (t, is_text) = h.is_domain td refl in
    rw is_text (unfold Document.from_members read_members in refl)
from_members-read_members index_text (some td) (some version) none h =
    let (t, is_text) = h.is_domain td refl in
    rw is_text (unfold Document.from_members read_members in refl)
from_members-read_members index_text (some td) (some version) (some ids) h =
    let (t, is_text) = h.is_domain td refl in
    let (fs, is_dict) = h.is_dict ids refl in
    rw (is_text, is_dict)
      (typed_members index_text t version fs (λ b e. h.no_bool b (ap (λ x. some x) e)))

abbrev pub IsTypedDoc : Value → Type 0
IsTypedDoc (obj fs) =
    IsTyped (get (codes "trust_domain") fs) (get (codes "spiffile_version") fs)
      (get (codes "identities") fs)
IsTypedDoc _ = Unit

-- For every JSON document, with its strings as the same lists of characters, `Bundle.fromDocument`
-- of the TypeScript package returns the bundle that `Bundle.from_dict` of the Python package
-- returns, or fails with the same error, if the members that the document has are of these types:
-- `trust_domain` is a string, `identities` an object, and `spiffile_version` is no Boolean.
pub from_document-from_dict :
    (index_text : ℕ → Text) (doc : Value)
    → IsTypedDoc doc
    → Document.from_document index_text doc ≡ from_dict doc
unfolding Document.from_document Document.is_object Document.member_of from_dict member
from_document-from_dict index_text (obj fs) h =
    from_members-read_members index_text (get (codes "trust_domain") fs)
      (get (codes "spiffile_version") fs) (get (codes "identities") fs) h
    ∙ unfold read_members in refl
from_document-from_dict index_text (arr vs) h =
    unfold Document.from_members Document.text_member in refl
from_document-from_dict index_text _ h = refl
