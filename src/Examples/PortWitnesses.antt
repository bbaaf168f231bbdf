-- ===== src/Examples/PortWitnesses.antt =====
-- The theorems on the implementations in Go and TypeScript at concrete data.
use spiffile.Prelude.{
  ℕ, ◌+◌, Text, codes, true, some, [], ◌∷◌, ◌++◌, ◌≡◌, ◌↔◌, refl, sym, arith, text_eq, all, split,
}
use spiffile.Prelude.Int.{pos}
use spiffile.Prelude.Value.{Value, bool, int, str, arr, obj, nil, cons, end, field}
use spiffile.Errors.{
  ok, raise, invalid_bundle, unsupported_version, invalid_spiffe_id, segment_chars, attribute_error,
}
use spiffile.SpiffeId.{parse}
use spiffile.Bundle.{from_dict, member, is_version_one, items_method, read_entries}
use spiffile.Ports.Go.{parse_spiffe_id}
use spiffile.Ports.Ts.{parse_units}
use spiffile.Ports.Ts.Document.{from_document}
use spiffile.Ports.Units.{utf16}
use spiffile.Ports.Ids.{parse_spiffe_id-parse}
use spiffile.Ports.Bundles.{IsTypedDoc, from_document-from_dict}
use spiffile.Examples.Data.{example_org, identities, orders, document}

abbrev orders_text : Text
orders_text = codes "spiffe://example.org/orders"

parse_spiffe_id-parse_example :
    (parse_spiffe_id orders_text ≡ parse (str orders_text))
    × ((parse_units (utf16 orders_text) ≡ ok orders) ↔ (parse (str orders_text) ≡ ok orders))
parse_spiffe_id-parse_example = parse_spiffe_id-parse orders_text orders

orders-parse_units : parse_units (utf16 orders_text) ≡ ok orders
unfolding parse_units utf16 split text_eq all
orders-parse_units = refl

-- A character that takes two code units.
wide-parse_units :
    parse_units (utf16 (orders_text ++ 0x1f600 ∷ [])) ≡ raise (invalid_spiffe_id segment_chars)
unfolding parse_units utf16 split text_eq all
wide-parse_units = refl

abbrev digit : ℕ → Text
digit i = (b'0' + i) ∷ []

some-inj : {v v' : Value} → some v ≡ some v' → v ≡ v'
some-inj e = cc

document-IsTypedDoc : IsTypedDoc document
unfolding text_eq
document-IsTypedDoc = record {
  is_domain = λ v e. (example_org, sym (some-inj e));
  no_bool = λ b e. ground arith;
  is_dict = λ v e. (identities, sym (some-inj e));
}

from_document-from_dict_example : from_document digit document ≡ from_dict document
from_document-from_dict_example = from_document-from_dict digit document document-IsTypedDoc

-- Documents with members of other types, which the two packages read in different ways.
abbrev with_members : Value → Value → Value
with_members version identities = obj (
    field (codes "trust_domain") (str (codes "example.org"))
      (field (codes "spiffile_version") version (field (codes "identities") identities end)))

boolean_version :
    (from_document digit (with_members (bool true) (obj end))
      ≡ raise (invalid_bundle unsupported_version))
    × (from_dict (with_members (bool true) (obj end))
        ≡ ok (record { trust_domain = str (codes "example.org"); identities = [] }))
unfolding from_document from_dict text_eq member is_version_one items_method read_entries
boolean_version = (refl, refl)

array_of_identities :
    (from_document digit (with_members (int (pos 1)) (arr (cons (obj end) nil)))
      ≡ ok (record { trust_domain = str (codes "example.org"); identities = [] }))
    × (from_dict (with_members (int (pos 1)) (arr (cons (obj end) nil))) ≡ raise attribute_error)
unfolding from_document from_dict text_eq parse_units member is_version_one items_method
array_of_identities = (refl, refl)
