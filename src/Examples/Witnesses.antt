-- ===== src/Examples/Witnesses.antt =====
-- The theorems at concrete data.
use spiffile.Prelude.{
  ℕ, codes, none, some, [], ◌∷◌, ◌≡◌, ◌↔◌, refl, arith, text_eq, inl, text_Eq, strip_prefix,
  partition, split, split_first, all,
}
use spiffile.Prelude.Dict.{lookup, insert, NodupKeys}
use spiffile.Prelude.Int.{pos, ◌+ℤ◌}
use spiffile.Prelude.Value.{Value, str, obj, int, end, field, entries, truthy}
use spiffile.Disk.{stat, read_bytes, node_at, location_eq}
use spiffile.Errors.{Result, ok}
use spiffile.SpiffeId.{
  parse, to_str, parse_text, parse_rest, is_trust_domain_char, is_segment_char, check_path,
  check_segments, check_segment,
}
use spiffile.SpiffeId.Grammar.{IsValid}
use spiffile.SpiffeId.Parsing.{parse_iff}
use spiffile.Bundle.{
  Bundle, from_dict, to_dict, keys_for, member, is_version_one, items_method, read_entries,
  read_entry, is_text, keys_member, bind_keys, read_parsed,
}
use spiffile.Bundle.Entries.{Binds}
use spiffile.Bundle.Document.{IsDocument, keys_for-from_dict, Reading, from_dict-Reading}
use spiffile.Bundle.RoundTrip.{IsWellFormed, from_dict-to_dict, from_dict-IsWellFormed}
use spiffile.BundleSource.{source, get, load, cached}
use spiffile.BundleSource.Fresh.{Detects, created, called, uncached, get-uncached}
use spiffile.Identity.{
  Caller, verify, candidates, read_claims, verify_with, try_keys, kid_matches, same_kid, check_of,
  default_leeway_seconds, expected_audience, unverified_audience,
}
use spiffile.Identity.Sound.{IsAuthentic, verify-IsAuthentic, unverified_audience-verify}
use spiffile.Examples.Toy.{ToyToken, toy, toy_decode, toy-IsSound, coordinate}
use spiffile.Examples.History.{once-Detects}
use spiffile.Examples.Data.{
  disk_at, example_org, orders, orders_name, billing_name, key_7, key_8, identities, document,
  bundle, codec, bundle_path, history, receiver,
}

orders-IsValid : IsValid orders
orders-IsValid = record {
  domain = record { nonempty = ground arith; chars = omega arith };
  segments = codes "orders" ∷ [];
  path_is = refl;
  each = (
    record {
      nonempty = ground arith;
      not_dot = ground arith;
      not_dot_dot = ground arith;
      chars = omega arith;
    },
    tt,
  );
}

parse_iff_example :
    (parse (str orders_name) ≡ ok orders)
    ↔ ((str orders_name ≡ str (to_str orders)) × IsValid orders)
parse_iff_example = parse_iff (str orders_name) orders

document-IsDocument : IsDocument document (str example_org) identities
unfolding text_eq
document-IsDocument = record {
  members = field (codes "trust_domain") (str example_org) (
      field (codes "spiffile_version") (int (pos 1))
        (field (codes "identities") (obj identities) end));
  version = int (pos 1);
  is_dict = refl;
  has_domain = refl;
  has_version = refl;
  has_identities = refl;
  supported = inl refl;
}

identities-NodupKeys : NodupKeys (entries identities)
unfolding lookup text_eq
identities-NodupKeys = (refl, (refl, (refl, tt)))

-- To unfold `read` is to unfold all that reading a document calls.
abbrev read : Value → Result Bundle
unfolding from_dict member is_version_one items_method read_entries read_entry is_text keys_member
    bind_keys read_parsed insert lookup text_eq parse parse_text parse_rest strip_prefix partition
    split split_first all is_trust_domain_char is_segment_char check_path check_segments
    check_segment to_str
read = from_dict

from_dict-document : from_dict document ≡ ok bundle
unfolding read
from_dict-document = refl

keys_for-from_dict_example :
    (b : Bundle) × (from_dict document ≡ ok b)
    × (b.trust_domain ≡ str example_org)
    × ((keys_for b orders_name ≡ ok (key_7 ∷ key_8 ∷ [])) ↔ (
        (jwks : Value) × (lookup orders_name (entries identities) ≡ some jwks)
        × Binds (str example_org) orders_name jwks (key_7 ∷ key_8 ∷ [])))
keys_for-from_dict_example =
    keys_for-from_dict document (str example_org) identities orders_name (key_7 ∷ key_8 ∷ [])
      document-IsDocument identities-NodupKeys

from_dict-Reading_example : Reading document (from_dict document)
from_dict-Reading_example = from_dict-Reading document

from_dict-IsWellFormed_example : IsWellFormed bundle
from_dict-IsWellFormed_example = from_dict-IsWellFormed document bundle from_dict-document

bundle-IsWellFormed : IsWellFormed bundle
bundle-IsWellFormed = from_dict-IsWellFormed document bundle from_dict-document

from_dict-to_dict_example : from_dict (to_dict bundle) ≡ ok bundle
from_dict-to_dict_example = from_dict-to_dict bundle bundle-IsWellFormed

stat-disk_at :
    (mtime : ℕ) → stat (disk_at mtime) bundle_path ≡ ok (record { mtime = mtime; size = 2 })
unfolding stat text_eq node_at location_eq lookup
stat-disk_at mtime = refl

history-Detects : Detects history bundle_path
history-Detects =
    once-Detects (disk_at 100) (disk_at 200) bundle_path _ _ (stat-disk_at 100) (stat-disk_at 200)
      (λ e. ground arith)

-- The first call's read comes after the replacement, and its stat before.
get-uncached_example :
    (get codec (history 2) (history 2) (get codec (history 0) (history 1) (source bundle_path)).1).0
    ≡ uncached codec (history 2) bundle_path
get-uncached_example =
    get-uncached codec history bundle_path 2 history-Detects
      (called 0 1 (created {n = 0}) (omega arith) (omega arith) refl) (omega arith)

-- A token of orders for billing, signed with key 8 and naming it.
abbrev request : ToyToken
request = record {
  header = record { kid = some (codes "k8"); typ = some (codes "JWT") };
  alg = codes "ES256";
  claims = field (codes "sub") (str orders_name) (
      field (codes "aud") (str billing_name)
        (field (codes "iat") (int (pos 1000)) (field (codes "exp") (int (pos 1060)) end)));
  signer = 8;
}

abbrev caller : Caller
caller = record { id = orders; claims = request.claims }

abbrev run_verify : ToyToken → Result Caller
unfolding read verify get load cached read_bytes stat node_at location_eq toy_decode coordinate
    keys_for candidates read_claims verify_with try_keys kid_matches same_kid truthy ◌+ℤ◌
run_verify token =
    (verify codec toy (history 0) (history 0) (pos 1010) receiver token none
      default_leeway_seconds).0

verify-request :
    (verify codec toy
      (history 0)
      (history 0)
      (pos 1010)
      receiver
      request
      none
      default_leeway_seconds).0
    ≡ ok caller
unfolding run_verify
verify-request = refl

verify-IsAuthentic_example :
    (b : Bundle) × ((get codec (history 0) (history 0) receiver.bundle_source).0 ≡ ok b)
    × IsAuthentic toy b request
        (check_of (expected_audience receiver.id none) default_leeway_seconds (pos 1010))
        caller
verify-IsAuthentic_example =
    verify-IsAuthentic codec toy toy-IsSound (history 0) (history 0) receiver request none
      default_leeway_seconds (pos 1010) caller verify-request

unverified_audience-verify_example :
    unverified_audience toy request ≡ ok (some (expected_audience receiver.id none))
unverified_audience-verify_example =
    unverified_audience-verify codec toy toy-IsSound (history 0) (history 0) receiver request none
      default_leeway_seconds (pos 1010) caller verify-request
