-- ===== src/Examples/CommandWitnesses.antt =====
-- The theorem on the command line at concrete data.
use spiffile.Prelude.{
  ℕ, Text, codes, none, some, [], ◌∷◌, ◌++◌, ◌≡◌, refl, ap, ◌∙◌, text_Eq, text_eq, split,
  split_first,
}
use spiffile.Prelude.Dict.{lookup, insert}
use spiffile.Prelude.Int.{pos, ◌+ℤ◌}
use spiffile.Prelude.Value.{Value, str, obj, int, nil, cons, end, field, truthy}
use spiffile.Codec.{Codec, ReadsBack}
use spiffile.Disk.{file, path, clean, ◌//◌, read_bytes, stat, node_at, location_eq}
use spiffile.Disk.Action.{>>=-ok}
use spiffile.Disk.Locate.{place, descend}
use spiffile.Provision.Places.{service_at}
use spiffile.Errors.{Result, ok}
use spiffile.SpiffeId.{SpiffeId, to_str}
use spiffile.Bundle.{
  from_dict, member, is_version_one, items_method, read_entries, read_entry, is_text, keys_member,
  bind_keys, read_parsed, keys_for,
}
use spiffile.BundleSource.{get, load, cached}
use spiffile.Identity.{
  Identity, Caller, verify, candidates, read_claims, verify_with, try_keys, kid_matches, same_kid,
  default_leeway_seconds, expected_audience,
}
use spiffile.Identity.Minting.{minted_claims}
use spiffile.Provision.{load_identity, id_filename}
use spiffile.Provision.Loaded.{identity_of, load_identity-written}
use spiffile.Disk.Paths.{path-IsPure}
use spiffile.Conformance.CommandLine.{id_of, verified, report, check_token, main}
use spiffile.Conformance.Checked.{IsChecked, main-IsChecked}
use spiffile.Examples.Toy.{ToyToken, toy, toy_decode, toy-IsSound, coordinate}
use spiffile.Examples.Data.{orders, codec_of, jwk, jwks}
use spiffile.Examples.TokenWitnesses.{parse_id, orders-IsValid}
use spiffile.Examples.Provisioned.{root, host, orders_disk}
use spiffile.Examples.ProvisionFacts.{name, orders-IsName, root-IsDirect}

abbrev peer : SpiffeId
peer = record { trust_domain = codes "parity.test"; path = codes "/billing" }

abbrev document : Value
document = obj (
    field (codes "trust_domain") (str (codes "parity.test")) (
      field (codes "spiffile_version") (int (pos 1)) (
        field (codes "identities")
          (obj (field (to_str peer) (jwks (cons (jwk (codes "k7") (coordinate 7)) nil)) end)) end)))

abbrev codec : Codec
codec = codec_of document

abbrev request : ToyToken
request = record {
  header = record { kid = some (codes "k7"); typ = some (codes "JWT") };
  alg = codes "ES256";
  claims = minted_claims peer orders (pos 1000) (pos 60);
  signer = 7;
}

abbrev caller : Caller
caller = record { id = peer; claims = minted_claims peer orders (pos 1000) (pos 60) }

abbrev identity : Identity ℕ
identity = identity_of root name orders

abbrev run_verify : Result Caller
unfolding from_dict member is_version_one items_method read_entries read_entry is_text keys_member
    bind_keys read_parsed insert lookup parse_id to_str path clean split split_first ◌//◌ verify get
    load cached read_bytes stat node_at location_eq toy_decode coordinate minted_claims keys_for
    candidates read_claims verify_with try_keys kid_matches same_kid truthy ◌+ℤ◌ text_eq
    expected_audience
run_verify =
    (verify codec toy orders_disk orders_disk (pos 1010) identity request none
      default_leeway_seconds).0

verify-request :
    (verify codec toy orders_disk orders_disk
      (pos 1010)
      identity
      request
      none
      default_leeway_seconds).0
    ≡ ok caller
unfolding run_verify
verify-request = refl

codec-ReadsBack : ReadsBack codec
codec-ReadsBack = record { decode-encode = λ t. refl }

same_root : path (codes "/srv") ≡ root
unfolding path clean split split_first text_eq
same_root = refl

id_node :
    node_at orders_disk (id_filename ∷ service_at (place [] root) (name ∷ []))
    ≡ some (file (record { bytes = to_str orders ++ b'\n' ∷ []; mtime = 200; mode = 0o644 }))
unfolding node_at lookup location_eq text_eq place descend
id_node = refl

loads : load_identity codec orders_disk (path (codes "/srv")) name ≡ ok identity
loads =
    ap (λ p. load_identity codec {K = ℕ} orders_disk p name) same_root
    ∙ load_identity-written codec {K = ℕ} orders_disk [] root name (name ∷ []) orders _
        codec-ReadsBack (rw (← same_root) (path-IsPure (codes "/srv"))) root-IsDirect orders-IsName
        orders-IsValid refl id_node refl

abbrev printed : Text
printed = verified (id_of (codes "billing"))

abbrev read_token : Text → ToyToken
read_token t = request

run_main :
    main codec toy
      (λ t. t.alg)
      read_token
      host
      (pos 1010)
      (codes "verify" ∷ codes "/srv" ∷ name ∷ codes "token" ∷ codes "billing" ∷ [])
      7
      9
      orders_disk
    ≡ (ok printed, orders_disk)
unfolding main check_token report text_eq to_str
run_main =
    >>=-ok _ _ orders_disk (ap (λ r. (r, orders_disk)) loads)
    ∙ >>=-ok _ _ orders_disk (ap (λ r. (r, orders_disk)) verify-request)

main-IsChecked_example :
    (printed ≡ verified (id_of (codes "billing")))
    × (orders_disk ≡ orders_disk)
    × IsChecked codec toy
        (λ t. t.alg)
        read_token
        host
        (pos 1010)
        orders_disk
        (codes "/srv")
        name
        (codes "token")
        (codes "billing")
main-IsChecked_example =
    main-IsChecked codec toy (λ t. t.alg) read_token host (pos 1010) (codes "/srv") name
      (codes "token") (codes "billing") printed 7 9 orders_disk orders_disk toy-IsSound run_main
