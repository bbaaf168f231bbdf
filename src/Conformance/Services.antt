-- ===== src/Conformance/Services.antt =====
-- The two services of conformance/matrix/cli.py, and what they have on the disk.
use spiffile.Prelude.{
  ℕ, Text, codes, List, [], ◌∷◌, ◌++◌, ◌≡◌, refl, some, text_Eq, text_eq, split, all, partition,
  strip_prefix,
}
use spiffile.Prelude.Value.{str, obj, Fields}
use spiffile.Codec.{Codec}
use spiffile.Disk.{FilePath, File, file, Location, Disk, node_at}
use spiffile.Disk.Action.{Host}
use spiffile.Disk.Locate.{IsDirect, place}
use spiffile.Errors.{ok}
use spiffile.SpiffeId.{
  SpiffeId, parse, parse_text, parse_rest, check_path, check_segments, check_segment,
  is_trust_domain_char, is_segment_char, to_str,
}
use spiffile.SpiffeId.Grammar.{IsDomain, all-IsTrustDomainChar}
use spiffile.Bundle.{Bundle}
use spiffile.Provision.{id_filename, key_filename}
use spiffile.Provision.Operations.{id_text}
use spiffile.Provision.Places.{service_at}
use spiffile.Provision.Writes.{key_file_of}
use spiffile.Provision.Stored.{current}
use spiffile.Provision.Layout.{IsRoot, bound}
use spiffile.Provision.Init.{empty_bundle}
use spiffile.Conformance.CommandLine.{trust_domain}

abbrev pub orders : Text
orders = codes "orders"

abbrev pub billing : Text
billing = codes "billing"

abbrev pub service_id : Text → SpiffeId
service_id name = record { trust_domain = trust_domain; path = b'/' ∷ name }

-- The bundle once one service is there, and then both.
abbrev pub with_orders : Fields → Bundle
with_orders orders_jwk = bound (empty_bundle trust_domain) (service_id orders) (obj orders_jwk ∷ [])

abbrev pub with_both : Fields → Fields → Bundle
with_both orders_jwk billing_jwk =
    bound (with_orders orders_jwk) (service_id billing) (obj billing_jwk ∷ [])

-- What a service has on the disk.
pub record HasService (codec : Codec) (host : Host) (d : Disk) (root_at : Location) (name : Text)
    (pem : List ℕ) : Type 0 where
  pub has_key :
      node_at d (key_filename ∷ service_at root_at (name ∷ [])) ≡ some (file (key_file_of host pem))
  pub id_file : File
  pub has_id : node_at d (id_filename ∷ service_at root_at (name ∷ [])) ≡ some (file id_file)
  pub id_bytes : id_file.bytes ≡ codec.encode (to_str (service_id name) ++ b'\n' ∷ [])

-- A root with both services, and the files of each.
pub record Provisioned (codec : Codec) (host : Host) (d d' : Disk) (root : FilePath)
    (orders_pem billing_pem : List ℕ) (b : Bundle) : Type 0 where
  pub cwd_is : d'.cwd ≡ d.cwd
  pub is_root : IsRoot codec d' root trust_domain b
  pub has_orders : HasService codec host d' (place d.cwd root) orders orders_pem
  pub has_billing : HasService codec host d' (place d.cwd root) billing billing_pem

pub domain : IsDomain trust_domain
unfolding all is_trust_domain_char
domain = record { nonempty = λ e. cc; chars = (all-IsTrustDomainChar trust_domain).0 refl }

pub with_bundle-IsRoot :
    (codec : Codec) (d : Disk) (root : FilePath) (b : Bundle)
    → IsDirect root
    → current codec d root ≡ ok b
    → b.trust_domain ≡ str trust_domain
    → IsRoot codec d root trust_domain b
with_bundle-IsRoot codec d root b direct has is_text = record {
  direct = direct;
  has_bundle = has;
  is_text = is_text;
  domain = domain;
}

pub parse-orders :
    (codec : Codec) (b : Bundle)
    → b.trust_domain ≡ str trust_domain
    → parse (str (id_text codec b orders)) ≡ ok (service_id orders)
unfolding id_text parse parse_text parse_rest check_path check_segments check_segment
    is_trust_domain_char is_segment_char strip_prefix partition split all text_eq
parse-orders codec b e = rw e refl

pub parse-billing :
    (codec : Codec) (b : Bundle)
    → b.trust_domain ≡ str trust_domain
    → parse (str (id_text codec b billing)) ≡ ok (service_id billing)
unfolding id_text parse parse_text parse_rest check_path check_segments check_segment
    is_trust_domain_char is_segment_char strip_prefix partition split all text_eq
parse-billing codec b e = rw e refl
