-- ===== src/Conformance.antt =====
-- conformance/generate.py: the fixtures that the implementations are tested with. The value of a
-- fixture file is the dict of its members.
pub mod Members
pub mod Fixtures
pub mod Tokens
pub mod CommandLine
pub mod Checked
pub mod Services
pub mod Provisioned
pub mod Matrix
use spiffile.Prelude.{
  ℕ, Text, codes, Option, none, some, List, [], ◌∷◌, ◌++◌, text_Eq, ◌==◌, if◌then◌else◌,
}
use spiffile.Prelude.Dict.{Dict, lookup, insert}
use spiffile.Prelude.Int.{ℤ, pos}
use spiffile.Prelude.Value.{Value, null, int, str, arr, obj, Items, nil, cons, Fields, end, field}
use spiffile.Codec.{Codec}
use spiffile.Crypto.{Crypto, Header}
use spiffile.Disk.{Bytes, FilePath, path_str}
use spiffile.Disk.Action.{Action, pure, look, lift, Host, ◌>>◌}
use spiffile.Disk.Action
use spiffile.Errors.{
  attribute_error, type_error, key_error, other_error, Result, ok, raise, from_option, ◌>>=◌,
}
use spiffile.Keys.{item, text_of, private_key_from_pem, public_jwk}
use spiffile.Identity.Loading.{read_text}
use spiffile.Provision.Operations.{write_text}

-- `TRUST_DOMAIN`, `IAT` and `EXP`
abbrev pub trust_domain : Text
trust_domain = codes "example.org"

abbrev pub iat : ℤ
iat = pos 1750000000

abbrev pub exp : ℤ
exp = pos 2051222400

-- `f"spiffe://{TRUST_DOMAIN}/{service}"`
abbrev pub id_of : Text → Text
id_of service = codes "spiffe://" ++ trust_domain ++ b'/' ∷ service

-- `d[k] = v`
unfoldable pub set_item : Text → Value → Fields → Fields
set_item k v end = field k v end
set_item k v (field j w fs) =
    let rest = set_item k v fs in if j == k then field j v fs else field j w rest

-- `v.encode()`
unfoldable pub encode_method : Codec → Value → Result Bytes
encode_method codec (str t) = ok (codec.encode t)
encode_method codec _ = raise attribute_error

-- `{"keys": [jwk]}`
abbrev pub entry_of : Fields → Value
entry_of jwk = obj (field (codes "keys") (arr (cons (obj jwk) nil)) end)

-- `data["bundle"]`
abbrev pub bundle_document : Fields → Value
bundle_document identities = obj (
    field (codes "trust_domain") (str trust_domain) (
      field (codes "spiffile_version") (int (pos 1))
        (field (codes "identities") (obj identities) end)))

-- The claims of a token of orders, with this audience.
abbrev pub claims_for : Value → Fields
claims_for audience = field (codes "sub") (str (id_of (codes "orders"))) (
    field (codes "aud") audience
      (field (codes "iat") (int iat) (field (codes "exp") (int exp) end)))

abbrev pub one_audience : Value
one_audience = str (id_of (codes "billing"))

abbrev pub two_audiences : Value
two_audiences = arr (cons (str (id_of (codes "billing"))) (cons (str (id_of (codes "other"))) nil))

-- The members of the fixtures.
abbrev pub pem_member : Text → Text
pem_member service = service ++ codes "_private_key_pem"

abbrev pub jwk_member : Text → Text
jwk_member service = service ++ codes "_jwk"

abbrev pub token_member : Text
token_member = codes "token_orders_to_billing_exp_2035"

abbrev pub multi_member : Text
multi_member = codes "token_orders_to_billing_multi_aud_exp_2035"

-- `token_text` is a token as the text that it is.
module _ (codec : Codec) (c : Crypto) (token_text : c.Token → Text) where
  -- The variables of the loop.
  pub record Derived : Type 0 where
    pub data_members : Fields
    pub keys : Dict Text (c.PrivateKey × Fields)
    pub identities : Fields

  -- `private_key_from_pem(data[f"{service}_private_key_pem"].encode())`
  unfoldable pub key_in : Text → Fields → Result c.PrivateKey
  unfolding encode_method
  key_in service data_members = do
    pem ← item (pem_member service) data_members
    bytes ← encode_method codec pem
    private_key_from_pem codec c bytes

  unfoldable pub derive_service : Text → Derived → Result Derived
  unfolding key_in
  derive_service service s = do
    key ← key_in service s.data_members
    jwk ← public_jwk codec c key
    ok (record {
      data_members = set_item (jwk_member service) (obj jwk) s.data_members;
      keys = insert service (key, jwk) s.keys;
      identities = set_item (id_of service) (entry_of jwk) s.identities;
    })

  unfoldable pub derive_services : List Text → Derived → Result Derived
  unfolding derive_service
  derive_services [] s = ok s
  derive_services (service ∷ services) s = do
    s' ← derive_service service s
    derive_services services s'

  -- `jwt.encode(…)` of one of the two tokens.
  unfoldable pub encode_token : Value → c.PrivateKey → Fields → Result c.Token
  encode_token audience key jwk = do
    kid_value ← item (codes "kid") jwk
    kid ← text_of kid_value
    c.encode (claims_for audience) key (codes "ES256")
        (record { kid = some kid; typ = some (codes "JWT") })

  -- `main`, from the dict that was read to the one that is written.
  unfoldable pub derive : Fields → Result Fields
  unfolding derive_services encode_token
  derive data_members = do
    s ←
        derive_services (codes "orders" ∷ codes "billing" ∷ [])
          (record { data_members = data_members; keys = []; identities = end })
    orders ← from_option (lookup (codes "orders") s.keys) key_error
    token ← encode_token one_audience orders.0 orders.1
    multi ← encode_token two_audiences orders.0 orders.1
    ok (
        set_item multi_member (str (token_text multi)) (
          set_item token_member (str (token_text token))
            (set_item (codes "bundle") (bundle_document s.identities) s.data_members)))

  -- `data[…]` fails on what is no dict.
  abbrev dict_of : Value → Result Fields
  dict_of (obj fs) = ok fs
  dict_of _ = raise type_error

  -- The new content of the file, or what is raised: `JSONDecodeError` has no name of its own here.
  unfoldable pub new_content : Text → Result Text
  unfolding derive
  new_content text = do
    doc ← from_option (codec.loads text) (other_error 0)
    data_members ← dict_of doc
    derived ← derive data_members
    ok (codec.dumps (obj derived) ++ b'\n' ∷ [])

module _ (codec : Codec) (c : Crypto) (token_text : c.Token → Text) (host : Host)
    (fixtures : FilePath) where
  -- `main`: what it prints.
  unfoldable pub main : Action Text
  unfolding new_content
  main = Action.◌>>=◌ (look (λ d. read_text codec d fixtures)) λ text.
      Action.◌>>=◌ (lift (new_content codec c token_text text)) λ content.
        Action.◌>>◌ (write_text codec host fixtures content)
          (pure (codes "wrote " ++ path_str fixtures))
