-- ===== src/Crypto.antt =====
-- What the program calls of the packages `cryptography` and `jwt` (PyJWT) and of `hashlib`: an
-- interface, and what their documentation says of the calls.
use spiffile.Prelude.{
  Text, codes, Bool, true, false, Option, none, some, List, [], ◌∷◌, ◌≡◌, ◌⊎◌, ℕ,
}
use spiffile.Prelude.Int.{ℤ, ◌+ℤ◌, ◌<ℤ◌, ◌≤ℤ◌}
use spiffile.Prelude.Value.{Value, int, str, arr, Items, Fields, elements, get}
use spiffile.Disk.{Bytes}
use spiffile.Errors.{Result, ok, raise, jwt_error, invalid_signature}

-- A loaded private key, told apart as the program tells it.
pub data Loaded (K : Type 0) : Type 0 where
  ec : K → Loaded K
  not_ec : Loaded K

-- The header members that the program writes and reads. `kid` is a text where it is there: PyJWT
-- refuses any other.
pub record Header : Type 0 where
  pub kid : Option Text
  pub typ : Option Text

-- The arguments of `jwt.decode` beside the token and the key, and the time of the call.
pub record Check : Type 0 where
  pub algorithms : List Text
  pub audience : Text
  pub leeway : ℤ
  pub required : List Text
  pub now : ℤ

pub record Crypto : Type 1 where
  -- EC private keys and the keys of PyJWK
  pub PrivateKey : Type 0
  pub PublicKey : Type 0
  pub Token : Type 0
  -- `serialization.load_pem_private_key(pem, password=None)`
  pub load_pem : Bytes → Result (Loaded PrivateKey)
  -- `key.private_bytes(…)`
  pub to_pem : PrivateKey → Bytes
  -- `key.public_key().public_numbers()`
  pub public_numbers : PrivateKey → ℕ × ℕ
  -- `hashlib.sha256(data).digest()`
  pub sha256 : Bytes → Bytes
  -- `jwt.get_unverified_header(token)`
  pub get_unverified_header : Token → Result Header
  -- `jwt.decode(token, options={"verify_signature": False})`
  pub decode_unverified : Token → Result Fields
  -- `jwt.PyJWK.from_dict(jwk).key`
  pub jwk_key : Value → Result PublicKey
  -- `jwt.decode(token, key=…, algorithms=…, audience=…, leeway=…, options={"require": …})`
  pub decode : Token → PublicKey → Check → Result Fields
  -- `jwt.encode(claims, key=…, algorithm=…, headers=…)`
  pub encode : Fields → PrivateKey → Text → Header → Result Token
  -- `int(v)`, as `jwt.decode` reads a time, if it is a number
  pub whole : Value → Option ℤ
  -- The key is an EC key: PyJWK reads others too.
  pub is_ec : PublicKey → Bool
  -- The signature of the token is valid under the key.
  pub verifies : PublicKey → Token → Bool
  -- The `alg` of the token's header.
  pub algorithm : Token → Text

-- The value is in the list.
abbrev pub Among : {A : Type 0} → A → List A → Type 0
Among a [] = ⊥
Among a (x ∷ xs) = (a ≡ x) ⊎ Among a xs

-- The `aud` claim names the audience, alone or in a list.
pub data Names (audience : Text) (v : Value) : Type 0 where
  alone : v ≡ str audience → Names audience v
  listed : (vs : Items) → v ≡ arr vs → Among (str audience) (elements vs) → Names audience v

-- The times of the claims are whole numbers that fit, and the claims have none of the others that
-- `decode` verifies without being asked: `nbf` and `jti`.
pub record Timely (check : Check) (claims : Fields) : Type 0 where
  pub exp : ℤ
  pub iat : ℤ
  pub has_exp : get (codes "exp") claims ≡ some (int exp)
  pub has_iat : get (codes "iat") claims ≡ some (int iat)
  pub not_expired : check.now <ℤ exp +ℤ check.leeway
  pub not_early : iat ≤ℤ check.now +ℤ check.leeway
  pub no_nbf : get (codes "nbf") claims ≡ none
  pub no_jti : get (codes "jti") claims ≡ none

-- What `decode` has checked when it returns.
pub record IsSound (c : Crypto) : Type 0 where
  pub decode-payload :
      (t : c.Token) (k : c.PublicKey) (check : Check) (claims : Fields)
      → c.decode t k check ≡ ok claims
      → c.decode_unverified t ≡ ok claims
  pub decode-verifies :
      (t : c.Token) (k : c.PublicKey) (check : Check) (claims : Fields)
      → c.decode t k check ≡ ok claims
      → c.verifies k t ≡ true
  pub decode-algorithm :
      (t : c.Token) (k : c.PublicKey) (check : Check) (claims : Fields)
      → c.decode t k check ≡ ok claims
      → Among (c.algorithm t) check.algorithms
  pub decode-audience :
      (t : c.Token) (k : c.PublicKey) (check : Check) (claims : Fields)
      → c.decode t k check ≡ ok claims
      → (v : Value) × (get (codes "aud") claims ≡ some v) × Names check.audience v
  pub decode-required :
      (t : c.Token) (k : c.PublicKey) (check : Check) (claims : Fields) (name : Text)
      → c.decode t k check ≡ ok claims
      → Among name check.required
      → (v : Value) × (get name claims ≡ some v)
  pub decode-exp :
      (t : c.Token) (k : c.PublicKey) (check : Check) (claims : Fields)
      → c.decode t k check ≡ ok claims
      → (v : Value) × (exp : ℤ) × (get (codes "exp") claims ≡ some v)
        × (c.whole v ≡ some exp)
        × (check.now <ℤ exp +ℤ check.leeway)

-- A signature that is not valid under an EC key is the first thing that `decode` finds.
pub record IsStrict (c : Crypto) : Type 0 where
  pub decode-invalid :
      (t : c.Token) (k : c.PublicKey) (check : Check)
      → Among (c.algorithm t) check.algorithms
      → c.is_ec k ≡ true
      → c.verifies k t ≡ false
      → c.decode t k check ≡ raise (jwt_error invalid_signature)

-- A token that `encode` has made carries what it was given. `decode` accepts it under a key that
-- verifies it, if its algorithm is allowed, its subject is a text, it is for the one audience asked
-- for, its times fit, and it has no `nbf` and no `jti`.
pub record IsFaithful (c : Crypto) : Type 0 where
  pub encode-header :
      (claims : Fields) (k : c.PrivateKey) (alg : Text) (h : Header) (t : c.Token)
      → c.encode claims k alg h ≡ ok t
      → c.get_unverified_header t ≡ ok h
  pub encode-claims :
      (claims : Fields) (k : c.PrivateKey) (alg : Text) (h : Header) (t : c.Token)
      → c.encode claims k alg h ≡ ok t
      → c.decode_unverified t ≡ ok claims
  pub encode-algorithm :
      (claims : Fields) (k : c.PrivateKey) (alg : Text) (h : Header) (t : c.Token)
      → c.encode claims k alg h ≡ ok t
      → c.algorithm t ≡ alg
  pub decode-valid :
      (claims : Fields) (key : c.PrivateKey) (alg : Text) (h : Header) (t : c.Token)
      (k : c.PublicKey) (check : Check) (subject : Text)
      → c.encode claims key alg h ≡ ok t
      → c.verifies k t ≡ true
      → Among alg check.algorithms
      → check.required ≡ codes "sub" ∷ codes "aud" ∷ codes "exp" ∷ []
      → get (codes "sub") claims ≡ some (str subject)
      → get (codes "aud") claims ≡ some (str check.audience)
      → Timely check claims
      → c.decode t k check ≡ ok claims
