-- ===== src/Keys.antt =====
-- python/src/spiffile/keys.py: PEM files, base64url, JWKs and their thumbprints.
pub mod Base64
pub mod Jwk
pub mod Bounds
use spiffile.Prelude.{
  ℕ, zero, suc, ◌+◌, ◌-◌, ◌*◌, ◌/◌, ◌%◌, Text, codes, [], ◌∷◌, ltb, nat_eq, if◌then◌else◌,
}
use mathlib.Core.List.{reverse}
use spiffile.Prelude.Value.{Value, str, obj, Fields, end, field, get}
use spiffile.Codec.{Codec}
use spiffile.Crypto.{Crypto, ec, not_ec}
use spiffile.Disk.{Bytes}
use spiffile.Errors.{type_error, key_error, overflow_error, Result, ok, raise, from_option, ◌>>=◌}

-- `JWT_SVID_USE`, `ALGORITHM` and `_COORD_LENGTH`
abbrev pub jwt_svid_use : Text
jwt_svid_use = codes "jwt-svid"

abbrev pub algorithm : Text
algorithm = codes "ES256"

abbrev pub coord_length : ℕ
coord_length = 32

-- The character of a value below 64 in the alphabet of `urlsafe_b64encode`.
unfoldable pub sextet : ℕ → ℕ
sextet n =
    if ltb n 26
    then b'A' + n
    else if ltb n 52
    then n + 71
    else if ltb n 62
    then n - 4
    else if nat_eq n 62
    then b'-'
    else b'_'

-- `base64.urlsafe_b64encode`: three bytes make four characters, and "=" fills the last four.
unfoldable pub urlsafe_b64encode : Bytes → Text
unfolding sextet
urlsafe_b64encode [] = []
urlsafe_b64encode (a ∷ []) = sextet (a / 4) ∷ sextet (a % 4 * 16) ∷ b'=' ∷ b'=' ∷ []
urlsafe_b64encode (a ∷ b ∷ []) =
    sextet (a / 4) ∷ sextet (a % 4 * 16 + b / 16) ∷ sextet (b % 16 * 4) ∷ b'=' ∷ []
urlsafe_b64encode (a ∷ b ∷ c ∷ rest) =
    sextet (a / 4)
    ∷ sextet (a % 4 * 16 + b / 16)
    ∷ sextet (b % 16 * 4 + c / 64)
    ∷ sextet (c % 64)
    ∷ urlsafe_b64encode rest

unfoldable pub lstrip_char : ℕ → Text → Text
lstrip_char x [] = []
lstrip_char x (c ∷ s) = let rest = lstrip_char x s in if nat_eq c x then rest else c ∷ s

-- `s.rstrip(x)` for one character
unfoldable pub rstrip_char : ℕ → Text → Text
unfolding lstrip_char
rstrip_char x s = reverse (lstrip_char x (reverse s))

-- `_b64url`; what it strips is ASCII, so its bytes and its characters are the same numbers.
unfoldable pub b64url : Bytes → Text
unfolding urlsafe_b64encode rstrip_char
b64url data_bytes = rstrip_char b'=' (urlsafe_b64encode data_bytes)

-- The `length` bytes of `x`, the last one last, and what is left of `x`.
unfoldable pub big_endian : ℕ → ℕ → Bytes → Bytes × ℕ
big_endian zero x tail = (tail, x)
big_endian (suc length) x tail = big_endian length (x / 256) ((x % 256) ∷ tail)

-- `x.to_bytes(length, "big")`
unfoldable pub to_bytes : ℕ → ℕ → Result Bytes
unfolding big_endian
to_bytes length x =
    let (bytes, left) = big_endian length x [] in
    if nat_eq left 0 then ok bytes else raise overflow_error

-- `jwk[key]`
unfoldable pub item : Text → Fields → Result Value
item key jwk = from_option (get key jwk) key_error

-- `canonical.encode("ascii")`: `json.dumps` writes nothing else.
abbrev ascii : Text → Bytes
ascii canonical = canonical

-- A public JWK, without the `kid` and what follows it.
unfoldable pub coordinates : Text → Text → Fields → Fields
coordinates x y rest = field (codes "kty") (str (codes "EC")) (
    field (codes "crv") (str (codes "P-256"))
      (field (codes "x") (str x) (field (codes "y") (str y) rest)))

-- A member that `public_jwk` has set to a text.
abbrev pub text_of : Value → Result Text
text_of (str kid) = ok kid
text_of _ = raise type_error

abbrev pub private_key_to_pem : (c : Crypto) → c.PrivateKey → Bytes
private_key_to_pem c key = c.to_pem key

module _ (codec : Codec) (c : Crypto) where
  unfoldable pub private_key_from_pem : Bytes → Result c.PrivateKey
  private_key_from_pem pem =
      c.load_pem pem >>= λ key. elim key [ ec k ↦ ok k | not_ec ↦ raise type_error ]

  unfoldable pub jwk_thumbprint : Fields → Result Text
  unfolding item b64url
  jwk_thumbprint jwk = do
    crv ← item (codes "crv") jwk
    kty ← item (codes "kty") jwk
    x ← item (codes "x") jwk
    y ← item (codes "y") jwk
    let required = obj (
        field (codes "crv") crv
          (field (codes "kty") kty (field (codes "x") x (field (codes "y") y end))))
    ok (b64url (c.sha256 (ascii (codec.dumps_compact required))))

  unfoldable pub public_jwk : c.PrivateKey → Result Fields
  unfolding to_bytes b64url coordinates jwk_thumbprint
  public_jwk key = do
    let (x, y) = c.public_numbers key
    x_bytes ← to_bytes coord_length x
    y_bytes ← to_bytes coord_length y
    let xs = b64url x_bytes
    let ys = b64url y_bytes
    kid ← jwk_thumbprint (coordinates xs ys end)
    ok (
        coordinates xs ys (
          field (codes "kid") (str kid)
            (field (codes "use") (str jwt_svid_use) (field (codes "alg") (str algorithm) end))))

  -- `public_jwk(key)["kid"]`, which is a text.
  unfoldable pub key_id : c.PrivateKey → Result Text
  unfolding public_jwk
  key_id key = do jwk ← public_jwk key; kid ← item (codes "kid") jwk; text_of kid
