-- ===== src/Keys/Jwk.antt =====
-- What the JWK of `public_jwk` (python/src/spiffile/keys.py) says of the key.
use spiffile.Prelude.{
  ℕ, zero, suc, ◌+◌, ◌*◌, ◌/◌, ◌%◌, Text, codes, some, [], ◌∷◌, ◌≡◌, refl, sym, ap, ◌∙◌, arith, All,
  inl, inr, Bool-cases, nat_eq, text_eq, text_Eq,
}
use spiffile.Prelude.Value.{str, Fields, end, field, get}
use spiffile.Codec.{Codec}
use spiffile.Crypto.{Crypto}
use spiffile.Disk.{Bytes}
use spiffile.Errors.{ok, >>=-eq-ok}
use spiffile.Keys.{
  item, jwt_svid_use, algorithm, coord_length, big_endian, to_bytes, b64url, coordinates,
  jwk_thumbprint, public_jwk,
}
use spiffile.Keys.Base64.{IsByte, decode64, decode64-b64url}

-- `int.from_bytes(bs, "big")`, behind the bytes that make `n`.
pub number : ℕ → Bytes → ℕ
number n [] = n
number n (b ∷ bs) = number (n * 256 + b) bs

number-big_endian :
    (length x : ℕ) (tail : Bytes)
    → number (big_endian length x tail).1 (big_endian length x tail).0 ≡ number x tail
unfolding big_endian number
number-big_endian zero x tail = refl
number-big_endian (suc length) x tail =
    number-big_endian length (x / 256) (x % 256 ∷ tail) ∙ ap (λ n. number n tail) (omega arith)

pub big_endian-IsByte :
    (length x : ℕ) (tail : Bytes) → All IsByte tail → All IsByte (big_endian length x tail).0
unfolding big_endian
big_endian-IsByte zero x tail h = h
big_endian-IsByte (suc length) x tail h =
    big_endian-IsByte length (x / 256) (x % 256 ∷ tail) (omega arith, h)

-- The text is the base64url of the number.
pub Encodes : Text → ℕ → Type 0
Encodes t x = number 0 (decode64 t) ≡ x

to_bytes-Encodes : (length x : ℕ) (bs : Bytes) → to_bytes length x ≡ ok bs → Encodes (b64url bs) x
unfolding to_bytes Encodes
to_bytes-Encodes length x bs h = elim (Bool-cases (nat_eq (big_endian length x []).1 0)) [
  | inl e ↦
      let same : (big_endian length x []).0 ≡ bs = ground arith in
      let none_left : (big_endian length x []).1 ≡ 0 = ground arith in
      ap (number 0) (decode64-b64url bs (rw (sym same) (big_endian-IsByte length x [] tt)))
      ∙ ap (number 0) (sym same)
      ∙ ap (λ n. number n (big_endian length x []).0) (sym none_left)
      ∙ number-big_endian length x []
      ∙ unfold number in refl
  | inr e ↦ ground arith
]

-- The JWK of a key with these coordinates.
pub record IsJwkOf (codec : Codec) (c : Crypto) (x y : ℕ) (jwk : Fields) : Type 0 where
  pub x_text : Text
  pub y_text : Text
  pub kid : Text
  pub is_x : Encodes x_text x
  pub is_y : Encodes y_text y
  pub is_kid : jwk_thumbprint codec c jwk ≡ ok kid
  pub has_kty : get (codes "kty") jwk ≡ some (str (codes "EC"))
  pub has_crv : get (codes "crv") jwk ≡ some (str (codes "P-256"))
  pub has_x : get (codes "x") jwk ≡ some (str x_text)
  pub has_y : get (codes "y") jwk ≡ some (str y_text)
  pub has_kid : get (codes "kid") jwk ≡ some (str kid)
  pub has_use : get (codes "use") jwk ≡ some (str (codes "jwt-svid"))
  pub has_alg : get (codes "alg") jwk ≡ some (str (codes "ES256"))

-- The members of the JWK, `kid` being any text.
abbrev pub members : Text → Text → Text → Fields
members x y kid = coordinates x y (
    field (codes "kid") (str kid)
      (field (codes "use") (str jwt_svid_use) (field (codes "alg") (str algorithm) end)))

members-IsJwkOf :
    (codec : Codec) (c : Crypto) (x y : ℕ) (x_text y_text kid : Text)
    → Encodes x_text x
    → Encodes y_text y
    → jwk_thumbprint codec c (coordinates x_text y_text end) ≡ ok kid
    → IsJwkOf codec c x y (members x_text y_text kid)
unfolding coordinates text_eq jwk_thumbprint item
members-IsJwkOf codec c x y x_text y_text kid is_x is_y is_kid = record {
  x_text = x_text;
  y_text = y_text;
  kid = kid;
  is_x = is_x;
  is_y = is_y;
  is_kid = is_kid;
  has_kty = refl;
  has_crv = refl;
  has_x = refl;
  has_y = refl;
  has_kid = refl;
  has_use = refl;
  has_alg = refl;
}

-- The JWK that `public_jwk` returns is an ES256 key for JWT-SVIDs on P-256. Its `x` and `y` are the
-- base64url of the coordinates of the public key as big-endian numbers, and its `kid` is its own
-- thumbprint.
pub public_jwk-IsJwkOf :
    (codec : Codec) (c : Crypto) (key : c.PrivateKey) (jwk : Fields)
    → public_jwk codec c key ≡ ok jwk
    → IsJwkOf codec c (c.public_numbers key).0 (c.public_numbers key).1 jwk
unfolding public_jwk
public_jwk-IsJwkOf codec c key jwk h =
    let (x, y) = c.public_numbers key in
    let (xs, is_x, r1) = >>=-eq-ok (to_bytes coord_length x) _ h in
    let (ys, is_y, r2) = >>=-eq-ok (to_bytes coord_length y) _ r1 in
    let (kid, is_kid, r3) =
      >>=-eq-ok (jwk_thumbprint codec c (coordinates (b64url xs) (b64url ys) end)) _ r2 in
    let same : members (b64url xs) (b64url ys) kid ≡ jwk = ground arith in
    rw (sym same) (
      members-IsJwkOf codec c x y (b64url xs) (b64url ys) kid
        (to_bytes-Encodes coord_length x xs is_x) (to_bytes-Encodes coord_length y ys is_y) is_kid)
