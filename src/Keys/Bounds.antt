-- ===== src/Keys/Bounds.antt =====
-- The width of the coordinates in a JWK (python/src/spiffile/keys.py): which numbers fit, and how
-- long their text is.
use spiffile.Prelude.{
  ℕ, zero, suc, ◌+◌, ◌*◌, ◌/◌, ◌%◌, ◌^◌, ◌<◌, ◌≤◌, Text, length, codes, some, [], ◌∷◌, ◌≡◌, ◌↔◌,
  ◌⊎◌, refl, ap, ◌∙◌, arith, All, inl, inr, Bool-cases, nat_eq, text_eq, text_Eq,
}
use spiffile.Prelude.Value.{str, Fields, end, get}
use spiffile.Codec.{Codec}
use spiffile.Crypto.{Crypto}
use spiffile.Disk.{Bytes}
use spiffile.Errors.{ok, raise, overflow_error}
use spiffile.Keys.{
  sextet, coord_length, big_endian, to_bytes, b64url, coordinates, item, jwk_thumbprint, public_jwk,
}
use spiffile.Keys.Base64.{IsByte, plain64, b64url-plain64}
use spiffile.Keys.Jwk.{big_endian-IsByte, members}
use spiffile.SpiffeId.Grammar.{IsLower, IsUpper, IsDigit}

big_endian-leftover : (n x : ℕ) (tail : Bytes) → ((big_endian n x tail).1 ≡ 0) ↔ (x < 256 ^ n)
unfolding big_endian
big_endian-leftover zero x tail = (λ h. omega arith, λ h. omega arith)
big_endian-leftover (suc n) x tail =
    let power : 256 ^ suc n ≡ 256 * 256 ^ n = omega arith in
    let (to, from) = big_endian-leftover n (x / 256) (x % 256 ∷ tail) in
    (λ h. rw power (shift (256 ^ n) (to h)), λ h. from (unshift (256 ^ n) (ground arith)))
  where
    shift : (p : ℕ) → x / 256 < p → x < 256 * p
    shift p h = omega arith

    unshift : (p : ℕ) → x < 256 * p → x / 256 < p
    unshift p h = omega arith

length-big_endian : (n x : ℕ) (tail : Bytes) → length (big_endian n x tail).0 ≡ n + length tail
unfolding big_endian length
length-big_endian zero x tail = omega arith
length-big_endian (suc n) x tail = length-big_endian n (x / 256) (x % 256 ∷ tail) ∙ omega arith

-- The alphabet of base64url.
abbrev pub IsBase64Char : ℕ → Type 0
IsBase64Char c = IsLower c ⊎ IsUpper c ⊎ IsDigit c ⊎ (c ≡ b'-') ⊎ (c ≡ b'_')

sextet-IsBase64Char : (n : ℕ) → n < 64 → IsBase64Char (sextet n)
unfolding sextet
sextet-IsBase64Char n h = ground arith

length-plain64 : (bs : Bytes) → length (plain64 bs) ≡ (4 * length bs + 2) / 3
unfolding length plain64
length-plain64 [] = refl
length-plain64 (a ∷ []) = refl
length-plain64 (a ∷ b ∷ []) = refl
length-plain64 (a ∷ b ∷ c ∷ rest) =
    ap (λ n. suc (suc (suc (suc n)))) (length-plain64 rest) ∙ omega arith

plain64-IsBase64Char : (bs : Bytes) → All IsByte bs → All IsBase64Char (plain64 bs)
unfolding plain64
plain64-IsBase64Char [] h = tt
plain64-IsBase64Char (a ∷ []) (h, _) =
    (sextet-IsBase64Char _ (omega arith), (sextet-IsBase64Char _ (omega arith), tt))
plain64-IsBase64Char (a ∷ b ∷ []) (h, (h', _)) = (
  sextet-IsBase64Char _ (omega arith),
  (sextet-IsBase64Char _ (omega arith), (sextet-IsBase64Char _ (omega arith), tt)),
)
plain64-IsBase64Char (a ∷ b ∷ c ∷ rest) (h, (h', (h2, hs))) = (
  sextet-IsBase64Char _ (omega arith),
  (
    sextet-IsBase64Char _ (omega arith),
    (
      sextet-IsBase64Char _ (omega arith),
      (sextet-IsBase64Char _ (omega arith), plain64-IsBase64Char rest hs),
    ),
  ),
)

-- A coordinate as `public_jwk` writes it.
pub record IsCoordinate (t : Text) : Type 0 where
  pub width : length t ≡ 43
  pub chars : All IsBase64Char t

b64url-IsCoordinate : (x : ℕ) → IsCoordinate (b64url (big_endian coord_length x []).0)
b64url-IsCoordinate x = rw (b64url-plain64 (big_endian coord_length x []).0) (record {
  width =
      length-plain64 (big_endian coord_length x []).0
      ∙ ap (λ n. (4 * n + 2) / 3) (length-big_endian coord_length x [])
      ∙ unfold length in refl;
  chars = plain64-IsBase64Char _ (big_endian-IsByte coord_length x [] tt);
})

-- `to_bytes` returns its bytes if they are enough for the number, and raises otherwise.
to_bytes-or :
    (n x : ℕ)
    → ((x < 256 ^ n) × (to_bytes n x ≡ ok (big_endian n x []).0))
      ⊎ ((256 ^ n ≤ x) × (to_bytes n x ≡ raise overflow_error))
unfolding to_bytes
to_bytes-or n x = elim (Bool-cases (nat_eq (big_endian n x []).1 0)) [
  | inl e ↦ inl ((big_endian-leftover n x []).0 (ground arith), rw e refl)
  | inr e ↦ inr (ground (arith, big_endian-leftover n x []), rw e refl)
]

-- What `public_jwk` does with the two coordinates.
pub data Bounded (codec : Codec) (c : Crypto) (key : c.PrivateKey) (x y : ℕ) : Type 0 where
  fits :
      (jwk : Fields) (x_text y_text : Text)
      → x < 2 ^ 256
      → y < 2 ^ 256
      → public_jwk codec c key ≡ ok jwk
      → get (codes "x") jwk ≡ some (str x_text)
      → get (codes "y") jwk ≡ some (str y_text)
      → IsCoordinate x_text
      → IsCoordinate y_text
      → Bounded codec c key x y
  overflows :
      (2 ^ 256 ≤ x) ⊎ (2 ^ 256 ≤ y)
      → public_jwk codec c key ≡ raise overflow_error
      → Bounded codec c key x y

members-x : (xs ys kid : Text) → get (codes "x") (members xs ys kid) ≡ some (str xs)
unfolding coordinates text_eq
members-x xs ys kid = refl

members-y : (xs ys kid : Text) → get (codes "y") (members xs ys kid) ≡ some (str ys)
unfolding coordinates text_eq
members-y xs ys kid = refl

module _ (codec : Codec) (c : Crypto) (key : c.PrivateKey) where
  thumbprint :
      (xs ys : Text) → (kid : Text) × (jwk_thumbprint codec c (coordinates xs ys end) ≡ ok kid)
  unfolding coordinates jwk_thumbprint item text_eq
  thumbprint xs ys = (_, refl)

  public_jwk-members :
      {xs ys : Bytes} (kid : Text)
      → to_bytes coord_length (c.public_numbers key).0 ≡ ok xs
      → to_bytes coord_length (c.public_numbers key).1 ≡ ok ys
      → jwk_thumbprint codec c (coordinates (b64url xs) (b64url ys) end) ≡ ok kid
      → public_jwk codec c key ≡ ok (members (b64url xs) (b64url ys) kid)
  unfolding public_jwk
  public_jwk-members kid e e' k = rw (e, e', k) refl

-- `public_jwk` always returns a JWK when both coordinates of the key are below 2 ^ 256, and then
-- its `x` and `y` have 43 characters each, all of the base64url alphabet. If one of the coordinates
-- is larger it raises `OverflowError`.
pub public_jwk-Bounded :
    (codec : Codec) (c : Crypto) (key : c.PrivateKey)
    → Bounded codec c key (c.public_numbers key).0 (c.public_numbers key).1
unfolding public_jwk
public_jwk-Bounded codec c key =
    let (x, y) = c.public_numbers key in
    elim (to_bytes-or coord_length x) [
      | inr (large, e) ↦ overflows (inl large) (rw e refl)
      | inl (small, e) ↦ elim (to_bytes-or coord_length y) [
        | inr (large, e') ↦ overflows (inr large) (rw (e, e') refl)
        | inl (small', e') ↦
            let (kid, is_kid) = thumbprint codec c key _ _ in
            fits _ _ _ small small' (public_jwk-members codec c key kid e e' is_kid)
              (members-x _ _ kid) (members-y _ _ kid) (b64url-IsCoordinate x)
              (b64url-IsCoordinate y)
      ]
    ]
