-- ===== src/Keys/Base64.antt =====
-- `_b64url` (python/src/spiffile/keys.py) against a decoder of base64url.
use spiffile.Prelude.{
  ℕ, ◌+◌, ◌-◌, ◌*◌, ◌/◌, ◌%◌, ◌<◌, Text, [], ◌∷◌, ◌++◌, ◌≡◌, ◌≢◌, refl, sym, ap, ◌∙◌, arith, All,
  leb, nat_eq, if◌then◌else◌, append_assoc, append-nil,
}
use spiffile.Prelude.Stripping.{All-reverse}
use mathlib.Core.List.{reverse, reverse-append, reverse-reverse}
use spiffile.Disk.{Bytes}
use spiffile.Keys.{sextet, urlsafe_b64encode, lstrip_char, rstrip_char, b64url}

abbrev pub IsByte : ℕ → Type 0
IsByte b = b < 256

-- The value of a character of the alphabet.
pub value_of : ℕ → ℕ
value_of c =
    if leb b'a' c
    then c - 71
    else if nat_eq c b'_'
    then 63
    else if leb b'A' c
    then c - b'A'
    else if nat_eq c b'-'
    then 62
    else c + 4

-- Each four characters are three bytes; a rest of two or three is one or two.
pub decode64 : Text → Bytes
decode64 [] = []
decode64 (p ∷ []) = []
decode64 (p ∷ q ∷ []) = (value_of p * 4 + value_of q / 16) ∷ []
decode64 (p ∷ q ∷ r ∷ []) =
    (value_of p * 4 + value_of q / 16) ∷ (value_of q % 16 * 16 + value_of r / 4) ∷ []
decode64 (p ∷ q ∷ r ∷ s ∷ rest) =
    (value_of p * 4 + value_of q / 16)
    ∷ (value_of q % 16 * 16 + value_of r / 4)
    ∷ (value_of r % 4 * 64 + value_of s)
    ∷ decode64 rest

value_of-sextet : (n : ℕ) → n < 64 → value_of (sextet n) ≡ n
unfolding value_of sextet
value_of-sextet n h = ground arith

sextet-ne : (n : ℕ) → sextet n ≢ b'='
unfolding sextet
sextet-ne n e = ground arith

-- The characters with no padding.
unfoldable pub plain64 : Bytes → Text
plain64 [] = []
plain64 (a ∷ []) = sextet (a / 4) ∷ sextet (a % 4 * 16) ∷ []
plain64 (a ∷ b ∷ []) = sextet (a / 4) ∷ sextet (a % 4 * 16 + b / 16) ∷ sextet (b % 16 * 4) ∷ []
plain64 (a ∷ b ∷ c ∷ rest) =
    sextet (a / 4)
    ∷ sextet (a % 4 * 16 + b / 16)
    ∷ sextet (b % 16 * 4 + c / 64)
    ∷ sextet (c % 64)
    ∷ plain64 rest

padding : Bytes → Text
padding [] = []
padding (a ∷ []) = b'=' ∷ b'=' ∷ []
padding (a ∷ b ∷ []) = b'=' ∷ []
padding (a ∷ b ∷ c ∷ rest) = padding rest

urlsafe_b64encode-plain64 : (bs : Bytes) → urlsafe_b64encode bs ≡ plain64 bs ++ padding bs
unfolding urlsafe_b64encode plain64 padding
urlsafe_b64encode-plain64 [] = refl
urlsafe_b64encode-plain64 (a ∷ []) = refl
urlsafe_b64encode-plain64 (a ∷ b ∷ []) = refl
urlsafe_b64encode-plain64 (a ∷ b ∷ c ∷ rest) =
    ap
      (λ t.
        sextet (a / 4)
        ∷ sextet (a % 4 * 16 + b / 16)
        ∷ sextet (b % 16 * 4 + c / 64)
        ∷ sextet (c % 64)
        ∷ t)
      (urlsafe_b64encode-plain64 rest)

plain64-All : (bs : Bytes) → All (λ c. c ≢ b'=') (plain64 bs)
unfolding plain64
plain64-All [] = tt
plain64-All (a ∷ []) = (sextet-ne _, (sextet-ne _, tt))
plain64-All (a ∷ b ∷ []) = (sextet-ne _, (sextet-ne _, (sextet-ne _, tt)))
plain64-All (a ∷ b ∷ c ∷ rest) =
    (sextet-ne _, (sextet-ne _, (sextet-ne _, (sextet-ne _, plain64-All rest))))

lstrip_char-All : (x : ℕ) (s : Text) → All (λ c. c ≢ x) s → lstrip_char x s ≡ s
unfolding lstrip_char
lstrip_char-All x [] h = refl
lstrip_char-All x (c ∷ s) (h, hs) = ground arith

rstrip_char-All : (x : ℕ) (s : Text) → All (λ c. c ≢ x) s → rstrip_char x s ≡ s
unfolding rstrip_char
rstrip_char-All x s h =
    ap reverse (lstrip_char-All x (reverse s) (All-reverse (λ c. c ≢ x) s h)) ∙ reverse-reverse s

lstrip_char-same : (x : ℕ) (s : Text) → lstrip_char x (x ∷ s) ≡ lstrip_char x s
unfolding lstrip_char
lstrip_char-same x s = ground arith

rstrip_char-append : (x : ℕ) (s : Text) → rstrip_char x (s ++ x ∷ []) ≡ rstrip_char x s
unfolding rstrip_char
rstrip_char-append x s =
    ap (λ t. reverse (lstrip_char x t)) (reverse-append s (x ∷ []))
    ∙ ap reverse (lstrip_char-same x (reverse s))

rstrip_char-padding :
    (s : Text) (bs : Bytes) → rstrip_char b'=' (s ++ padding bs) ≡ rstrip_char b'=' s
unfolding padding
rstrip_char-padding s [] = ap (rstrip_char b'=') (append-nil s)
rstrip_char-padding s (a ∷ []) =
    ap (rstrip_char b'=') (sym (append_assoc s (b'=' ∷ []) (b'=' ∷ [])))
    ∙ rstrip_char-append b'=' (s ++ b'=' ∷ [])
    ∙ rstrip_char-append b'=' s
rstrip_char-padding s (a ∷ b ∷ []) = rstrip_char-append b'=' s
rstrip_char-padding s (a ∷ b ∷ c ∷ rest) = rstrip_char-padding s rest

pub b64url-plain64 : (bs : Bytes) → b64url bs ≡ plain64 bs
unfolding b64url
b64url-plain64 bs =
    ap (rstrip_char b'=') (urlsafe_b64encode-plain64 bs)
    ∙ rstrip_char-padding (plain64 bs) bs
    ∙ rstrip_char-All b'=' (plain64 bs) (plain64-All bs)

first_byte : (a b : ℕ) → IsByte b → a / 4 * 4 + (a % 4 * 16 + b / 16) / 16 ≡ a
first_byte a b h = omega arith

second_byte :
    (a b c : ℕ)
    → IsByte b
    → IsByte c
    → (a % 4 * 16 + b / 16) % 16 * 16 + (b % 16 * 4 + c / 64) / 4 ≡ b
second_byte a b c h h' = omega arith

third_byte : (b c : ℕ) → IsByte c → (b % 16 * 4 + c / 64) % 4 * 64 + c % 64 ≡ c
third_byte b c h = omega arith

decode64-plain64 : (bs : Bytes) → All IsByte bs → decode64 (plain64 bs) ≡ bs
unfolding decode64 plain64
decode64-plain64 [] h = refl
decode64-plain64 (a ∷ []) (h, _) =
    rw (value_of-sextet (a / 4) (omega arith), value_of-sextet (a % 4 * 16) (omega arith))
      (ap (λ x. x ∷ []) (omega arith))
decode64-plain64 (a ∷ b ∷ []) (h, (h', _)) =
    rw
      (
        value_of-sextet (a / 4) (omega arith),
        value_of-sextet (a % 4 * 16 + b / 16) (omega arith),
        value_of-sextet (b % 16 * 4) (omega arith),
        first_byte a b h',
      )
      (ap (λ x. a ∷ x ∷ []) (omega arith))
decode64-plain64 (a ∷ b ∷ c ∷ rest) (h, (h', (h2, hs))) =
    rw
      (
        value_of-sextet (a / 4) (omega arith),
        value_of-sextet (a % 4 * 16 + b / 16) (omega arith),
        value_of-sextet (b % 16 * 4 + c / 64) (omega arith),
        value_of-sextet (c % 64) (omega arith),
        first_byte a b h',
        second_byte a b c h' h2,
        third_byte b c h2,
        decode64-plain64 rest hs,
      )
      refl

-- What `_b64url` makes of bytes decodes to them.
pub decode64-b64url : (bs : Bytes) → All IsByte bs → decode64 (b64url bs) ≡ bs
decode64-b64url bs h = ap decode64 (b64url-plain64 bs) ∙ decode64-plain64 bs h
