-- ===== src/Ports/Ts.antt =====
-- ts/src/spiffeId.ts: `SpiffeId.parse`. A JavaScript string is the list of its UTF-16 code units.
pub mod Parsing
pub mod Document
use spiffile.Prelude.{
  ℕ, zero, suc, Text, codes, Bool, true, false, ◌||◌, ◌&&◌, not, Option, none, some, List, [], ◌∷◌,
  ◌++◌, leb, nat_eq, text_eq, all, strip_prefix, split, if◌then◌else◌,
}
use spiffile.Errors.{
  invalid_spiffe_id, missing_scheme, empty_trust_domain, trust_domain_chars, trailing_slash,
  empty_segment, segment_chars, relative_segment, Result, ok, raise, ◌>>◌, ◌>>=◌,
}
use spiffile.SpiffeId.{SpiffeId}

abbrev pub next_index : Option ℕ → Option ℕ
next_index none = none
next_index (some i) = some (suc i)

-- `s.indexOf(c)`, where `none` is -1.
unfoldable pub index_of : ℕ → Text → Option ℕ
index_of c [] = none
index_of c (d ∷ s) = let rest = index_of c s in if nat_eq d c then some 0 else next_index rest

-- `s.slice(0, i)` and `s.slice(i)`
unfoldable pub slice_to : ℕ → Text → Text
slice_to zero s = []
slice_to (suc i) [] = []
slice_to (suc i) (c ∷ s) = c ∷ slice_to i s

unfoldable pub slice_from : ℕ → Text → Text
slice_from zero s = s
slice_from (suc i) [] = []
slice_from (suc i) (c ∷ s) = slice_from i s

abbrev in_range : ℕ → ℕ → ℕ → Bool
in_range low high c = leb low c && leb c high

-- The classes `[a-z0-9._-]` and `[a-zA-Z0-9._-]`.
unfoldable pub in_domain_class : ℕ → Bool
in_domain_class c =
    in_range b'a' b'z' c || in_range b'0' b'9' c || nat_eq c b'.' || nat_eq c b'_' || nat_eq c b'-'

unfoldable pub in_segment_class : ℕ → Bool
in_segment_class c = in_range b'A' b'Z' c || in_domain_class c

-- `/^[…]+$/.test(s)`
unfoldable pub matches : (ℕ → Bool) → Text → Bool
matches in_class [] = false
matches in_class (c ∷ s) = in_class c && all in_class s

-- `s.startsWith(prefix)`
unfoldable pub starts_with : Text → Text → Bool
starts_with [] s = true
starts_with (a ∷ prefix) [] = false
starts_with (a ∷ prefix) (b ∷ s) = nat_eq a b && starts_with prefix s

-- The loop over `path.split("/")`.
unfoldable pub check_parts : List Text → Result (Unit {0})
unfolding matches in_segment_class
check_parts [] = ok tt
check_parts (segment ∷ segments) =
    let rest = check_parts segments in
    if text_eq segment []
    then raise (invalid_spiffe_id empty_segment)
    else if text_eq segment (codes ".") || text_eq segment (codes "..")
    then raise (invalid_spiffe_id (relative_segment segment))
    else if not (matches in_segment_class segment)
    then raise (invalid_spiffe_id segment_chars)
    else rest

-- `trustDomain` and `path`, for the `slashIndex`; `none` is `null`.
unfoldable pub cut_at : Text → Option ℕ → Text × Option Text
unfolding slice_to slice_from
cut_at rest none = (rest, none)
cut_at rest (some i) = (slice_to i rest, some (slice_from (suc i) rest))

-- `if (path !== null) { … }`
unfoldable pub check_optional : Option Text → Result (Unit {0})
unfolding check_parts
check_optional none = ok tt
check_optional (some path) =
    if text_eq path []
    then raise (invalid_spiffe_id trailing_slash)
    else check_parts (split b'/' path)

abbrev path_text : Option Text → Text
path_text none = []
path_text (some path) = codes "/" ++ path

-- `SpiffeId.parse` from the tests of `trustDomain` on.
unfoldable pub parse_parts : Text × Option Text → Result SpiffeId
unfolding check_optional matches in_domain_class
parse_parts (trust_domain, path) =
    if text_eq trust_domain []
    then raise (invalid_spiffe_id empty_trust_domain)
    else if not (matches in_domain_class trust_domain)
    then raise (invalid_spiffe_id trust_domain_chars)
    else check_optional path >> ok (record { trust_domain = trust_domain; path = path_text path })

abbrev scheme_length : ℕ
scheme_length = 9

-- `SpiffeId.parse`
unfoldable pub parse_units : Text → Result SpiffeId
unfolding parse_parts cut_at index_of starts_with
parse_units value =
    if not (starts_with (codes "spiffe://") value)
    then raise (invalid_spiffe_id missing_scheme)
    else let rest = slice_from scheme_length value in parse_parts (cut_at rest (index_of b'/' rest))
