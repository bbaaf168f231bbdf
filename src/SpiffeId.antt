-- ===== src/SpiffeId.antt =====
-- python/src/spiffile/spiffe_id.py: parsing, validation and printing of SPIFFE IDs. The grammar
-- that they accept is in the children.
pub mod Grammar
pub mod Parsing
pub mod Faults
use spiffile.Prelude.{
  ℕ, Text, codes, Bool, true, false, ◌||◌, not, none, some, List, [], ◌∷◌, ◌++◌, nat_eq, text_eq,
  text_Eq, all, strip_prefix, partition, split, if◌then◌else◌,
}
use spiffile.Prelude.Value.{Value, str}
use spiffile.Errors.{
  invalid_spiffe_id, missing_scheme, empty_trust_domain, trust_domain_chars, trailing_slash,
  empty_segment, segment_chars, relative_segment, Result, ok, raise, require, ◌>>◌,
}

-- `_SCHEME`
abbrev pub scheme : Text
scheme = codes "spiffe://"

-- `c in s`
abbrev pub contains : Text → ℕ → Bool
contains [] c = false
contains (d ∷ s) c = nat_eq c d || contains s c

abbrev pub lowercase : Text
lowercase = codes "abcdefghijklmnopqrstuvwxyz"

abbrev pub uppercase : Text
uppercase = codes "ABCDEFGHIJKLMNOPQRSTUVWXYZ"

abbrev pub digits : Text
digits = codes "0123456789"

-- `_TRUST_DOMAIN_CHARS` and `_PATH_SEGMENT_CHARS`, as tests of a character.
unfoldable pub is_trust_domain_char : ℕ → Bool
is_trust_domain_char = contains (lowercase ++ digits ++ codes "._-")

unfoldable pub is_segment_char : ℕ → Bool
is_segment_char = contains (lowercase ++ uppercase ++ digits ++ codes "._-")

pub record SpiffeId : Type 0 where
  pub trust_domain : Text
  -- empty, or begins with "/"
  pub path : Text

abbrev pub is_empty : Text → Bool
is_empty [] = true
is_empty (_ ∷ _) = false

-- The body of the loop over `path.split("/")`.
unfoldable pub check_segment : Text → Result (Unit {0})
check_segment segment = do
  require (not (is_empty segment)) (invalid_spiffe_id empty_segment)
  require (not (text_eq segment (codes ".") || text_eq segment (codes "..")))
      (invalid_spiffe_id (relative_segment segment))
  require (all is_segment_char segment) (invalid_spiffe_id segment_chars)

unfoldable pub check_segments : List Text → Result (Unit {0})
check_segments [] = ok tt
check_segments (segment ∷ segments) = do check_segment segment; check_segments segments

-- `if slash: …`
unfoldable pub check_path : Bool → Text → Result (Unit {0})
check_path false path = ok tt
check_path true path = do
  require (not (is_empty path)) (invalid_spiffe_id trailing_slash)
  check_segments (split b'/' path)

-- What follows the scheme, split at its first "/".
unfoldable pub parse_rest : Text × Bool × Text → Result SpiffeId
parse_rest (trust_domain, slash, path) = do
  require (not (is_empty trust_domain)) (invalid_spiffe_id empty_trust_domain)
  require (all is_trust_domain_char trust_domain) (invalid_spiffe_id trust_domain_chars)
  check_path slash path
  ok (record { trust_domain = trust_domain; path = if slash then b'/' ∷ path else [] })

unfoldable pub parse_text : Text → Result SpiffeId
parse_text value = elim (strip_prefix scheme value) [
  | none ↦ raise (invalid_spiffe_id missing_scheme)
  | some rest ↦ parse_rest (partition b'/' rest)
]

-- `SpiffeId.parse`: what is no text has no scheme.
unfoldable pub parse : Value → Result SpiffeId
parse (str value) = parse_text value
parse _ = raise (invalid_spiffe_id missing_scheme)

-- `SpiffeId.__str__`
unfoldable pub to_str : SpiffeId → Text
to_str id = scheme ++ (id.trust_domain ++ id.path)
