-- ===== src/Ports/Go.antt =====
-- go/spiffeid.go: `ParseSpiffeID`. A Go string is the list of its runes, for a string that is valid
-- UTF-8; what stands between "/" is the same for bytes and for runes.
pub mod Parsing
use spiffile.Prelude.{
  ℕ, Text, codes, Bool, true, false, ◌||◌, ◌&&◌, not, Option, none, some, List, [], ◌∷◌, ◌++◌, leb,
  nat_eq, text_eq, strip_prefix, partition, split, if◌then◌else◌,
}
use spiffile.Errors.{
  invalid_spiffe_id, IdFault, missing_scheme, empty_trust_domain, trust_domain_chars,
  trailing_slash, empty_segment, segment_chars, relative_segment, Result, ok, raise, require, ◌>>◌,
}
use spiffile.SpiffeId.{SpiffeId}

abbrev between : ℕ → ℕ → ℕ → Bool
between low high r = leb low r && leb r high

-- `isTrustDomainChar`
unfoldable pub is_domain_rune : ℕ → Bool
is_domain_rune r =
    between b'a' b'z' r || between b'0' b'9' r || nat_eq r b'.' || nat_eq r b'_' || nat_eq r b'-'

-- `isPathSegmentChar`
unfoldable pub is_segment_rune : ℕ → Bool
is_segment_rune r =
    between b'a' b'z' r
    || between b'A' b'Z' r
    || between b'0' b'9' r
    || nat_eq r b'.'
    || nat_eq r b'_'
    || nat_eq r b'-'

-- `for _, r := range s { if !valid(r) { return … } }`
unfoldable pub check_runes : (ℕ → Bool) → IdFault → Text → Result (Unit {0})
check_runes valid fault [] = ok tt
check_runes valid fault (r ∷ s) =
    let rest = check_runes valid fault s in
    if valid r then rest else raise (invalid_spiffe_id fault)

-- The loop over `strings.Split(path, "/")`.
unfoldable pub check_pieces : List Text → Result (Unit {0})
unfolding check_runes is_segment_rune
check_pieces [] = ok tt
check_pieces (segment ∷ segments) =
    let rest = check_pieces segments in
    if text_eq segment []
    then raise (invalid_spiffe_id empty_segment)
    else if text_eq segment (codes ".") || text_eq segment (codes "..")
    then raise (invalid_spiffe_id (relative_segment segment))
    else check_runes is_segment_rune segment_chars segment >> rest

-- `if hasPath { … }`
unfoldable pub check_behind : Text → Bool → Result (Unit {0})
unfolding check_pieces
check_behind path false = ok tt
check_behind path true =
    if text_eq path []
    then raise (invalid_spiffe_id trailing_slash)
    else check_pieces (split b'/' path)

-- `ParseSpiffeID` from `strings.Cut` on.
unfoldable pub parse_cut : Text × Bool × Text → Result SpiffeId
unfolding check_runes is_domain_rune check_behind
parse_cut (trust_domain, has_path, path) =
    if text_eq trust_domain [] then raise (invalid_spiffe_id empty_trust_domain) else do
      check_runes is_domain_rune trust_domain_chars trust_domain
      check_behind path has_path
      ok (record { trust_domain = trust_domain; path = if has_path then codes "/" ++ path else [] })

-- `ParseSpiffeID`
unfoldable pub parse_spiffe_id : Text → Result SpiffeId
unfolding parse_cut
parse_spiffe_id value = elim (strip_prefix (codes "spiffe://") value) [
  | none ↦ raise (invalid_spiffe_id missing_scheme)
  | some rest ↦ parse_cut (partition b'/' rest)
]
