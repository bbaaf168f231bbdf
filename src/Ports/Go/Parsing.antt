-- ===== src/Ports/Go/Parsing.antt =====
-- `ParseSpiffeID` of go/spiffeid.go against `SpiffeId.parse` of python/src/spiffile/spiffe_id.py,
-- test by test.
use spiffile.Prelude.{
  ℕ, Text, codes, Bool, true, false, ◌||◌, List, [], ◌∷◌, ◌≡◌, refl, arith, text_eq, all,
  strip_prefix, partition, split, Option-cases, inl, inr,
}
use spiffile.Errors.{invalid_spiffe_id, IdFault, trust_domain_chars, segment_chars, require}
use spiffile.SpiffeId.{
  parse_text, parse_rest, check_path, check_segments, check_segment, is_trust_domain_char,
  is_segment_char, scheme,
}
use spiffile.SpiffeId.Grammar.{is_trust_domain_char_iff, is_segment_char_iff}
use spiffile.Ports.Tests.{same_test, in_order, two_tests}
use spiffile.Ports.Go

-- The tests of the characters are those of the Python code.
is_domain_rune-char : (r : ℕ) → Go.is_domain_rune r ≡ is_trust_domain_char r
unfolding Go.is_domain_rune
is_domain_rune-char r =
    same_test _ _ (λ h. ground arith, λ h. ground arith) (is_trust_domain_char_iff r)

is_segment_rune-char : (r : ℕ) → Go.is_segment_rune r ≡ is_segment_char r
unfolding Go.is_segment_rune
is_segment_rune-char r =
    same_test _ _ (λ h. ground arith, λ h. ground arith) (is_segment_char_iff r)

-- The loop over the runes of a text.
check_runes-all :
    (valid char : ℕ → Bool) (fault : IdFault) (s : Text)
    → ((r : ℕ) → valid r ≡ char r)
    → Go.check_runes valid fault s ≡ require (all char s) (invalid_spiffe_id fault)
unfolding Go.check_runes all
check_runes-all valid char fault [] same = refl
check_runes-all valid char fault (r ∷ s) same =
    ground (arith, same r, check_runes-all valid char fault s same)

check_segment-runes :
    (s : Text)
    → Go.check_runes Go.is_segment_rune segment_chars s
      ≡ require (all is_segment_char s) (invalid_spiffe_id segment_chars)
check_segment-runes s =
    check_runes-all Go.is_segment_rune is_segment_char segment_chars s is_segment_rune-char

check_pieces-check_segments : (ss : List Text) → Go.check_pieces ss ≡ check_segments ss
unfolding Go.check_pieces check_segments check_segment text_eq
check_pieces-check_segments [] = refl
check_pieces-check_segments ([] ∷ ss) = refl
check_pieces-check_segments ((c ∷ s) ∷ ss) =
    rw (check_pieces-check_segments ss, check_segment-runes (c ∷ s))
      (two_tests (text_eq (c ∷ s) (codes ".") || text_eq (c ∷ s) (codes "..")) _
        (require (all is_segment_char (c ∷ s)) (invalid_spiffe_id segment_chars))
        (check_segments ss))

check_behind-check_path :
    (path : Text) (slash : Bool) → Go.check_behind path slash ≡ check_path slash path
unfolding Go.check_behind check_path text_eq
check_behind-check_path path false = refl
check_behind-check_path [] true = refl
check_behind-check_path (c ∷ path) true = check_pieces-check_segments (split b'/' (c ∷ path))

parse_cut-parse_rest : (parts : Text × Bool × Text) → Go.parse_cut parts ≡ parse_rest parts
unfolding Go.parse_cut parse_rest text_eq
parse_cut-parse_rest ([], slash, path) = refl
parse_cut-parse_rest (c ∷ td, slash, path) =
    rw
      (
        check_runes-all Go.is_domain_rune is_trust_domain_char trust_domain_chars (c ∷ td)
            is_domain_rune-char,
        check_behind-check_path path slash,
      )
      (in_order (require (all is_trust_domain_char (c ∷ td)) (invalid_spiffe_id trust_domain_chars))
        (check_path slash path) _)

pub go_parse : (t : Text) → Go.parse_spiffe_id t ≡ parse_text t
unfolding Go.parse_spiffe_id parse_text strip_prefix
go_parse t = elim (Option-cases (strip_prefix scheme t)) [
  | inl e ↦ rw e refl
  | inr (rest, e) ↦ rw e (parse_cut-parse_rest (partition b'/' rest))
]
