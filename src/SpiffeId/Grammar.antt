-- ===== src/SpiffeId/Grammar.antt =====
-- The SPIFFE ID grammar that python/src/spiffile/spiffe_id.py accepts, with no reference to how it
-- is parsed.
use spiffile.Prelude.{
  ℕ, ◌≤◌, Text, codes, true, ◌↔◌, ◌⊎◌, List, [], ◌∷◌, ◌≡◌, ◌≢◌, refl, arith, all, All, Lacks,
  join_behind,
}
use spiffile.SpiffeId.{SpiffeId, is_trust_domain_char, is_segment_char}

abbrev pub IsLower : ℕ → Type 0
IsLower c = (b'a' ≤ c) × (c ≤ b'z')

abbrev pub IsUpper : ℕ → Type 0
IsUpper c = (b'A' ≤ c) × (c ≤ b'Z')

abbrev pub IsDigit : ℕ → Type 0
IsDigit c = (b'0' ≤ c) × (c ≤ b'9')

abbrev pub IsMark : ℕ → Type 0
IsMark c = (c ≡ b'.') ⊎ (c ≡ b'_') ⊎ (c ≡ b'-')

abbrev pub IsTrustDomainChar : ℕ → Type 0
IsTrustDomainChar c = IsLower c ⊎ IsDigit c ⊎ IsMark c

abbrev pub IsSegmentChar : ℕ → Type 0
IsSegmentChar c = IsLower c ⊎ IsUpper c ⊎ IsDigit c ⊎ IsMark c

pub is_trust_domain_char_iff : (c : ℕ) → (is_trust_domain_char c ≡ true) ↔ IsTrustDomainChar c
unfolding is_trust_domain_char
is_trust_domain_char_iff c = (λ h. ground arith, λ h. ground arith)

pub is_segment_char_iff : (c : ℕ) → (is_segment_char c ≡ true) ↔ IsSegmentChar c
unfolding is_segment_char
is_segment_char_iff c = (λ h. ground arith, λ h. ground arith)

pub record IsDomain (s : Text) : Type 0 where
  pub nonempty : s ≢ []
  pub chars : All IsTrustDomainChar s

pub record IsSegment (s : Text) : Type 0 where
  pub nonempty : s ≢ []
  pub not_dot : s ≢ codes "."
  pub not_dot_dot : s ≢ codes ".."
  pub chars : All IsSegmentChar s

-- A trust domain, and a path that is a "/" before each of some segments, perhaps none.
pub record IsValid (id : SpiffeId) : Type 0 where
  pub domain : IsDomain id.trust_domain
  pub segments : List Text
  pub path_is : id.path ≡ join_behind b'/' segments
  pub each : All IsSegment segments

pub all-IsTrustDomainChar :
    (s : Text) → (all is_trust_domain_char s ≡ true) ↔ All IsTrustDomainChar s
unfolding all
all-IsTrustDomainChar [] = (λ h. tt, λ h. refl)
all-IsTrustDomainChar (c ∷ s) = ground (arith, is_trust_domain_char_iff c, all-IsTrustDomainChar s)

pub all-IsSegmentChar : (s : Text) → (all is_segment_char s ≡ true) ↔ All IsSegmentChar s
unfolding all
all-IsSegmentChar [] = (λ h. tt, λ h. refl)
all-IsSegmentChar (c ∷ s) = ground (arith, is_segment_char_iff c, all-IsSegmentChar s)

-- No part of an ID holds the separator.
pub IsTrustDomainChar-Lacks : (s : Text) → All IsTrustDomainChar s → Lacks b'/' s
IsTrustDomainChar-Lacks [] h = tt
IsTrustDomainChar-Lacks (c ∷ s) (h, hs) = (ground arith, IsTrustDomainChar-Lacks s hs)

pub IsSegmentChar-Lacks : (s : Text) → All IsSegmentChar s → Lacks b'/' s
IsSegmentChar-Lacks [] h = tt
IsSegmentChar-Lacks (c ∷ s) (h, hs) = (ground arith, IsSegmentChar-Lacks s hs)

pub IsSegment-Lacks : (ss : List Text) → All IsSegment ss → All (Lacks b'/') ss
IsSegment-Lacks [] h = tt
IsSegment-Lacks (s ∷ ss) (h, hs) = (IsSegmentChar-Lacks s h.chars, IsSegment-Lacks ss hs)
