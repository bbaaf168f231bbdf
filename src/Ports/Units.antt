-- ===== src/Ports/Units.antt =====
-- UTF-16, as the TypeScript code (ts/src) sees a text of the Python code.
use spiffile.Prelude.{
  ℕ, ◌+◌, ◌-◌, ◌/◌, ◌%◌, ◌<◌, ◌≤◌, Text, List, [], ◌∷◌, ◌++◌, ltb, if◌then◌else◌, ◌≡◌, refl, ap,
  ◌∙◌, arith, All, ◌⊎◌, inl, inr, Bool-cases, join_behind,
}
use spiffile.Prelude.Stripping.{All-append}
use spiffile.SpiffeId.{SpiffeId, to_str, scheme}
use spiffile.SpiffeId.Grammar.{IsValid, IsTrustDomainChar, IsSegmentChar, IsSegment}

-- The code units of a code point.
unfoldable pub units : ℕ → Text
units c =
    if ltb c 0x10000
    then c ∷ []
    else (0xd800 + (c - 0x10000) / 0x400) ∷ (0xdc00 + (c - 0x10000) % 0x400) ∷ []

unfoldable pub utf16 : Text → Text
unfolding units
utf16 [] = []
utf16 (c ∷ s) = units c ++ utf16 s

-- Below this, a code point is a code unit, and a code unit is a code point.
abbrev pub IsNarrow : ℕ → Type 0
IsNarrow c = c < 0xd800

pub utf16-IsNarrow : (s : Text) → All IsNarrow s → utf16 s ≡ s
unfolding utf16 units
utf16-IsNarrow [] h = refl
utf16-IsNarrow (c ∷ s) (h, hs) = ground (arith, utf16-IsNarrow s hs)

utf16_cases :
    (c : ℕ) (s : Text)
    → ((utf16 (c ∷ s) ≡ c ∷ utf16 s)
        ⊎ ((u : ℕ) × (rest : Text) × (utf16 (c ∷ s) ≡ u ∷ rest) × (0xd800 ≤ u)))
unfolding utf16 units
utf16_cases c s = elim (Bool-cases (ltb c 0x10000)) [
  | inl e ↦ inl (rw e refl)
  | inr e ↦ inr (
    0xd800 + (c - 0x10000) / 0x400,
    (0xdc00 + (c - 0x10000) % 0x400) ∷ utf16 s,
    rw e refl,
    omega arith,
  )
]

pub IsNarrow-utf16 : (s : Text) → All IsNarrow (utf16 s) → utf16 s ≡ s
IsNarrow-utf16 [] h = unfold utf16 in refl
IsNarrow-utf16 (c ∷ s) h = elim (utf16_cases c s) [
  | inl e ↦ let (_, hs) = rw e at h in e ∙ ap (◌∷◌ c) (IsNarrow-utf16 s hs)
  | inr (u, rest, e, wide) ↦ let (narrow, _) = rw e at h in ground arith
]

-- The text of an ID has ASCII characters alone.
domain-IsNarrow : (s : Text) → All IsTrustDomainChar s → All IsNarrow s
domain-IsNarrow [] h = tt
domain-IsNarrow (c ∷ s) (h, hs) = (ground arith, domain-IsNarrow s hs)

segment-IsNarrow : (s : Text) → All IsSegmentChar s → All IsNarrow s
segment-IsNarrow [] h = tt
segment-IsNarrow (c ∷ s) (h, hs) = (ground arith, segment-IsNarrow s hs)

segments-IsNarrow : (ss : List Text) → All IsSegment ss → All IsNarrow (join_behind b'/' ss)
segments-IsNarrow [] h = tt
segments-IsNarrow (s ∷ ss) (h, hs) =
    (omega arith, All-append IsNarrow s _ (segment-IsNarrow s h.chars) (segments-IsNarrow ss hs))

scheme-IsNarrow : All IsNarrow scheme
scheme-IsNarrow = (
  omega arith,
  (
    omega arith,
    (
      omega arith,
      (omega arith, (omega arith, (omega arith, (omega arith, (omega arith, (omega arith, tt)))))),
    ),
  ),
)

pub to_str-IsNarrow : (id : SpiffeId) → IsValid id → All IsNarrow (to_str id)
unfolding to_str
to_str-IsNarrow id valid = All-append IsNarrow scheme _ scheme-IsNarrow (
    All-append IsNarrow id.trust_domain _ (domain-IsNarrow id.trust_domain valid.domain.chars)
      (rw valid.path_is (segments-IsNarrow valid.segments valid.each)))
