-- ===== src/SpiffeId/Faults.antt =====
-- What each error of `SpiffeId.parse` (python/src/spiffile/spiffe_id.py) says of the text.
use spiffile.Prelude.{
  Text, codes, Bool, true, false, ◌⊎◌, inl, inr, List, [], ◌∷◌, ◌++◌, ◌≡◌, ◌≢◌, refl, sym, ap, ◌∙◌,
  arith, text_eq, text_eq_iff, Option-cases, Bool-cases, strip_prefix, strip_prefix_sound,
  strip_prefix-append, partition, partition_sound, partition-none, partition-Lacks_before, split,
  join_behind, split_sound, split-Lacks, All, Lacks, all, if◌then◌else◌,
}
use spiffile.Prelude.Value.{Value, str}
use spiffile.Errors.{
  Exn, invalid_spiffe_id, IdFault, missing_scheme, empty_trust_domain, trust_domain_chars,
  trailing_slash, empty_segment, segment_chars, relative_segment, raise, Result-cases,
  >>=-ok-eq-raise,
}
use spiffile.SpiffeId.{
  SpiffeId, scheme, check_segment, check_segments, check_path, parse_rest, parse_text, parse,
  is_trust_domain_char,
}
use spiffile.SpiffeId.Grammar.{
  IsDomain, IsSegment, IsTrustDomainChar, IsSegmentChar, all-IsTrustDomainChar, all-IsSegmentChar,
}
use spiffile.SpiffeId.Parsing.{check_segment-IsSegment, unpartition-eq}

-- What is wrong with a segment.
abbrev pub IsSegmentFault : Text → IdFault → Type 0
IsSegmentFault s f =
    ((f ≡ empty_segment) × (s ≡ []))
    ⊎ ((f ≡ relative_segment s) × ((s ≡ codes ".") ⊎ (s ≡ codes "..")))
    ⊎ ((f ≡ segment_chars) × (¬ All IsSegmentChar s))

-- The end of the text, or a "/" and what follows.
abbrev pub IsTail : Text → Type 0
IsTail tail = (tail ≡ []) ⊎ ((path : Text) × (tail ≡ b'/' ∷ path))

-- What is wrong with a value: the first part of it that the grammar does not allow. A segment is
-- what stands between two slashes, or behind the last.
pub data IsFault (v : Value) : IdFault → Type 0 where
  no_scheme :
      {f : IdFault} → f ≡ missing_scheme → ((rest : Text) → v ≢ str (scheme ++ rest)) → IsFault v f
  no_domain :
      {f : IdFault} (tail : Text)
      → f ≡ empty_trust_domain
      → v ≡ str (scheme ++ tail)
      → IsTail tail
      → IsFault v f
  bad_domain :
      {f : IdFault} (td tail : Text)
      → f ≡ trust_domain_chars
      → v ≡ str (scheme ++ (td ++ tail))
      → IsTail tail
      → Lacks b'/' td
      → ¬ All IsTrustDomainChar td
      → IsFault v f
  ends_in_slash :
      {f : IdFault} (td : Text)
      → f ≡ trailing_slash
      → v ≡ str (scheme ++ (td ++ codes "/"))
      → IsDomain td
      → IsFault v f
  bad_segment :
      {f : IdFault} (td : Text) (before : List Text) (segment : Text) (after : List Text)
      → v ≡ str (scheme ++ (td ++ join_behind b'/' (before ++ segment ∷ after)))
      → IsDomain td
      → All IsSegment before
      → All (Lacks b'/') (segment ∷ after)
      → IsSegmentFault segment f
      → IsFault v f

check_segment-IsSegmentFault :
    (s : Text) (e : Exn)
    → check_segment s ≡ raise e
    → (f : IdFault) × (e ≡ invalid_spiffe_id f) × IsSegmentFault s f
unfolding check_segment
check_segment-IsSegmentFault [] e h = (empty_segment, ground arith, inl (refl, refl))
check_segment-IsSegmentFault (c ∷ s) e h = elim (Bool-cases (text_eq (c ∷ s) (codes "."))) [
  | inl one ↦ (
    relative_segment (c ∷ s),
    ground arith,
    inr (inl (refl, inl ((text_eq_iff (c ∷ s) (codes ".")).0 one))),
  )
  | inr not_one ↦ elim (Bool-cases (text_eq (c ∷ s) (codes ".."))) [
    | inl two ↦ (
      relative_segment (c ∷ s),
      ground arith,
      inr (inl (refl, inr ((text_eq_iff (c ∷ s) (codes "..")).0 two))),
    )
    | inr not_two ↦ (
      segment_chars,
      ground arith,
      inr (inr (refl, λ a. ground (arith, all-IsSegmentChar (c ∷ s)))),
    )
  ]
]

record Stops (ss : List Text) (e : Exn) : Type 0 where
  before : List Text
  segment : Text
  after : List Text
  fault : IdFault
  is_split : ss ≡ before ++ segment ∷ after
  passed : All IsSegment before
  lacks : All (Lacks b'/') (segment ∷ after)
  raised : e ≡ invalid_spiffe_id fault
  is_fault : IsSegmentFault segment fault

check_segments-Stops :
    (ss : List Text) (e : Exn) → All (Lacks b'/') ss → check_segments ss ≡ raise e → Stops ss e
unfolding check_segments
check_segments-Stops [] e l h = ground arith
check_segments-Stops (s ∷ ss) e l h = elim (Result-cases (check_segment s)) [
  | inl (_, passed) ↦
      let rest = check_segments-Stops ss e l.1 (ground arith) in
      record {
        before = s ∷ rest.before;
        segment = rest.segment;
        after = rest.after;
        fault = rest.fault;
        is_split = ap (◌∷◌ s) rest.is_split;
        passed = ((check_segment-IsSegment s).0 passed, rest.passed);
        lacks = rest.lacks;
        raised = rest.raised;
        is_fault = rest.is_fault;
      }
  | inr (x, stops) ↦
      let (f, raised, is_fault) = check_segment-IsSegmentFault s e (ground arith) in
      record {
        before = [];
        segment = s;
        after = ss;
        fault = f;
        is_split = refl;
        passed = tt;
        lacks = l;
        raised = raised;
        is_fault = is_fault;
      }
]

behind-IsTail : (slash : Bool) (path : Text) → IsTail (if slash then b'/' ∷ path else [])
behind-IsTail true path = inr (path, refl)
behind-IsTail false path = inl refl

abbrev parsed : Text → Bool → Text → SpiffeId
parsed td slash path = record { trust_domain = td; path = if slash then b'/' ∷ path else [] }

-- The part of `IsFault` behind the scheme, for a text that `partition` has taken apart.
abbrev Explained : Text → Bool → Text → Exn → Type 0
Explained td slash path e =
    (f : IdFault) × (e ≡ invalid_spiffe_id f)
    × IsFault (str (scheme ++ (td ++ (if slash then b'/' ∷ path else [])))) f

check_path-Explained :
    (td : Text) (slash : Bool) (path : Text) (e : Exn)
    → IsDomain td
    → check_path slash path ≡ raise e
    → Explained td slash path e
unfolding check_path
check_path-Explained td false path e d h = ground arith
check_path-Explained td true [] e d h = (trailing_slash, ground arith, ends_in_slash td refl refl d)
check_path-Explained td true (c ∷ path) e d h =
    let stops = check_segments-Stops (split b'/' (c ∷ path)) e (split-Lacks b'/' (c ∷ path)) h in
    (
      stops.fault,
      stops.raised,
      bad_segment td stops.before stops.segment stops.after
          (ap (λ t. str (scheme ++ (td ++ t)))
            (sym (split_sound b'/' (c ∷ path)) ∙ ap (join_behind b'/') stops.is_split))
          d stops.passed stops.lacks stops.is_fault,
    )

parse_rest-Explained :
    (td : Text) (slash : Bool) (path : Text) (e : Exn)
    → Lacks b'/' td
    → parse_rest (td, slash, path) ≡ raise e
    → Explained td slash path e
unfolding parse_rest
parse_rest-Explained [] slash path e l h =
    (empty_trust_domain, ground arith, no_domain _ refl refl (behind-IsTail slash path))
parse_rest-Explained (c ∷ td) slash path e l h =
    elim (Bool-cases (all is_trust_domain_char (c ∷ td))) [
      | inl good ↦
          check_path-Explained (c ∷ td) slash path e
            (record { nonempty = ground arith; chars = (all-IsTrustDomainChar (c ∷ td)).0 good })
            (>>=-ok-eq-raise (check_path slash path) (parsed (c ∷ td) slash path) e (ground arith))
      | inr bad ↦ (
        trust_domain_chars,
        ground arith,
        bad_domain (c ∷ td) _ refl refl (behind-IsTail slash path) l
            (λ a. ground (arith, all-IsTrustDomainChar (c ∷ td))),
      )
    ]

parse_text-IsFault :
    (t : Text) (e : Exn)
    → parse_text t ≡ raise e
    → (f : IdFault) × (e ≡ invalid_spiffe_id f) × IsFault (str t) f
unfolding parse_text
parse_text-IsFault t e h = elim (Option-cases (strip_prefix scheme t)) [
  | inl absent ↦ (
    missing_scheme,
    ground arith,
    no_scheme refl (λ rest same. ground (arith, strip_prefix-append scheme rest)),
  )
  | inr (rest, found) ↦
      let parts = partition b'/' rest in
      let (f, raised, fault) =
        parse_rest-Explained parts.0 parts.1 parts.2 e (partition-Lacks_before b'/' rest)
          (ground arith) in
      let whole : t ≡ scheme ++ (parts.0 ++ (if parts.1 then b'/' ∷ parts.2 else [])) =
        strip_prefix_sound scheme t found
        ∙ ap (λ r. scheme ++ r)
            (sym (partition_sound b'/' rest)
              ∙ unpartition-eq parts.1 parts.0 parts.2 (partition-none b'/' rest)) in
      (f, raised, rw whole fault)
]

pub parse-IsFault :
    (v : Value) (e : Exn)
    → parse v ≡ raise e
    → (f : IdFault) × (e ≡ invalid_spiffe_id f) × IsFault v f
unfolding parse
parse-IsFault (str t) e h = parse_text-IsFault t e h
parse-IsFault _ e h = (missing_scheme, ground arith, no_scheme refl (λ rest. ground arith))
