-- ===== src/SpiffeId/Parsing.antt =====
-- `SpiffeId.parse` (python/src/spiffile/spiffe_id.py) against the grammar.
use spiffile.Prelude.{
  Text, codes, Bool, true, false, ◌↔◌, inl, inr, List, [], ◌∷◌, ◌++◌, ◌≡◌, refl, sym, ap, ◌∙◌,
  arith, text_eq_iff, Option-cases, append-nil, all, strip_prefix, strip_prefix_sound, partition,
  unpartition, partition_sound, partition-append, partition-Lacks, partition-none, split,
  join_behind, split_sound, split-join_behind, All, if◌then◌else◌,
}
use spiffile.Prelude.Value.{Value, str}
use spiffile.Errors.{ok, require, >>=-eq-ok}
use spiffile.SpiffeId.{
  SpiffeId, scheme, check_segment, check_segments, check_path, parse_rest, parse_text, parse,
  to_str, is_empty, is_trust_domain_char,
}
use spiffile.SpiffeId.Grammar.{
  IsDomain, IsSegment, IsValid, all-IsTrustDomainChar, all-IsSegmentChar, IsTrustDomainChar-Lacks,
  IsSegment-Lacks, IsSegmentChar-Lacks,
}

-- The body of the loop accepts the segments of the grammar.
pub check_segment-IsSegment : (s : Text) → (check_segment s ≡ ok tt) ↔ IsSegment s
unfolding check_segment
check_segment-IsSegment s = (
  λ h. record {
    nonempty = ground arith;
    not_dot = ground (arith, text_eq_iff s (codes "."));
    not_dot_dot = ground (arith, text_eq_iff s (codes ".."));
    chars = ground (arith, all-IsSegmentChar s);
  },
  λ h. ground (arith, all-IsSegmentChar s, text_eq_iff s (codes "."), text_eq_iff s (codes "..")),
)

pub check_segments-IsSegment : (ss : List Text) → (check_segments ss ≡ ok tt) ↔ All IsSegment ss
unfolding check_segments
check_segments-IsSegment [] = (λ h. tt, λ h. refl)
check_segments-IsSegment (s ∷ ss) = (
  λ h.
      let (_, p, q) = >>=-eq-ok (check_segment s) (λ _. check_segments ss) h in
      ((check_segment-IsSegment s).0 p, (check_segments-IsSegment ss).0 q),
  λ (h, hs). rw ((check_segment-IsSegment s).1 h) ((check_segments-IsSegment ss).1 hs),
)

check_path_sound :
    (slash : Bool) (path : Text)
    → check_path slash path ≡ ok tt
    → (ss : List Text) × ((if slash then b'/' ∷ path else []) ≡ join_behind b'/' ss)
      × All IsSegment ss
unfolding check_path
check_path_sound false path h = ([], refl, tt)
check_path_sound true (c ∷ path) h =
    (split b'/' (c ∷ path), sym (split_sound b'/' (c ∷ path)), (check_segments-IsSegment _).0 h)
check_path_sound true [] h = ground arith

check_path-join_behind :
    (s : Text) (ss : List Text)
    → IsSegment s
    → All IsSegment ss
    → check_path true (s ++ join_behind b'/' ss) ≡ ok tt
unfolding check_path
check_path-join_behind [] ss h hs = absurd (h.nonempty refl)
check_path-join_behind (c ∷ s) ss h hs =
    rw
      (split-join_behind b'/' (c ∷ s) ss (IsSegmentChar-Lacks (c ∷ s) h.chars)
        (IsSegment-Lacks ss hs))
      ((check_segments-IsSegment ((c ∷ s) ∷ ss)).1 (h, hs))

-- The tests on the trust domain, with the rest of the body behind them.
check_domain :
    (td : Text) → IsDomain td → (is_empty td ≡ false) × (all is_trust_domain_char td ≡ true)
check_domain [] d = absurd (d.nonempty refl)
check_domain (c ∷ td) d = (refl, (all-IsTrustDomainChar (c ∷ td)).1 d.chars)

parse_rest-join_behind :
    (td : Text) (ss : List Text)
    → IsDomain td
    → All IsSegment ss
    → parse_rest (partition b'/' (td ++ join_behind b'/' ss))
      ≡ ok (record { trust_domain = td; path = join_behind b'/' ss })
unfolding parse_rest
parse_rest-join_behind td [] d hs =
    rw
      (
        append-nil,
        partition-Lacks b'/' td (IsTrustDomainChar-Lacks td d.chars),
        parse_rest,
        (check_domain td d).0,
        (check_domain td d).1,
      )
      (unfold check_path in refl)
parse_rest-join_behind td (s ∷ ss) d (h, hs) =
    rw
      (
        partition-append b'/' td (s ++ join_behind b'/' ss) (IsTrustDomainChar-Lacks td d.chars),
        parse_rest,
        (check_domain td d).0,
        (check_domain td d).1,
        check_path-join_behind s ss h hs,
      )
      refl

parse_rest_sound :
    (td : Text) (slash : Bool) (path : Text) {id : SpiffeId}
    → parse_rest (td, slash, path) ≡ ok id
    → (id ≡ record { trust_domain = td; path = if slash then b'/' ∷ path else [] }) × IsValid id
unfolding parse_rest
parse_rest_sound [] slash path h = ground arith
parse_rest_sound (c ∷ td) slash path {id} h =
    let (_, chars, h') = >>=-eq-ok (require (all is_trust_domain_char (c ∷ td)) _) _ h in
    let (_, checked, h'') = >>=-eq-ok (check_path slash path) _ h' in
    let (segments, path_is, each) = check_path_sound slash path checked in
    (
      ground arith,
      record {
        domain = record {
          nonempty = ground arith;
          chars = ground (arith, all-IsTrustDomainChar (c ∷ td));
        };
        segments = segments;
        path_is = ground arith;
        each = each;
      },
    )

pub parse_text-append :
    (rest : Text) → parse_text (scheme ++ rest) ≡ parse_rest (partition b'/' rest)
unfolding parse_text strip_prefix
parse_text-append rest = refl

pub unpartition-eq :
    (slash : Bool) (td path : Text)
    → (slash ≡ false → path ≡ [])
    → unpartition b'/' (td, slash, path) ≡ td ++ (if slash then b'/' ∷ path else [])
unpartition-eq true td path h = refl
unpartition-eq false td path h = rw (h refl)

parse_text_sound : (t : Text) {id : SpiffeId} → parse_text t ≡ ok id → (t ≡ to_str id) × IsValid id
unfolding parse_text to_str
parse_text_sound t {id} h = elim (Option-cases (strip_prefix scheme t)) [
  | inl e ↦ ground arith
  | inr (rest, e) ↦
      let parts = partition b'/' rest in
      let taken = strip_prefix_sound scheme t e in
      let put = partition_sound b'/' rest in
      let (same, valid) = parse_rest_sound parts.0 parts.1 parts.2 {id = id} (ground arith) in
      (ground (arith, unpartition-eq parts.1 parts.0 parts.2 (partition-none b'/' rest)), valid)
]

parse_sound : (v : Value) {id : SpiffeId} → parse v ≡ ok id → (v ≡ str (to_str id)) × IsValid id
unfolding parse
parse_sound (str t) {id} h =
    let (same, valid) = parse_text_sound t {id = id} h in (ap str same, valid)
parse_sound _ h = ground arith

-- A value parses to `id` exactly if it is the text of `id`, and `id` follows the grammar.
pub parse_iff :
    (v : Value) (id : SpiffeId) → (parse v ≡ ok id) ↔ ((v ≡ str (to_str id)) × IsValid id)
unfolding parse to_str
parse_iff v id = (
  parse_sound v,
  λ (e, valid). rw e (
      parse_text-append (id.trust_domain ++ id.path)
      ∙ rw valid.path_is
          (parse_rest-join_behind id.trust_domain valid.segments valid.domain valid.each)),
)
