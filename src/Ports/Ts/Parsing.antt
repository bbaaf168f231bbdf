-- ===== src/Ports/Ts/Parsing.antt =====
-- `SpiffeId.parse` of ts/src/spiffeId.ts against that of python/src/spiffile/spiffe_id.py, on the
-- same list of numbers.
use mathlib.Core.Path.{fun_ext}
use spiffile.Prelude.{
  ℕ, Text, codes, Bool, true, false, ◌||◌, ◌&&◌, Option, none, some, List, [], ◌∷◌, nat_eq, ◌≡◌,
  refl, sym, ap, ◌∙◌, arith, text_eq, all, strip_prefix, length, partition, split, if◌then◌else◌,
  Bool-cases, inl, inr,
}
use spiffile.SpiffeId.{
  parse_text, parse_rest, check_path, check_segments, check_segment, is_trust_domain_char,
  is_segment_char, scheme,
}
use spiffile.SpiffeId.Grammar.{is_trust_domain_char_iff, is_segment_char_iff}
use spiffile.Ports.Tests.{same_test, raise_unless, tests_in_turn}
use spiffile.Ports.Ts

in_domain_class-char : (r : ℕ) → Ts.in_domain_class r ≡ is_trust_domain_char r
unfolding Ts.in_domain_class
in_domain_class-char r =
    same_test _ _ (λ h. ground arith, λ h. ground arith) (is_trust_domain_char_iff r)

in_segment_class-char : (r : ℕ) → Ts.in_segment_class r ≡ is_segment_char r
unfolding Ts.in_segment_class Ts.in_domain_class
in_segment_class-char r =
    same_test _ _ (λ h. ground arith, λ h. ground arith) (is_segment_char_iff r)

matches-all :
    (in_class char : ℕ → Bool) (c : ℕ) (s : Text)
    → ((r : ℕ) → in_class r ≡ char r)
    → Ts.matches in_class (c ∷ s) ≡ all char (c ∷ s)
unfolding Ts.matches all
matches-all in_class char c s same = ap (λ f. f c && all f s) (fun_ext same)

starts_with-strip_prefix :
    (p s : Text)
    → strip_prefix p s ≡ (if Ts.starts_with p s then some (Ts.slice_from (length p) s) else none)
unfolding Ts.starts_with Ts.slice_from strip_prefix length
starts_with-strip_prefix [] s = refl
starts_with-strip_prefix (a ∷ p) [] = refl
starts_with-strip_prefix (a ∷ p) (b ∷ s) = ground (arith, starts_with-strip_prefix p s)

-- The parts of `partition` as the TypeScript code has them.
abbrev as_parts : Text × Bool × Text → Text × Option Text
as_parts (td, true, path) = (td, some path)
as_parts (td, false, path) = (td, none)

abbrev cons_first : ℕ → Text × Option Text → Text × Option Text
cons_first c (td, path) = (c ∷ td, path)

cut_at-next_index :
    (c : ℕ) (s : Text) (o : Option ℕ)
    → Ts.cut_at (c ∷ s) (Ts.next_index o) ≡ cons_first c (Ts.cut_at s o)
unfolding Ts.cut_at Ts.slice_to Ts.slice_from
cut_at-next_index c s none = refl
cut_at-next_index c s (some i) = refl

as_parts-cons_first :
    (c : ℕ) (td : Text) (slash : Bool) (path : Text)
    → as_parts (c ∷ td, slash, path) ≡ cons_first c (as_parts (td, slash, path))
as_parts-cons_first c td true path = refl
as_parts-cons_first c td false path = refl

cut_at-index_of :
    (sep : ℕ) (s : Text) → Ts.cut_at s (Ts.index_of sep s) ≡ as_parts (partition sep s)
unfolding Ts.index_of partition
cut_at-index_of sep [] = unfold Ts.cut_at in refl
cut_at-index_of sep (c ∷ s) = elim (Bool-cases (nat_eq c sep)) [
  | inl e ↦ rw e (unfold Ts.cut_at Ts.slice_to Ts.slice_from in refl)
  | inr e ↦ rw e (
      cut_at-next_index c s (Ts.index_of sep s)
      ∙ ap (cons_first c) (cut_at-index_of sep s)
      ∙ sym (as_parts-cons_first c _ _ _))
]

check_parts-check_segments : (ss : List Text) → Ts.check_parts ss ≡ check_segments ss
unfolding Ts.check_parts check_segments check_segment text_eq
check_parts-check_segments [] = refl
check_parts-check_segments ([] ∷ ss) = refl
check_parts-check_segments ((c ∷ s) ∷ ss) =
    rw
      (
        check_parts-check_segments ss,
        matches-all Ts.in_segment_class is_segment_char c s in_segment_class-char,
      )
      (tests_in_turn (text_eq (c ∷ s) (codes ".") || text_eq (c ∷ s) (codes ".."))
        (all is_segment_char (c ∷ s)) _ _ (check_segments ss))

check_optional-check_path :
    (slash : Bool) (td path : Text)
    → Ts.check_optional (as_parts (td, slash, path)).1 ≡ check_path slash path
unfolding Ts.check_optional check_path text_eq
check_optional-check_path false td path = refl
check_optional-check_path true td [] = refl
check_optional-check_path true td (c ∷ path) = check_parts-check_segments (split b'/' (c ∷ path))

parse_parts-parse_rest :
    (parts : Text × Bool × Text) → Ts.parse_parts (as_parts parts) ≡ parse_rest parts
unfolding Ts.parse_parts parse_rest text_eq check_path
parse_parts-parse_rest ([], true, path) = refl
parse_parts-parse_rest ([], false, path) = refl
parse_parts-parse_rest (c ∷ td, true, path) =
    rw
      (
        matches-all Ts.in_domain_class is_trust_domain_char c td in_domain_class-char,
        check_optional-check_path true (c ∷ td) path,
      )
      (raise_unless (all is_trust_domain_char (c ∷ td)) _ _)
parse_parts-parse_rest (c ∷ td, false, path) =
    rw
      (
        matches-all Ts.in_domain_class is_trust_domain_char c td in_domain_class-char,
        Ts.check_optional,
      )
      (raise_unless (all is_trust_domain_char (c ∷ td)) _ _)

units_with : (t : Text) (b : Bool) → Ts.starts_with scheme t ≡ b → Ts.parse_units t ≡ parse_text t
unfolding Ts.parse_units parse_text length strip_prefix
units_with t true e =
    let found : strip_prefix scheme t ≡ some (Ts.slice_from 9 t) =
      starts_with-strip_prefix scheme t
      ∙ ap (λ b. if b then some (Ts.slice_from 9 t) else none) e in
    rw (e, found)
      (ap Ts.parse_parts (cut_at-index_of b'/' (Ts.slice_from 9 t))
        ∙ parse_parts-parse_rest (partition b'/' (Ts.slice_from 9 t)))
units_with t false e =
    let absent : strip_prefix scheme t ≡ none =
      starts_with-strip_prefix scheme t
      ∙ ap (λ b. if b then some (Ts.slice_from 9 t) else none) e in
    rw (e, absent) refl

pub parse_units-parse_text : (t : Text) → Ts.parse_units t ≡ parse_text t
parse_units-parse_text t = units_with t _ refl
