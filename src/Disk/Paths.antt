-- ===== src/Disk/Paths.antt =====
-- Paths and their texts: what `Path(text)` makes is printed and read back as it is.
use spiffile.Prelude.{
  append-nil, ℕ, zero, suc, ◌≤◌, Text, codes, List, [], ◌∷◌, ◌++◌, ◌≡◌, ◌≢◌, refl, sym, ap, ◌∙◌,
  arith, inl, inr, text_eq, text_eq_iff, nat_eq, split, split_first, All, Lacks, join_behind,
  split-join_behind, Bool-cases,
}
use spiffile.Prelude.Stripping.{All-append}
use spiffile.Disk.{
  FilePath, path, path_str, clean, leading, join_parts, slashes, dot_if_empty, ◌//◌,
}

pub record IsPart (s : Text) : Type 0 where
  pub nonempty : s ≢ []
  pub not_dot : s ≢ codes "."
  pub no_slash : Lacks b'/' s

-- What `Path` makes.
pub record IsPure (p : FilePath) : Type 0 where
  pub root_le : p.root ≤ 2
  pub each : All IsPart p.parts

pub clean-All : (parts : List Text) → All IsPart parts → clean parts ≡ parts
unfolding clean
clean-All [] h = refl
clean-All (s ∷ parts) (h, hs) =
    ground (
      arith,
      h.nonempty,
      h.not_dot,
      text_eq_iff s [],
      text_eq_iff s (codes "."),
      clean-All parts hs,
    )

-- The pieces of a text have no separator.
split_first-Lacks :
    (sep : ℕ) (s : Text) → Lacks sep (split_first sep s).0 × All (Lacks sep) (split_first sep s).1
unfolding split_first
split_first-Lacks sep [] = (tt, tt)
split_first-Lacks sep (c ∷ s) = elim (Bool-cases (nat_eq c sep)) [
  | inl e ↦ rw e (tt, split_first-Lacks sep s)
  | inr e ↦ rw e ((ground arith, (split_first-Lacks sep s).0), (split_first-Lacks sep s).1)
]

clean-IsPart : (parts : List Text) → All (Lacks b'/') parts → All IsPart (clean parts)
unfolding clean
clean-IsPart [] h = tt
clean-IsPart (s ∷ parts) (h, hs) = elim (Bool-cases (text_eq s [])) [
  | inl e ↦ rw e (clean-IsPart parts hs)
  | inr e ↦ rw e (elim (Bool-cases (text_eq s (codes "."))) [
    | inl e' ↦ rw e' (clean-IsPart parts hs)
    | inr e' ↦ rw e' (
      record {
        nonempty = λ is. ground (arith, text_eq_iff s []);
        not_dot = λ is. ground (arith, text_eq_iff s (codes "."));
        no_slash = h;
      },
      clean-IsPart parts hs,
    )
  ])
]

leading_le : (text : Text) → leading text ≤ 2
leading_le [] = ground arith
leading_le (a ∷ []) = ground arith
leading_le (a ∷ b ∷ []) = ground arith
leading_le (a ∷ b ∷ c ∷ _) = ground arith

pub path-IsPure : (text : Text) → IsPure (path text)
unfolding path split
path-IsPure text = record {
  root_le = leading_le text;
  each = clean-IsPart (split b'/' text) (split_first-Lacks b'/' text);
}

pub //-IsPure : (p : FilePath) (text : Text) → IsPure p → IsPure (p // text)
unfolding ◌//◌
//-IsPure p text pure = elim (Bool-cases (nat_eq (path text).root 0)) [
  | inl e ↦ rw e (record {
    root_le = pure.root_le;
    each = All-append IsPart p.parts (path text).parts pure.each (path-IsPure text).each;
  })
  | inr e ↦ rw e (path-IsPure text)
]

join_parts-cons :
    (s : Text) (parts : List Text) → join_parts (s ∷ parts) ≡ s ++ join_behind b'/' parts
join_parts-cons s [] = sym (append-nil s)
join_parts-cons s (t ∷ parts) = ap (λ rest. s ++ b'/' ∷ rest) (join_parts-cons t parts)

IsPart-Lacks : (parts : List Text) → All IsPart parts → All (Lacks b'/') parts
IsPart-Lacks [] h = tt
IsPart-Lacks (s ∷ parts) (h, hs) = (h.no_slash, IsPart-Lacks parts hs)

clean-split-join_parts :
    (parts : List Text) → All IsPart parts → clean (split b'/' (join_parts parts)) ≡ parts
clean-split-join_parts [] h = unfold clean split split_first text_eq in refl
clean-split-join_parts (s ∷ parts) h =
    ap (λ t. clean (split b'/' t)) (join_parts-cons s parts)
    ∙ ap clean (split-join_behind b'/' s parts h.0.no_slash (IsPart-Lacks parts h.1))
    ∙ clean-All (s ∷ parts) h

clean-split-slash : (text : Text) → clean (split b'/' (b'/' ∷ text)) ≡ clean (split b'/' text)
unfolding clean split split_first text_eq
clean-split-slash text = refl

clean-slashes :
    (root : ℕ) (text : Text) → clean (split b'/' (slashes root ++ text)) ≡ clean (split b'/' text)
clean-slashes zero text = refl
clean-slashes (suc root) text = clean-split-slash (slashes root ++ text) ∙ clean-slashes root text

-- The text does not begin with a slash.
abbrev pub Starts : Text → Type 0
Starts [] = Unit
Starts (c ∷ _) = c ≢ b'/'

pub Starts-append : (s t : Text) → s ≢ [] → Lacks b'/' s → Starts (s ++ t)
Starts-append [] t ne lacks = absurd (ne refl)
Starts-append (c ∷ s) t ne (differs, _) = differs

join_parts-Starts : (parts : List Text) → All IsPart parts → Starts (join_parts parts)
join_parts-Starts [] h = tt
join_parts-Starts (s ∷ parts) (h, hs) =
    rw (join_parts-cons s parts) (Starts-append s (join_behind b'/' parts) h.nonempty h.no_slash)

pub leading-slashes :
    (root : ℕ) (text : Text) → root ≤ 2 → Starts text → leading (slashes root ++ text) ≡ root
leading-slashes zero [] le h = refl
leading-slashes zero (a ∷ []) le h = ground arith
leading-slashes zero (a ∷ b ∷ []) le h = ground arith
leading-slashes zero (a ∷ b ∷ c ∷ _) le h = ground arith
leading-slashes (suc zero) [] le h = ground arith
leading-slashes (suc zero) (a ∷ []) le h = ground arith
leading-slashes (suc zero) (a ∷ b ∷ _) le h = ground arith
leading-slashes (suc (suc zero)) [] le h = ground arith
leading-slashes (suc (suc zero)) (a ∷ _) le h = ground arith
leading-slashes (suc (suc (suc n))) text le h = absurd (omega arith)

path-dot_if_empty : (text : Text) → path (dot_if_empty text) ≡ path text
unfolding path clean split split_first text_eq
path-dot_if_empty [] = refl
path-dot_if_empty (c ∷ text) = refl

-- A path that `Path` and `/` have made is the path of its text.
pub path-path_str : (p : FilePath) → IsPure p → path (path_str p) ≡ p
unfolding path_str
path-path_str p pure =
    path-dot_if_empty (slashes p.root ++ join_parts p.parts)
    ∙ unfold path in
      rw
        (
          leading-slashes p.root (join_parts p.parts) pure.root_le
              (join_parts-Starts p.parts pure.each),
          clean-slashes p.root (join_parts p.parts) ∙ clean-split-join_parts p.parts pure.each,
        )
        refl

pub path_str-nonempty : (p : FilePath) → path_str p ≢ []
unfolding path_str
path_str-nonempty p = nonempty (slashes p.root ++ join_parts p.parts)
  where
    nonempty : (text : Text) → dot_if_empty text ≢ []
    nonempty [] e = ground arith
    nonempty (c ∷ text) e = ground arith
