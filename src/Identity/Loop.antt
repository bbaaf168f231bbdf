-- ===== src/Identity/Loop.antt =====
-- The loop of `Identity.verify` (python/src/spiffile/identity.py) over the keys bound to an ID.
use spiffile.Prelude.{
  Text, Bool, true, false, ◌⊎◌, inl, inr, Option, none, some, List, [], ◌∷◌, ◌≡◌, refl, sym, arith,
  text_Eq, if◌then◌else◌,
}
use spiffile.Prelude.Value.{Value, Fields}
use spiffile.Crypto.{Crypto, Check, Among}
use spiffile.Errors.{
  Exn, jwt_error, invalid_signature, jwk_error, Result, ok, raise, >>=-eq-ok, from_option,
}
use spiffile.SpiffeId.{SpiffeId}
use spiffile.Identity.{
  Caller, kid_matches, with_kid, or_all, candidates, decoded, with_key, try_keys,
}

module _ (c : Crypto) where
  -- A candidate with which the loop ended.
  pub record Tried (token : c.Token) (check : Check) (id : SpiffeId) (caller : Caller) (jwk : Value)
      : Type 0 where
    pub key : c.PublicKey
    pub is_key : c.jwk_key jwk ≡ ok key
    pub accepted : c.decode token key check ≡ ok caller.claims
    pub same_id : caller.id ≡ id

  module _ (token : c.Token) (check : Check) (id : SpiffeId) (caller : Caller) where
    decoded-inv :
        (r : Result Fields) (rest : Result Caller)
        → decoded c id r rest ≡ ok caller
        → ((r ≡ ok caller.claims) × (caller.id ≡ id)) ⊎ (rest ≡ ok caller)
    unfolding decoded
    decoded-inv (ok claims) rest h = inl (ground arith, ground arith)
    decoded-inv (raise (jwt_error invalid_signature)) rest h = inr h
    decoded-inv (raise (jwt_error f)) rest h = ground arith
    decoded-inv (raise e) rest h = ground arith

    with_key-inv :
        (jwk : Value) (r : Result c.PublicKey) (rest : Result Caller)
        → c.jwk_key jwk ≡ r
        → with_key c token check id r rest ≡ ok caller
        → Tried token check id caller jwk ⊎ (rest ≡ ok caller)
    unfolding with_key
    with_key-inv jwk (ok key) rest e h = elim (decoded-inv (c.decode token key check) rest h) [
      | inl (accepted, same) ↦
          inl (record { key = key; is_key = e; accepted = accepted; same_id = same })
      | inr later ↦ inr later
    ]
    with_key-inv jwk (raise (jwt_error jwk_error)) rest e h = inr h
    with_key-inv jwk (raise x) rest e h = ground arith

    pub try_keys-inv :
        (jwks : List Value)
        → try_keys c token check id jwks ≡ ok caller
        → (jwk : Value) × Among jwk jwks × Tried token check id caller jwk
    unfolding try_keys
    try_keys-inv [] h = ground arith
    try_keys-inv (jwk ∷ jwks) h =
        elim (with_key-inv jwk (c.jwk_key jwk) (try_keys c token check id jwks) refl h) [
          | inl tried ↦ (jwk, inl refl, tried)
          | inr later ↦ let (j, among, tried) = try_keys-inv jwks later in (j, inr among, tried)
        ]

with_kid-Among :
    (kid : Option Text) (jwks found : List Value) (jwk : Value)
    → with_kid kid jwks ≡ ok found
    → Among jwk found
    → Among jwk jwks
unfolding with_kid
with_kid-Among kid [] found jwk h a = let empty : [] ≡ found = ground arith in rw (sym empty) at a
with_kid-Among kid (j ∷ jwks) found jwk h a =
    let (matches, h1, r1) = >>=-eq-ok (kid_matches kid j) _ h in
    let (rest, h2, r2) = >>=-eq-ok (with_kid kid jwks) _ r1 in
    kept matches rest (with_kid-Among kid jwks rest jwk h2) (ground arith)
  where
    kept :
        (matches : Bool) (rest : List Value)
        → (Among jwk rest → Among jwk jwks)
        → (if matches then j ∷ rest else rest) ≡ found
        → Among jwk (j ∷ jwks)
    kept true rest ih f =
        let old : Among jwk (j ∷ rest) = rw (sym f) at a in
        elim old [ inl e ↦ inl e | inr later ↦ inr (ih later) ]
    kept false rest ih f = inr (ih (rw (sym f) at a))

-- Only bound keys are candidates.
pub candidates-Among :
    (kid : Option Text) (jwks found : List Value) (jwk : Value)
    → candidates kid jwks ≡ ok found
    → Among jwk found
    → Among jwk jwks
unfolding candidates
candidates-Among kid jwks found jwk h a =
    let (matching, h1, r1) = >>=-eq-ok (with_kid kid jwks) _ h in chosen matching h1 (ground arith)
  where
    chosen :
        (matching : List Value)
        → with_kid kid jwks ≡ ok matching
        → or_all matching jwks ≡ found
        → Among jwk jwks
    chosen [] h1 f = rw (sym f) at a
    chosen (j ∷ rest) h1 f = with_kid-Among kid jwks (j ∷ rest) jwk h1 (rw (sym f) at a)

pub from_option-ok :
    {A : Type 0} (o : Option A) (e : Exn) {a : A} → from_option o e ≡ ok a → o ≡ some a
from_option-ok none e h = ground arith
from_option-ok (some a) e h = ground arith
