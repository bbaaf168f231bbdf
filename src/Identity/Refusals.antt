-- ===== src/Identity/Refusals.antt =====
-- What `Identity.verify` (python/src/spiffile/identity.py) raises.
use spiffile.Prelude.{
  Text, codes, true, ◌⊎◌, inl, inr, Option, none, some, List, [], ◌∷◌, ◌≡◌, refl, arith, text_Eq,
  text_eq, All, Bool-cases,
}
use spiffile.Prelude.Int.{ℤ}
use spiffile.Prelude.Dict.{Dict, lookup}
use spiffile.Prelude.Value.{Value, null, str, Fields, get, truthy}
use spiffile.Codec.{Codec}
use spiffile.Crypto.{Crypto, Check}
use spiffile.Disk.{Disk}
use spiffile.Errors.{
  Exn, invalid_spiffe_id, invalid_token, unknown_identity, jwt_error, invalid_signature, jwk_error,
  other_jwt_error, from_option, Result, ok, raise, ◌>>=◌, Result-cases,
}
use spiffile.SpiffeId.{SpiffeId, parse, to_str}
use spiffile.SpiffeId.Faults.{parse-IsFault}
use spiffile.Bundle.{Bundle, keys_for}
use spiffile.BundleSource
use spiffile.Identity.Choice.{IsUsable, candidates-All}
use spiffile.Identity.{
  Caller, Identity, Audience, or_malformed, present_sub, single_audience, candidates, Claimed,
  read_claims, decoded, with_key, try_keys, verify_with, verify_claimed, verify, check_of,
  expected_audience,
}

-- The errors that `verify` has for a token.
abbrev pub IsVerifyError : Exn → Type 0
IsVerifyError (invalid_token _) = Unit
IsVerifyError (unknown_identity _) = Unit
IsVerifyError (invalid_spiffe_id _) = Unit
IsVerifyError _ = ⊥

-- No `PyJWTError`.
abbrev pub IsForeign : Exn → Type 0
IsForeign (jwt_error _) = ⊥
IsForeign _ = Unit

-- A call of PyJWT that `verify` makes for the token has raised this.
pub data Escapes (c : Crypto) (token : c.Token) (check : Check) (e : Exn) : Type 0 where
  header_raised : c.get_unverified_header token ≡ raise e → Escapes c token check e
  claims_raised : c.decode_unverified token ≡ raise e → Escapes c token check e
  decode_raised :
      (key : c.PublicKey)
      → c.is_ec key ≡ true
      → c.decode token key check ≡ raise e
      → Escapes c token check e

-- A result, an error that `verify` has for a token, or what a call of PyJWT has raised that is no
-- `PyJWTError`.
abbrev pub Answers {ℓ} : (c : Crypto) (token : c.Token) → Check → {A : Type ℓ} → Result A → Type 0
Answers c token check (ok a) = Unit
Answers c token check (raise e) = IsVerifyError e ⊎ (IsForeign e × Escapes c token check e)

Answers->>= {ℓ κ} :
    (c : Crypto) (token : c.Token) (check : Check) {A : Type ℓ} {B : Type κ} (r : Result A)
    (next : A → Result B)
    → Answers c token check r
    → ((a : A) → r ≡ ok a → Answers c token check (next a))
    → Answers c token check (r >>= next)
Answers->>= c token check (ok a) next h hs = hs a refl
Answers->>= c token check (raise e) next h hs = h

Answers-or_malformed :
    (c : Crypto) (token : c.Token) (check : Check) {A : Type 0} (r : Result A)
    → ((e : Exn) → r ≡ raise e → Escapes c token check e)
    → Answers c token check (or_malformed r)
unfolding or_malformed
Answers-or_malformed c token check (ok a) h = tt
Answers-or_malformed c token check (raise (jwt_error f)) h = inl tt
Answers-or_malformed c token check (raise e) h = inr (tt, h e refl)

abbrev IsOwn : {A : Type 0} → Result A → Type 0
IsOwn (ok a) = Unit
IsOwn (raise e) = IsVerifyError e

Answers-IsOwn :
    (c : Crypto) (token : c.Token) (check : Check) {A : Type 0} (r : Result A)
    → IsOwn r
    → Answers c token check r
Answers-IsOwn c token check (ok a) h = tt
Answers-IsOwn c token check (raise e) h = inl h

present_sub-IsOwn : (o : Option Value) → IsOwn (present_sub o)
unfolding present_sub
present_sub-IsOwn none = tt
present_sub-IsOwn (some v) = elim (Bool-cases (truthy v)) [ inl e ↦ rw e tt | inr e ↦ rw e tt ]

parse-IsOwn : (v : Value) → IsOwn (parse v)
parse-IsOwn v = elim (Result-cases (parse v)) [
  | inl (id, e) ↦ rw e tt
  | inr (x, e) ↦ let (f, raised, _) = parse-IsFault v x e in rw (e, raised) tt
]

single_audience-IsOwn : (o : Option Value) → IsOwn (single_audience o)
unfolding single_audience
single_audience-IsOwn none = tt
single_audience-IsOwn (some null) = tt
single_audience-IsOwn (some (str aud)) = tt
single_audience-IsOwn (some _) = tt

-- Every key of the bundle is usable.
abbrev pub IsUsableBundle : Crypto → Bundle → Type 0
IsUsableBundle c b = All (λ (id, keys). All (IsUsable c) keys) b.identities

lookup-All :
    (P : List Value → Type 0) (id : Text) (d : Dict Text (List Value)) {keys : List Value}
    → All (λ (k, keys). P keys) d
    → lookup id d ≡ some keys
    → P keys
unfolding lookup
lookup-All P id [] h e = ground arith
lookup-All P id ((k, old) ∷ d) {keys} (h, hs) e = elim (Bool-cases (text_eq k id)) [
  | inl same ↦ let is : old ≡ keys = ground arith in rw is at h
  | inr other ↦ lookup-All P id d hs (ground arith)
]

module _ (c : Crypto) (token : c.Token) (check : Check) where
  Answers-read_claims : Answers c token check (read_claims c token)
  unfolding read_claims
  Answers-read_claims =
      Answers->>= c token check (or_malformed (c.get_unverified_header token)) _
        (Answers-or_malformed c token check _ (λ e h. header_raised h))
        λ header _.
          Answers->>= c token check (or_malformed (c.decode_unverified token)) _
            (Answers-or_malformed c token check _ (λ e h. claims_raised h))
            λ unverified _.
              Answers->>= c token check (present_sub (get (codes "sub") unverified)) _
                (Answers-IsOwn c token check _ (present_sub-IsOwn (get (codes "sub") unverified)))
                λ sub _.
                  Answers->>= c token check (parse sub) _
                    (Answers-IsOwn c token check _ (parse-IsOwn sub))
                    λ id _.
                      Answers->>= c token check (single_audience (get (codes "aud") unverified)) _
                        (Answers-IsOwn c token check _
                          (single_audience-IsOwn (get (codes "aud") unverified)))
                        λ aud _. tt

  Answers-decoded :
      (id : SpiffeId) (r : Result Fields) (rest : Result Caller)
      → ((e : Exn) → r ≡ raise e → Escapes c token check e)
      → Answers c token check rest
      → Answers c token check (decoded c id r rest)
  unfolding decoded
  Answers-decoded id (ok claims) rest h a = tt
  Answers-decoded id (raise (jwt_error invalid_signature)) rest h a = a
  Answers-decoded id (raise (jwt_error jwk_error)) rest h a = inl tt
  Answers-decoded id (raise (jwt_error other_jwt_error)) rest h a = inl tt
  Answers-decoded id (raise e) rest h a = inr (tt, h e refl)

  Answers-try_keys :
      (id : SpiffeId) (jwks : List Value)
      → All (IsUsable c) jwks
      → Answers c token check (try_keys c token check id jwks)
  unfolding try_keys with_key
  Answers-try_keys id [] u = inl tt
  Answers-try_keys id (jwk ∷ jwks) (u, us) =
      let rest = Answers-try_keys id jwks us in
      elim u.reads [
        | inl (key, e, ec) ↦
            rw e
              (Answers-decoded id (c.decode token key check) _ (λ x h. decode_raised key ec h) rest)
        | inr e ↦ rw e rest
      ]

  Answers-verify_with :
      (claimed : Claimed) (b : Bundle)
      → IsUsableBundle c b
      → Answers c token check (verify_with c token check claimed b)
  unfolding verify_with keys_for
  Answers-verify_with claimed b u = at (lookup (to_str claimed.id) b.identities) refl
    where
      at :
          (o : Option (List Value))
          → lookup (to_str claimed.id) b.identities ≡ o
          → Answers c token check (
              from_option o (unknown_identity (to_str claimed.id)) >>= λ bound.
              candidates claimed.kid bound >>= try_keys c token check claimed.id)
      at none e = inl tt
      at (some keys) e =
          let usable = lookup-All (All (IsUsable c)) (to_str claimed.id) b.identities u e in
          let (found, chosen, us) = candidates-All c (IsUsable c) claimed.kid keys usable usable in
          rw chosen (Answers-try_keys claimed.id found us)

module _ (codec : Codec) (c : Crypto) (at_stat at_read : Disk) where
  Answers-verify_claimed :
      (s : BundleSource.FileBundleSource) (token : c.Token) (check : Check) (r : Result Claimed)
      (b : Bundle)
      → (BundleSource.get codec at_stat at_read s).0 ≡ ok b
      → IsUsableBundle c b
      → Answers c token check r
      → Answers c token check (verify_claimed codec c at_stat at_read s token check r).0
  unfolding verify_claimed
  Answers-verify_claimed s token check (raise e) b got u a = a
  Answers-verify_claimed s token check (ok claimed) b got u a =
      rw got (Answers-verify_with c token check claimed b u)

  -- No `PyJWTError` leaves `verify`. With a bundle that can be read, in which every key is a JWK
  -- object that PyJWT reads as an EC key or refuses with `PyJWKError`, `verify` returns a caller,
  -- or raises `InvalidTokenError`, `UnknownIdentityError` or `InvalidSpiffeIdError`, or passes on
  -- an exception that is no `PyJWTError` and that reading the token's header, reading its claims or
  -- decoding it under an EC key, with the arguments of `verify`, has raised.
  pub verify-Answers :
      (self : Identity c.PrivateKey) (token : c.Token) (audience : Option Audience) (leeway now : ℤ)
      (b : Bundle)
      → (BundleSource.get codec at_stat at_read self.bundle_source).0 ≡ ok b
      → IsUsableBundle c b
      → Answers c token
          (check_of (expected_audience self.id audience) leeway now)
          (verify codec c at_stat at_read now self token audience leeway).0
  unfolding verify
  verify-Answers self token audience leeway now b got u =
      let check = check_of (expected_audience self.id audience) leeway now in
      Answers-verify_claimed self.bundle_source token check (read_claims c token) b got u
        (Answers-read_claims c token check)
