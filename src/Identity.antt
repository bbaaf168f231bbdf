-- ===== src/Identity.antt =====
-- python/src/spiffile/identity.py, the class `Identity` and `unverified_audience`: minting and
-- verifying JWT-SVIDs. The state of an identity is that of its two sources.
pub mod Claims
pub mod Loop
pub mod Choice
pub mod Sound
pub mod Refusals
pub mod Forged
pub mod Minting
pub mod Loading
pub mod Files
pub mod RoundTrip
pub mod Static
use spiffile.Prelude.{
  ℕ, Text, codes, Bool, true, false, Option, none, some, List, [], ◌∷◌, text_eq, if◌then◌else◌,
}
use spiffile.Prelude.Int.{ℤ, pos, ◌+ℤ◌}
use spiffile.Prelude.Value.{Value, null, int, str, obj, Fields, end, field, get, truthy}
use spiffile.Codec.{Codec}
use spiffile.Crypto.{Crypto, Header, Check}
use spiffile.Disk.{FilePath, Disk}
use spiffile.Errors.{
  Exn, invalid_token, malformed, no_sub, multi_audience, no_matching_key, rejected, jwt_error,
  jwk_error, invalid_signature, attribute_error, Result, ok, raise, ◌>>=◌, ◌>>◌,
}
use spiffile.SpiffeId.{SpiffeId, parse, to_str}
use spiffile.Bundle.{Bundle, keys_for}
use spiffile.BundleSource.{FileBundleSource}
use spiffile.BundleSource
use spiffile.Keys.{algorithm}
use spiffile.KeySource.{KeySource, get_key}

abbrev pub default_ttl_seconds : ℤ
default_ttl_seconds = pos 60

abbrev pub default_leeway_seconds : ℤ
default_leeway_seconds = pos 30

abbrev pub allowed_algorithms : List Text
allowed_algorithms = algorithm ∷ []

abbrev pub required_claims : List Text
required_claims = codes "sub" ∷ codes "aud" ∷ codes "exp" ∷ []

pub record Caller : Type 0 where
  pub id : SpiffeId
  pub claims : Fields

pub record Identity (K : Type 0) : Type 0 where
  pub id : SpiffeId
  pub key_source : KeySource K
  pub bundle_source : FileBundleSource

-- An audience as it is given: `str | SpiffeId`.
pub data Audience : Type 0 where
  text : Text → Audience
  spiffe : SpiffeId → Audience

-- `str(audience) if audience is not None else str(self.id)`
unfoldable pub expected_audience : SpiffeId → Option Audience → Text
expected_audience self none = to_str self
expected_audience self (some (text t)) = t
expected_audience self (some (spiffe id)) = to_str id

-- `except PyJWTError`: a malformed token
unfoldable pub or_malformed {ℓ} : {A : Type ℓ} → Result A → Result A
or_malformed (raise (jwt_error f)) = raise (invalid_token malformed)
or_malformed r = r

-- `if not claimed_sub: raise …`
unfoldable pub present_sub : Option Value → Result Value
present_sub none = raise (invalid_token no_sub)
present_sub (some v) = if truthy v then ok v else raise (invalid_token no_sub)

-- `if claimed_aud is not None and not isinstance(claimed_aud, str): raise …`; this is the claim as
-- a text, if there is one. JSON's `null` is `None` too.
unfoldable pub single_audience : Option Value → Result (Option Text)
single_audience none = ok none
single_audience (some null) = ok none
single_audience (some (str aud)) = ok (some aud)
single_audience (some _) = raise (invalid_token multi_audience)

-- `j.get("kid") == kid`
unfoldable pub same_kid : Option Text → Option Value → Bool
same_kid none none = true
same_kid none (some null) = true
same_kid (some kid) (some (str t)) = text_eq t kid
same_kid _ _ = false

unfoldable pub kid_matches : Option Text → Value → Result Bool
unfolding same_kid
kid_matches kid (obj jwk) = ok (same_kid kid (get (codes "kid") jwk))
kid_matches kid _ = raise attribute_error

-- `[j for j in bound_jwks if j.get("kid") == kid]`
unfoldable pub with_kid : Option Text → List Value → Result (List Value)
with_kid kid [] = ok []
with_kid kid (jwk ∷ jwks) = do
  matches ← kid_matches kid jwk
  rest ← with_kid kid jwks
  ok (if matches then jwk ∷ rest else rest)

abbrev pub or_all : List Value → List Value → List Value
or_all [] jwks = jwks
or_all (jwk ∷ rest) jwks = jwk ∷ rest

-- `[…] or bound_jwks`
unfoldable pub candidates : Option Text → List Value → Result (List Value)
unfolding with_kid
candidates kid jwks = do matching ← with_kid kid jwks; ok (or_all matching jwks)

-- What a token says of itself, before its signature is looked at.
pub record Claimed : Type 0 where
  pub id : SpiffeId
  pub kid : Option Text

-- The arguments that `verify` hands to `jwt.decode`.
abbrev pub check_of : Text → ℤ → ℤ → Check
check_of audience leeway now = record {
  algorithms = allowed_algorithms;
  audience = audience;
  leeway = leeway;
  required = required_claims;
  now = now;
}

module _ (c : Crypto) where
  -- The first part of `verify`, up to the bundle.
  unfoldable pub read_claims : c.Token → Result Claimed
  unfolding or_malformed present_sub single_audience
  read_claims token = do
    header ← or_malformed (c.get_unverified_header token)
    unverified ← or_malformed (c.decode_unverified token)
    claimed_sub ← present_sub (get (codes "sub") unverified)
    claimed_id ← parse claimed_sub
    _ ← single_audience (get (codes "aud") unverified)
    ok (record { id = claimed_id; kid = header.kid })

  -- What `jwt.decode` answers ends the loop, or goes on with the next candidate.
  unfoldable pub decoded : SpiffeId → Result Fields → Result Caller → Result Caller
  decoded id (ok claims) rest = ok (record { id = id; claims = claims })
  decoded id (raise (jwt_error invalid_signature)) rest = rest
  decoded id (raise (jwt_error f)) rest = raise (invalid_token (rejected f))
  decoded id (raise e) rest = raise e

  unfoldable pub with_key :
      c.Token → Check → SpiffeId → Result c.PublicKey → Result Caller → Result Caller
  unfolding decoded
  with_key token check id (ok key) rest = decoded id (c.decode token key check) rest
  with_key token check id (raise (jwt_error jwk_error)) rest = rest
  with_key token check id (raise e) rest = raise e

  -- `for jwk in candidates: …`
  unfoldable pub try_keys : c.Token → Check → SpiffeId → List Value → Result Caller
  unfolding with_key
  try_keys token check id [] = raise (invalid_token no_matching_key)
  try_keys token check id (jwk ∷ jwks) =
      with_key token check id (c.jwk_key jwk) (try_keys token check id jwks)

  -- `verify` from the bundle on.
  unfoldable pub verify_with : c.Token → Check → Claimed → Bundle → Result Caller
  unfolding try_keys candidates
  verify_with token check claimed bundle = do
    bound_jwks ← keys_for bundle (to_str claimed.id)
    jwks ← candidates claimed.kid bound_jwks
    try_keys token check claimed.id jwks

module _ (codec : Codec) (c : Crypto) where
  abbrev finish :
      c.Token
      → Check
      → Claimed
      → Result Bundle × FileBundleSource
      → Result Caller × FileBundleSource
  finish token check claimed (r, s) = (r >>= verify_with c token check claimed, s)

  unfoldable pub verify_claimed :
      Disk
      → Disk
      → FileBundleSource
      → c.Token
      → Check
      → Result Claimed
      → Result Caller × FileBundleSource
  verify_claimed at_stat at_read s token check (raise e) = (raise e, s)
  verify_claimed at_stat at_read s token check (ok claimed) =
      finish token check claimed (BundleSource.get codec at_stat at_read s)

  -- `verify`, on the disk when the bundle's stat and its content are read, and at the time `now`.
  unfoldable pub verify :
      Disk
      → Disk
      → ℤ
      → Identity c.PrivateKey
      → c.Token
      → Option Audience
      → ℤ
      → Result Caller × Identity c.PrivateKey
  unfolding verify_claimed expected_audience
  verify at_stat at_read now self token audience leeway =
      let check = check_of (expected_audience self.id audience) leeway now in
      let (r, s) =
        verify_claimed at_stat at_read self.bundle_source token check (read_claims c token) in
      (r, record self { bundle_source = s })

-- `unverified_audience`
unfoldable pub unverified_audience : (c : Crypto) → c.Token → Result (Option Text)
unfolding or_malformed single_audience
unverified_audience c token = do
  unverified ← or_malformed (c.decode_unverified token)
  single_audience (get (codes "aud") unverified)
