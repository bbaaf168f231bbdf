-- ===== src/Identity/Sound.antt =====
-- What a caller that `Identity.verify` (python/src/spiffile/identity.py) returns has proved.
use spiffile.Prelude.{
  Text, codes, true, inl, inr, Option, some, List, [], ◌∷◌, ◌≡◌, refl, sym, ap, ◌∙◌, arith, text_Eq,
}
use spiffile.Prelude.Int.{ℤ, ◌+ℤ◌, ◌<ℤ◌}
use spiffile.Prelude.Dict.{lookup}
use spiffile.Prelude.Value.{Value, str, get}
use spiffile.Codec.{Codec}
use spiffile.Crypto.{Crypto, Check, IsSound, Among}
use spiffile.Disk.{Disk}
use spiffile.Errors.{Result, ok, raise, >>=-eq-ok}
use spiffile.SpiffeId.{to_str}
use spiffile.SpiffeId.Grammar.{IsValid}
use spiffile.Bundle.{Bundle, keys_for}
use spiffile.BundleSource
use spiffile.Identity.Claims.{Reads, read_claims-Reads, single_audience-listed}
use spiffile.Identity.Loop.{Tried, try_keys-inv, candidates-Among, from_option-ok}
use spiffile.Identity.{
  Caller, Identity, Audience, expected_audience, candidates, Claimed, read_claims, verify_with,
  check_of, verify_claimed, verify, unverified_audience, or_malformed, single_audience,
}

-- The call that returned `caller` found all of this.
pub record IsAuthentic (c : Crypto) (bundle : Bundle) (token : c.Token) (check : Check)
    (caller : Caller) : Type 0 where
  pub keys : List Value
  pub jwk : Value
  pub key : c.PublicKey
  pub exp : ℤ
  pub exp_claim : Value
  pub valid : IsValid caller.id
  -- the key is bound to the caller's own ID
  pub bound : lookup (to_str caller.id) bundle.identities ≡ some keys
  pub among : Among jwk keys
  pub is_key : c.jwk_key jwk ≡ ok key
  pub signed : c.verifies key token ≡ true
  pub alg : c.algorithm token ≡ codes "ES256"
  -- the claims are those of the token, and speak of the caller and of the audience alone
  pub payload : c.decode_unverified token ≡ ok caller.claims
  pub subject : get (codes "sub") caller.claims ≡ some (str (to_str caller.id))
  pub audience : get (codes "aud") caller.claims ≡ some (str check.audience)
  pub has_exp : get (codes "exp") caller.claims ≡ some exp_claim
  pub is_exp : c.whole exp_claim ≡ some exp
  pub in_time : check.now <ℤ exp +ℤ check.leeway

sole : {A : Type 0} {a b : A} → Among a (b ∷ []) → a ≡ b
sole (inl e) = e
sole (inr h) = absurd h

module _ (c : Crypto) (sound : IsSound c) where
  Tried-IsAuthentic :
      (bundle : Bundle) (token : c.Token) (audience : Text) (leeway now : ℤ) (claimed : Claimed)
      (caller : Caller) (keys : List Value) (jwk : Value)
      → Reads c token claimed
      → lookup (to_str claimed.id) bundle.identities ≡ some keys
      → Among jwk keys
      → Tried c token (check_of audience leeway now) claimed.id caller jwk
      → IsAuthentic c bundle token (check_of audience leeway now) caller
  Tried-IsAuthentic bundle token audience leeway now claimed caller keys jwk reads bound among
        tried =
      let check = check_of audience leeway now in
      let payload = sound.decode-payload token tried.key check caller.claims tried.accepted in
      let same : reads.unverified ≡ caller.claims = ground arith in
      let (v, has_aud, names) =
        sound.decode-audience token tried.key check caller.claims tried.accepted in
      let (exp_claim, exp, has_exp, is_exp, in_time) =
        sound.decode-exp token tried.key check caller.claims tried.accepted in
      let is_aud =
        single_audience-listed (get (codes "aud") caller.claims) audience v
          (rw same at reads.single) has_aud names in
      record {
        keys = keys;
        jwk = jwk;
        key = tried.key;
        exp = exp;
        exp_claim = exp_claim;
        valid = rw (tried.same_id) reads.valid;
        bound = rw (tried.same_id) bound;
        among = among;
        is_key = tried.is_key;
        signed = sound.decode-verifies token tried.key check caller.claims tried.accepted;
        alg = sole (sound.decode-algorithm token tried.key check caller.claims tried.accepted);
        payload = payload;
        subject =
            ap (get (codes "sub")) (sym same)
            ∙ reads.sub
            ∙ ap (λ i. some (str (to_str i))) (sym tried.same_id);
        audience = has_aud ∙ ap some is_aud;
        has_exp = has_exp;
        is_exp = is_exp;
        in_time = in_time;
      }

  verify_with-IsAuthentic :
      (bundle : Bundle) (token : c.Token) (audience : Text) (leeway now : ℤ) (claimed : Claimed)
      (caller : Caller)
      → Reads c token claimed
      → verify_with c token (check_of audience leeway now) claimed bundle ≡ ok caller
      → IsAuthentic c bundle token (check_of audience leeway now) caller
  unfolding verify_with keys_for
  verify_with-IsAuthentic bundle token audience leeway now claimed caller reads h =
      let check = check_of audience leeway now in
      let (bound, h1, r1) = >>=-eq-ok (keys_for bundle (to_str claimed.id)) _ h in
      let (jwks, h2, r2) = >>=-eq-ok (candidates claimed.kid bound) _ r1 in
      let (jwk, among, tried) = try_keys-inv c token check claimed.id caller jwks r2 in
      Tried-IsAuthentic bundle token audience leeway now claimed caller bound jwk reads
        (from_option-ok _ _ h1) (candidates-Among claimed.kid bound jwks jwk h2 among) tried

module _ (codec : Codec) (c : Crypto) (sound : IsSound c) (at_stat at_read : Disk) where
  verify_claimed-IsAuthentic :
      (s : BundleSource.FileBundleSource) (token : c.Token) (audience : Text) (leeway now : ℤ)
      (r : Result Claimed) (caller : Caller)
      → read_claims c token ≡ r
      → (verify_claimed codec c at_stat at_read s token (check_of audience leeway now) r).0
        ≡ ok caller
      → (bundle : Bundle) × ((BundleSource.get codec at_stat at_read s).0 ≡ ok bundle)
        × IsAuthentic c bundle token (check_of audience leeway now) caller
  unfolding verify_claimed
  verify_claimed-IsAuthentic s token audience leeway now (raise e) caller p h = ground arith
  verify_claimed-IsAuthentic s token audience leeway now (ok claimed) caller p h =
      let (bundle, got, rest) = >>=-eq-ok (BundleSource.get codec at_stat at_read s).0 _ h in
      (
        bundle,
        got,
        verify_with-IsAuthentic c sound bundle token audience leeway now claimed caller
            (read_claims-Reads c token claimed p) rest,
      )

  -- If `verify` returns a caller, then the current bundle binds to the caller's ID a key under
  -- which the token's signature is valid, with the algorithm ES256. The claims are the token's own;
  -- their subject is the caller, their audience is the expected one as a single text, and the time
  -- of expiry is not past, by more than the leeway.
  pub verify-IsAuthentic :
      (self : Identity c.PrivateKey) (token : c.Token) (audience : Option Audience) (leeway now : ℤ)
      (caller : Caller)
      → (verify codec c at_stat at_read now self token audience leeway).0 ≡ ok caller
      → (bundle : Bundle) × ((BundleSource.get codec at_stat at_read self.bundle_source).0
          ≡ ok bundle)
        × IsAuthentic c bundle token
            (check_of (expected_audience self.id audience) leeway now)
            caller
  unfolding verify
  verify-IsAuthentic self token audience leeway now caller h =
      verify_claimed-IsAuthentic self.bundle_source token (expected_audience self.id audience)
        leeway now (read_claims c token) caller refl h

  -- A token that `verify` accepts for an identity is one whose audience `unverified_audience` reads
  -- as the audience that was expected.
  pub unverified_audience-verify :
      (self : Identity c.PrivateKey) (token : c.Token) (audience : Option Audience) (leeway now : ℤ)
      (caller : Caller)
      → (verify codec c at_stat at_read now self token audience leeway).0 ≡ ok caller
      → unverified_audience c token ≡ ok (some (expected_audience self.id audience))
  unfolding unverified_audience or_malformed single_audience
  unverified_audience-verify self token audience leeway now caller h =
      let (_, _, found) = verify-IsAuthentic self token audience leeway now caller h in
      rw (found.payload, found.audience) refl
