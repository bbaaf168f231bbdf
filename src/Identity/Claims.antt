-- ===== src/Identity/Claims.antt =====
-- The first part of `Identity.verify` (python/src/spiffile/identity.py): what a token says of
-- itself.
use spiffile.Prelude.{Text, codes, Option, none, some, ◌≡◌, ap, ◌∙◌, arith, text_Eq}
use spiffile.Prelude.Value.{Value, str, Fields, get}
use spiffile.Crypto.{Crypto, Header, Names, alone, listed}
use spiffile.Errors.{Result, ok, raise, >>=-eq-ok}
use spiffile.SpiffeId.{parse, to_str}
use spiffile.SpiffeId.Grammar.{IsValid}
use spiffile.SpiffeId.Parsing.{parse_iff}
use spiffile.Identity.{or_malformed, present_sub, single_audience, Claimed, read_claims}

or_malformed-ok : {A : Type 0} (r : Result A) {a : A} → or_malformed r ≡ ok a → r ≡ ok a
unfolding or_malformed
or_malformed-ok (ok b) h = h
or_malformed-ok (raise e) h = ground arith

present_sub-ok : (o : Option Value) {v : Value} → present_sub o ≡ ok v → o ≡ some v
unfolding present_sub
present_sub-ok none h = ground arith
present_sub-ok (some w) h = ground arith

pub single_audience-listed :
    (o : Option Value) (audience : Text) {aud : Option Text} (v : Value)
    → single_audience o ≡ ok aud
    → o ≡ some v
    → Names audience v
    → v ≡ str audience
unfolding single_audience
single_audience-listed o audience v h e (alone p) = p
single_audience-listed o audience v h e (listed vs p a) = ground arith

module _ (c : Crypto) where
  pub record Reads (token : c.Token) (claimed : Claimed) : Type 0 where
    pub header : Header
    pub unverified : Fields
    pub aud : Option Text
    pub has_header : c.get_unverified_header token ≡ ok header
    pub has_claims : c.decode_unverified token ≡ ok unverified
    pub kid : claimed.kid ≡ header.kid
    pub valid : IsValid claimed.id
    pub sub : get (codes "sub") unverified ≡ some (str (to_str claimed.id))
    pub single : single_audience (get (codes "aud") unverified) ≡ ok aud

  pub read_claims-Reads :
      (token : c.Token) (claimed : Claimed) → read_claims c token ≡ ok claimed → Reads token claimed
  unfolding read_claims
  read_claims-Reads token claimed h =
      let (header, h1, r1) = >>=-eq-ok (or_malformed (c.get_unverified_header token)) _ h in
      let (unverified, h2, r2) = >>=-eq-ok (or_malformed (c.decode_unverified token)) _ r1 in
      let (sub, h3, r3) = >>=-eq-ok (present_sub (get (codes "sub") unverified)) _ r2 in
      let (id, h4, r4) = >>=-eq-ok (parse sub) _ r3 in
      let (aud, h5, r5) = >>=-eq-ok (single_audience (get (codes "aud") unverified)) _ r4 in
      let same = (parse_iff sub id).0 h4 in
      let is_id : id ≡ claimed.id = ground arith in
      record {
        header = header;
        unverified = unverified;
        aud = aud;
        has_header = or_malformed-ok _ h1;
        has_claims = or_malformed-ok _ h2;
        kid = ground arith;
        valid = rw is_id at same.1;
        sub = present_sub-ok _ h3 ∙ ap some same.0 ∙ ap (λ i. some (str (to_str i))) is_id;
        single = h5;
      }
