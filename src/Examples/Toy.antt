-- ===== src/Examples/Toy.antt =====
-- A small implementation of the interfaces `Crypto` and `Codec`, for runs and for the examples of
-- the theorems. A token carries the number of the key that signed it.
use spiffile.Prelude.{
  ℕ, ◌+◌, Text, codes, Bool, true, false, ◌||◌, Option, none, some, List, [], ◌∷◌, ◌≡◌, inl, inr,
  refl, sym, ap, arith, ltb, text_eq, text_eq_iff, nat_eq, if◌then◌else◌, Bool-cases,
}
use spiffile.Prelude.Int.{ℤ, pos_part, neg_part, ◌+ℤ◌, ◌<ℤ◌}
use spiffile.Prelude.Value.{Value, int, str, arr, obj, Items, nil, cons, Fields, get, elements}
use spiffile.Crypto.{
  Crypto, Loaded, ec, not_ec, Header, Check, Among, Names, alone, listed, IsSound,
}
use spiffile.Disk.{Bytes}
use spiffile.Errors.{
  Exn, Result, ok, raise, ◌>>=◌, ◌>>◌, >>=-eq-ok, require, from_option, jwt_error, other_error,
  invalid_signature, jwk_error, other_jwt_error,
}
use spiffile.Keys.{b64url, big_endian}

pub record ToyToken : Type 0 where
  pub header : Header
  pub alg : Text
  pub claims : Fields
  pub signer : ℕ

-- The x coordinate of a key, as its JWK has it.
unfoldable pub coordinate : ℕ → Text
unfolding b64url big_endian
coordinate k = b64url (big_endian 32 k []).0

abbrev pub among : Text → List Text → Bool
among t [] = false
among t (s ∷ ss) = text_eq t s || among t ss

abbrev pub among_values : Text → Items → Bool
among_values t nil = false
among_values t (cons (str s) vs) = text_eq t s || among_values t vs
among_values t (cons _ vs) = among_values t vs

abbrev pub names : Text → Option Value → Bool
names audience (some (str s)) = text_eq s audience
names audience (some (arr vs)) = among_values audience vs
names audience _ = false

abbrev pub whole : Value → Option ℤ
whole (int n) = some n
whole _ = none

abbrev pub present : List Text → Fields → Bool
present [] claims = true
present (name ∷ names) claims = elim (get name claims) [
  | none ↦ false
  | some _ ↦ present names claims
]

abbrev pub bind_option {ℓ κ} : {A : Type ℓ} {B : Type κ} → Option A → (A → Option B) → Option B
bind_option none f = none
bind_option (some a) f = f a

abbrev pub before : ℤ → ℤ → Bool
before a b = ltb (pos_part a + neg_part b) (pos_part b + neg_part a)

abbrev pub refused : Result Fields
refused = raise (jwt_error other_jwt_error)

unfoldable pub toy_decode : ToyToken → Text → Check → Result Fields
toy_decode t k check = do
  require (among t.alg check.algorithms) (jwt_error other_jwt_error)
  require (text_eq (coordinate t.signer) k) (jwt_error invalid_signature)
  require (present check.required t.claims) (jwt_error other_jwt_error)
  exp ← from_option (bind_option (get (codes "exp") t.claims) whole) (jwt_error other_jwt_error)
  require (before check.now (exp +ℤ check.leeway)) (jwt_error other_jwt_error)
  require (names check.audience (get (codes "aud") t.claims)) (jwt_error other_jwt_error)
  ok t.claims

abbrev pub toy_jwk_key : Value → Result Text
toy_jwk_key (obj jwk) = elim (get (codes "x") jwk) [
  | some (str x) ↦ ok x
  | _ ↦ raise (jwt_error jwk_error)
]
toy_jwk_key _ = raise (jwt_error jwk_error)

-- The byte "R" stands for an RSA key.
abbrev pub toy_load : Bytes → Result (Loaded ℕ)
toy_load [] = raise (other_error 0)
toy_load (k ∷ _) = if nat_eq k b'R' then ok not_ec else ok (ec k)

abbrev pub toy : Crypto
toy = record {
  PrivateKey = ℕ;
  PublicKey = Text;
  Token = ToyToken;
  load_pem = toy_load;
  to_pem = λ k. k ∷ [];
  public_numbers = λ k. (k, k + 1);
  sha256 = λ bytes. bytes;
  get_unverified_header = λ t. ok t.header;
  decode_unverified = λ t. ok t.claims;
  jwk_key = toy_jwk_key;
  decode = toy_decode;
  encode = λ claims k alg header.
      ok (record { header = header; alg = alg; claims = claims; signer = k });
  whole = whole;
  is_ec = λ k. true;
  verifies = λ k t. text_eq (coordinate t.signer) k;
  algorithm = λ t. t.alg;
}

among-Among : (t : Text) (ss : List Text) → among t ss ≡ true → Among t ss
among-Among t [] h = ground arith
among-Among t (s ∷ ss) h = elim (Bool-cases (text_eq t s)) [
  | inl e ↦ inl ((text_eq_iff t s).0 e)
  | inr e ↦ inr (among-Among t ss (rw e at h))
]

among_values-Among :
    (t : Text) (vs : Items) → among_values t vs ≡ true → Among (str t) (elements vs)
among_values-Among t nil h = ground arith
among_values-Among t (cons (str s) vs) h = elim (Bool-cases (text_eq t s)) [
  | inl e ↦ inl (ap str ((text_eq_iff t s).0 e))
  | inr e ↦ inr (among_values-Among t vs (rw e at h))
]
among_values-Among t (cons _ vs) h = inr (among_values-Among t vs h)

names-Names :
    (audience : Text) (o : Option Value)
    → names audience o ≡ true
    → (v : Value) × (o ≡ some v) × Names audience v
names-Names audience (some (str s)) h = (str s, refl, alone (ap str ((text_eq_iff s audience).0 h)))
names-Names audience (some (arr vs)) h =
    (arr vs, refl, listed vs refl (among_values-Among audience vs h))
names-Names audience _ h = ground arith

present-some :
    (names : List Text) (claims : Fields) (name : Text)
    → present names claims ≡ true
    → Among name names
    → (v : Value) × (get name claims ≡ some v)
present-some [] claims name h a = absurd a
present-some (n ∷ ns) claims name h a = at (get n claims) refl (present-some ns claims name)
  where
    at :
        (o : Option Value)
        → get n claims ≡ o
        → (present ns claims ≡ true → Among name ns → (v : Value) × (get name claims ≡ some v))
        → (v : Value) × (get name claims ≡ some v)
    at none e ih = ground arith
    at (some v) e ih = elim a [ inl same ↦ (v, ground arith) | inr later ↦ ih (ground arith) later ]

require-true : (b : Bool) (e : Exn) {u : Unit {0}} → require b e ≡ ok u → b ≡ true
require-true true e h = refl
require-true false e h = ground arith

before-lt : (a b : ℤ) → before a b ≡ true → a <ℤ b
before-lt a b h = ground arith

whole_of :
    (o : Option Value) (e : Exn) {exp : ℤ}
    → from_option (bind_option o whole) e ≡ ok exp
    → (v : Value) × (o ≡ some v) × (whole v ≡ some exp)
whole_of none e h = ground arith
whole_of (some (int n)) e h = (int n, refl, ground arith)
whole_of (some _) e h = ground arith

-- What the steps of `toy_decode` have found.
record Accepted (t : ToyToken) (k : Text) (check : Check) (claims : Fields) : Type 0 where
  allowed : among t.alg check.algorithms ≡ true
  signed : text_eq (coordinate t.signer) k ≡ true
  complete : present check.required t.claims ≡ true
  exp : ℤ
  exp_claim : Value
  has_exp : get (codes "exp") t.claims ≡ some exp_claim
  is_exp : whole exp_claim ≡ some exp
  in_time : check.now <ℤ exp +ℤ check.leeway
  named : names check.audience (get (codes "aud") t.claims) ≡ true
  same : t.claims ≡ claims

toy_decode-Accepted :
    (t : ToyToken) (k : Text) (check : Check) (claims : Fields)
    → toy_decode t k check ≡ ok claims
    → Accepted t k check claims
unfolding toy_decode
toy_decode-Accepted t k check claims h =
    let (_, h1, r1) = >>=-eq-ok (require (among t.alg check.algorithms) _) _ h in
    let (_, h2, r2) = >>=-eq-ok (require (text_eq (coordinate t.signer) k) _) _ r1 in
    let (_, h3, r3) = >>=-eq-ok (require (present check.required t.claims) _) _ r2 in
    let (exp, h4, r4) =
      >>=-eq-ok (from_option (bind_option (get (codes "exp") t.claims) whole) _) _ r3 in
    let (_, h5, r5) = >>=-eq-ok (require (before check.now (exp +ℤ check.leeway)) _) _ r4 in
    let (_, h6, r6) =
      >>=-eq-ok (require (names check.audience (get (codes "aud") t.claims)) _) _ r5 in
    let (v, has_exp, is_exp) = whole_of (get (codes "exp") t.claims) _ h4 in
    record {
      allowed = require-true _ _ h1;
      signed = require-true _ _ h2;
      complete = require-true _ _ h3;
      exp = exp;
      exp_claim = v;
      has_exp = has_exp;
      is_exp = is_exp;
      in_time = before-lt check.now (exp +ℤ check.leeway) (require-true _ _ h5);
      named = require-true _ _ h6;
      same = ground arith;
    }

pub toy-IsSound : IsSound toy
toy-IsSound = record {
  decode-payload = λ t k check claims h. ap ok (toy_decode-Accepted t k check claims h).same;
  decode-verifies = λ t k check claims h. (toy_decode-Accepted t k check claims h).signed;
  decode-algorithm = λ t k check claims h.
      among-Among t.alg check.algorithms (toy_decode-Accepted t k check claims h).allowed;
  decode-audience = λ t k check claims h.
      let a = toy_decode-Accepted t k check claims h in
      rw (sym a.same) (names-Names check.audience _ a.named);
  decode-required = λ t k check claims name h r.
      let a = toy_decode-Accepted t k check claims h in
      rw (sym a.same) (present-some check.required t.claims name a.complete r);
  decode-exp = λ t k check claims h.
      let a = toy_decode-Accepted t k check claims h in
      (a.exp_claim, a.exp, rw (sym a.same) a.has_exp, a.is_exp, a.in_time);
}
