-- ===== src/Examples/ToyLaws.antt =====
-- The small implementation of `Crypto` keeps the laws of the interface.
use spiffile.Prelude.{
  ℕ, ◌+◌, Text, codes, true, some, List, [], ◌∷◌, ◌≡◌, inl, inr, refl, sym, ap, ◌∙◌, arith, text_Eq,
  text_eq, text_eq_iff, nat_eq, Bool-cases,
}
use spiffile.Prelude.Int.{ℤ, ◌<ℤ◌}
use spiffile.Prelude.Value.{Value, str, obj, Fields, end, field, get}
use spiffile.Codec.{Codec}
use spiffile.Crypto.{Among, IsStrict, IsFaithful}
use spiffile.Disk.{Bytes}
use spiffile.Errors.{ok, >>=-eq-ok}
use spiffile.Keys.{
  jwt_svid_use, algorithm, jwk_thumbprint, public_jwk, big_endian, to_bytes, b64url, coordinates,
  coord_length,
}
use spiffile.Identity.RoundTrip.{KeyPairs}
use spiffile.Examples.Toy.{
  ToyToken, toy, toy_decode, toy_jwk_key, coordinate, among, present, before,
}

Among-among : (t : Text) (ss : List Text) → Among t ss → among t ss ≡ true
Among-among t [] a = absurd a
Among-among t (s ∷ ss) (inl same) = rw ((text_eq_iff t s).1 same) refl
Among-among t (s ∷ ss) (inr later) = elim (Bool-cases (text_eq t s)) [
  | inl e ↦ rw e refl
  | inr e ↦ rw e (Among-among t ss later)
]

lt-before : (a b : ℤ) → a <ℤ b → before a b ≡ true
lt-before a b h = ground arith

pub toy-IsStrict : IsStrict toy
toy-IsStrict = record {
  decode-invalid = λ t k check alg ec bad.
      unfold toy_decode in rw (Among-among t.alg check.algorithms alg, bad) refl;
}

ok-inj : {A : Type 0} {a b : A} → ok a ≡ ok b → a ≡ b
ok-inj h = ground arith

present-all :
    (claims : Fields) {a b d : Value}
    → get (codes "sub") claims ≡ some a
    → get (codes "aud") claims ≡ some b
    → get (codes "exp") claims ≡ some d
    → present (codes "sub" ∷ codes "aud" ∷ codes "exp" ∷ []) claims ≡ true
present-all claims sub aud exp = rw (present, sub, aud, exp) refl

pub toy-IsFaithful : IsFaithful toy
toy-IsFaithful = record {
  encode-header = λ claims k alg h t e. ap (λ (s : ToyToken). ok s.header) (sym (ok-inj e));
  encode-claims = λ claims k alg h t e. ap (λ (s : ToyToken). ok s.claims) (sym (ok-inj e));
  encode-algorithm = λ claims k alg h t e. ap (λ (s : ToyToken). s.alg) (sym (ok-inj e));
  decode-valid = λ claims key alg h t k check subject e good allowed required sub aud timely.
      let same : t.claims ≡ claims = ap (λ (s : ToyToken). s.claims) (sym (ok-inj e)) in
      let same_alg : t.alg ≡ alg = ap (λ (s : ToyToken). s.alg) (sym (ok-inj e)) in
      unfold toy_decode in
      rw
        (
          same_alg,
          Among-among alg check.algorithms allowed,
          good,
          same,
          required,
          present-all claims sub aud timely.has_exp,
          timely.has_exp,
          lt-before _ _ timely.not_expired,
          aud,
          (text_eq_iff check.audience check.audience).1 refl,
        )
        refl;
}

to_bytes-ok :
    (length x : ℕ) (bytes : Bytes)
    → to_bytes length x ≡ ok bytes
    → bytes ≡ (big_endian length x []).0
unfolding to_bytes
to_bytes-ok length x bytes h = elim (Bool-cases (nat_eq (big_endian length x []).1 0)) [
  | inl e ↦ ground arith
  | inr e ↦ ground arith
]

b64url-to_bytes :
    (k : ℕ) (xs : Bytes) → to_bytes coord_length k ≡ ok xs → ok (b64url xs) ≡ ok (coordinate k)
unfolding coordinate
b64url-to_bytes k xs h = ap (λ b. ok (b64url b)) (to_bytes-ok coord_length k xs h)

toy_jwk_key-coordinates :
    (x y : Text) (rest : Fields) → toy_jwk_key (obj (coordinates x y rest)) ≡ ok x
unfolding coordinates text_eq
toy_jwk_key-coordinates x y rest = refl

jwk_key-public_jwk :
    (codec : Codec) (k : ℕ) (jwk : Fields)
    → public_jwk codec toy k ≡ ok jwk
    → toy_jwk_key (obj jwk) ≡ ok (coordinate k)
unfolding public_jwk
jwk_key-public_jwk codec k jwk h =
    let (xs, is_x, r1) = >>=-eq-ok (to_bytes coord_length k) _ h in
    let (ys, is_y, r2) = >>=-eq-ok (to_bytes coord_length (k + 1)) _ r1 in
    let (kid, is_kid, r3) =
      >>=-eq-ok (jwk_thumbprint codec toy (coordinates (b64url xs) (b64url ys) end)) _ r2 in
    ap (λ (j : Fields). toy_jwk_key (obj j)) (sym (ok-inj r3))
    ∙ toy_jwk_key-coordinates (b64url xs) (b64url ys) (
        field (codes "kid") (str kid)
          (field (codes "use") (str jwt_svid_use) (field (codes "alg") (str algorithm) end)))
    ∙ b64url-to_bytes k xs is_x

pub toy-KeyPairs : (codec : Codec) → KeyPairs codec toy
toy-KeyPairs codec = record {
  public = coordinate;
  jwk_key-public_jwk = jwk_key-public_jwk codec;
  encode-verifies = λ claims k alg h t e.
      ap (λ (s : ToyToken). text_eq (coordinate s.signer) (coordinate k)) (sym (ok-inj e))
      ∙ (text_eq_iff (coordinate k) (coordinate k)).1 refl;
}

pub public-toy-KeyPairs : (codec : Codec) (k : ℕ) → (toy-KeyPairs codec).public k ≡ coordinate k
unfolding toy-KeyPairs
public-toy-KeyPairs codec k = refl
