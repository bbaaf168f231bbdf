-- ===== src/Errors.antt =====
-- python/src/spiffile/errors.py: the exceptions as values. Each `raise` of the program has a
-- constructor of its own, below the class that it raises; the text of the message is left out.
-- The last group is what the interpreter and its library raise.
use spiffile.Prelude.{
  ℕ, Text, Bool, true, false, ◌≡◌, ◌⊎◌, inl, inr, refl, Option, none, some, arith,
}

-- `InvalidSpiffeIdError`, in the order of the tests of `SpiffeId.parse`.
pub data IdFault : Type 0 where
  missing_scheme empty_trust_domain trust_domain_chars trailing_slash : IdFault
  empty_segment segment_chars : IdFault
  relative_segment : Text → IdFault

-- `InvalidBundleError`
pub data BundleFault : Type 0 where
  missing_member unsupported_version unreadable : BundleFault

-- PyJWT's exceptions, as far as the program tells them apart.
pub data JwtFault : Type 0 where
  invalid_signature jwk_error other_jwt_error : JwtFault

-- `InvalidTokenError`
pub data TokenFault : Type 0 where
  malformed no_sub multi_audience no_matching_key : TokenFault
  rejected : JwtFault → TokenFault

-- A direct `SpiffileError`
pub data PlainFault : Type 0 where
  not_configured already_initialized unknown_service : PlainFault

pub data Exn : Type 0 where
  invalid_spiffe_id : IdFault → Exn
  invalid_bundle : BundleFault → Exn
  unknown_identity : Text → Exn
  invalid_token : TokenFault → Exn
  plain : PlainFault → Exn
  jwt_error : JwtFault → Exn
  os_error file_not_found unicode_error attribute_error type_error key_error overflow_error : Exn
  index_error assertion_error system_exit : Exn
  other_error : ℕ → Exn

-- `isinstance(e, SpiffileError)`
abbrev pub is_spiffile_error : Exn → Bool
is_spiffile_error (invalid_spiffe_id _) = true
is_spiffile_error (invalid_bundle _) = true
is_spiffile_error (unknown_identity _) = true
is_spiffile_error (invalid_token _) = true
is_spiffile_error (plain _) = true
is_spiffile_error _ = false

-- What a call returns or raises.
pub data Result {ℓ} (A : Type ℓ) : Type ℓ where
  ok : A → Result A
  raise : Exn → Result A

-- What follows a call sees its value, and is skipped when it raises.
infixl 5 ◌>>=◌ ◌>>◌
abbrev pub ◌>>=◌ {ℓ κ} : {A : Type ℓ} {B : Type κ} → Result A → (A → Result B) → Result B
raise e >>= next = raise e
ok value >>= next = next value

abbrev pub ◌>>◌ {ℓ} : {B : Type ℓ} → Result (Unit {0}) → Result B → Result B
call >> next = call >>= λ _. next

-- `if not b: raise e`
abbrev pub require : Bool → Exn → Result (Unit {0})
require true e = ok tt
require false e = raise e

-- A value that must be there: `none` raises.
abbrev pub from_option {ℓ} : {A : Type ℓ} → Option A → Exn → Result A
from_option none e = raise e
from_option (some a) e = ok a

pub Result-cases {ℓ} :
    {A : Type ℓ} (r : Result A) → ((a : A) × (r ≡ ok a)) ⊎ ((e : Exn) × (r ≡ raise e))
Result-cases (ok a) = inl (a, refl)
Result-cases (raise e) = inr (e, refl)

-- A block that returns went through each of its steps.
module _ {ℓ κ} {A : Type ℓ} {B : Type κ} where
  pub >>=-eq-ok :
      (call : Result A) (next : A → Result B) {result : B}
      → (call >>= next) ≡ ok result
      → (value : A) × (call ≡ ok value) × (next value ≡ ok result)
  >>=-eq-ok (raise e) next h = ground arith
  >>=-eq-ok (ok value) next h = (value, refl, h)

  -- A block whose last step cannot raise has raised before.
  pub >>=-ok-eq-raise :
      (call : Result A) (result : B) (e : Exn)
      → (call >>= λ _. ok result) ≡ raise e
      → call ≡ raise e
  >>=-ok-eq-raise (raise x) result e h = ground arith
  >>=-ok-eq-raise (ok value) result e h = ground arith
