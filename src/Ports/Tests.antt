-- ===== src/Ports/Tests.antt =====
-- Tests and blocks that the ports (go/, ts/src/) and the Python code write in different ways.
use spiffile.Prelude.{Bool, true, false, not, ◌≡◌, ◌↔◌, refl, sym, if◌then◌else◌}
use spiffile.Errors.{Exn, Result, ok, raise, require, ◌>>◌, ◌>>=◌}

-- Two tests of the same predicate.
pub same_test : {P : Type 0} (b b' : Bool) → ((b ≡ true) ↔ P) → ((b' ≡ true) ↔ P) → b ≡ b'
same_test true true h h' = refl
same_test true false h h' = sym (h'.1 (h.0 refl))
same_test false true h h' = h.1 (h'.0 refl)
same_test false false h h' = refl

pub raise_unless :
    {A : Type 0} (b : Bool) (e : Exn) (rest : Result A)
    → (if not b then raise e else rest) ≡ (require b e >> rest)
raise_unless true e rest = refl
raise_unless false e rest = refl

pub tests_in_turn :
    (b b' : Bool) (e e' : Exn) (rest : Result (Unit {0}))
    → (if b then raise e else if not b' then raise e' else rest)
      ≡ (require (not b) e >> require b' e') >> rest
tests_in_turn true b' e e' rest = refl
tests_in_turn false b' e e' rest = raise_unless b' e' rest

-- A block of calls that return nothing.
pub in_order :
    {A : Type 0} (first second : Result (Unit {0})) (r : Result A)
    → (first >>= λ _. second >>= λ _. r) ≡ first >> (second >> r)
in_order (ok _) (ok _) r = refl
in_order (ok _) (raise e) r = refl
in_order (raise e) second r = refl

pub two_tests :
    (b : Bool) (e : Exn) (second rest : Result (Unit {0}))
    → (if b then raise e else (second >>= λ _. rest)) ≡ (require (not b) e >> second) >> rest
two_tests true e second rest = refl
two_tests false e (ok _) rest = refl
two_tests false e (raise e') rest = refl
