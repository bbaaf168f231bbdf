-- ===== src/Conformance/Checked.antt =====
-- What it means that conformance/matrix/cli.py prints that it has verified a token.
use spiffile.Prelude.{
  Text, codes, none, [], ◌∷◌, text_eq, text_eq_iff, text_Eq, ◌≡◌, sym, ap, ◌∙◌, arith, inl, inr,
  Bool-cases,
}
use spiffile.Prelude.Int.{ℤ}
use spiffile.Codec.{Codec}
use spiffile.Crypto.{Crypto, IsSound}
use spiffile.Disk.{path, Disk}
use spiffile.Disk.Action.{Host, >>=-eq-ok}
use spiffile.Errors.{ok}
use spiffile.SpiffeId.{to_str}
use spiffile.Bundle.{Bundle}
use spiffile.BundleSource
use spiffile.Identity.{
  Identity, Caller, verify, default_leeway_seconds, check_of, expected_audience,
}
use spiffile.Identity.Sound.{IsAuthentic, verify-IsAuthentic}
use spiffile.Provision.{load_identity}
use spiffile.Conformance.CommandLine.{id_of, verified, report, check_token, main}

module _ (codec : Codec) (c : Crypto) (token_text : c.Token → Text) (read_token : Text → c.Token)
    (host : Host) (now : ℤ) where
  -- The token is authentic for the service, by the bundle of its identity, and claims the ID.
  pub record IsChecked (d : Disk) (root service token_arg expected : Text) : Type 0 where
    pub identity : Identity c.PrivateKey
    pub caller : Caller
    pub bundle : Bundle
    pub loads : load_identity codec d (path root) service ≡ ok identity
    pub is_caller : to_str caller.id ≡ id_of expected
    pub has_bundle : (BundleSource.get codec d d identity.bundle_source).0 ≡ ok bundle
    pub is_authentic :
        IsAuthentic c bundle
          (read_token token_arg)
          (check_of (expected_audience identity.id none) default_leeway_seconds now)
          caller

  report-ok :
      (expected : Text) (caller : Caller) (out : Text)
      → report codec c token_text read_token host now expected caller ≡ ok out
      → (to_str caller.id ≡ id_of expected) × (out ≡ verified (id_of expected))
  unfolding report
  report-ok expected caller out h =
      elim (Bool-cases (text_eq (to_str caller.id) (id_of expected))) [
        | inl e ↦
            let same = (text_eq_iff (to_str caller.id) (id_of expected)).0 e in
            (same, ok-inj (sym (rw e at h)) ∙ ap verified same)
        | inr e ↦ absurd (let x = rw e at h in ground arith)
      ]
    where
      ok-inj : {s t : Text} → ok s ≡ ok t → s ≡ t
      ok-inj h' = cc

  -- When the command `verify` prints, it prints that it has verified the expected ID, and the disk
  -- is as it was. The token is authentic then: the bundle of the service's root binds to that ID a
  -- key that has signed it, with ES256, for the service, and it has not
  -- expired by more than the leeway of 30 seconds.
  pub main-IsChecked :
      (root service token_arg expected out : Text) (orders_key billing_key : c.PrivateKey)
      (d d' : Disk)
      → IsSound c
      → main codec c token_text read_token host now
          (codes "verify" ∷ root ∷ service ∷ token_arg ∷ expected ∷ [])
          orders_key
          billing_key
          d
        ≡ (ok out, d')
      → (out ≡ verified (id_of expected)) × (d' ≡ d) × IsChecked d root service token_arg expected
  unfolding main check_token text_eq
  main-IsChecked root service token_arg expected out orders_key billing_key d d' sound h =
      let (identity, d1, loads, r1) = >>=-eq-ok _ _ d h in
      let (caller, d2, is_verified, r2) = >>=-eq-ok _ _ d1 r1 in
      let same1 : d ≡ d1 = ap (λ x. x.1) loads in
      let same2 : d1 ≡ d2 = ap (λ x. x.1) is_verified in
      let same3 : d2 ≡ d' = ap (λ x. x.1) r2 in
      let (is_caller, is_out) = report-ok expected caller out (ap (λ x. x.0) r2) in
      let accepted =
        ap
          (λ e.
            (verify codec c e e now identity (read_token token_arg) none default_leeway_seconds).0)
          same1
        ∙ ap (λ x. x.0) is_verified in
      let (bundle, has_bundle, authentic) =
        verify-IsAuthentic codec c sound d d identity (read_token token_arg) none
          default_leeway_seconds now caller accepted in
      (
        is_out,
        sym (same1 ∙ same2 ∙ same3),
        record {
          identity = identity;
          caller = caller;
          bundle = bundle;
          loads = ap (λ x. x.0) loads;
          is_caller = is_caller;
          has_bundle = has_bundle;
          is_authentic = authentic;
        },
      )
