-- ===== src/Provision/Origin.antt =====
-- Where the keys of a provisioned root come from (python/src/spiffile/provision.py): which calls of
-- a run can be behind a token that `verify` (python/src/spiffile/identity.py) accepts.
use spiffile.Prelude.{
  Text, true, false, Option, some, List, [], ◌∷◌, ◌++◌, ◌⊎◌, inl, inr, ◌≡◌, ◌≢◌, refl, sym, ap, ◌∙◌,
  arith, All, Bool-cases, text_eq, text_eq_iff, text_Eq,
}
use spiffile.Prelude.Int.{ℤ}
use spiffile.Prelude.Value.{Value, obj}
use spiffile.Codec.{Codec}
use spiffile.Crypto.{Crypto, IsSound, Among}
use spiffile.Disk.{FilePath, Disk, ◌//◌}
use spiffile.Errors.{ok}
use spiffile.SpiffeId.{to_str}
use spiffile.Bundle.{Bundle}
use spiffile.BundleSource
use spiffile.Identity.{Identity, Audience, Caller, verify}
use spiffile.Identity.Sound.{verify-IsAuthentic}
use spiffile.Provision.{bundle_filename}
use spiffile.Provision.Layout.{IsRoot}
use spiffile.Provision.Registry.{
  Registry, registry, Event, issues, replaces, revokes, leaves, bears, others, keys_of, keys_after,
  id_of, apply, replay,
}
use spiffile.Provision.Runs.{Run, events, Run-replay}

-- The call binds this key to the ID.
abbrev pub Makes : Text → Value → Event → Type 0
Makes id key (issues i jwk) = (i ≡ id) × (key ≡ obj jwk)
Makes id key (replaces i keep_old jwk) = (i ≡ id) × (key ≡ obj jwk)
Makes id key _ = ⊥

-- The call is for another ID, changes nothing, or is a rotation that keeps the old keys.
abbrev pub Spares : Text → Event → Type 0
Spares id (replaces i true jwk) = Unit
Spares id (leaves i) = Unit
Spares id e = id_of e ≢ id

-- How a key came to be bound to an ID.
pub data Origin (id : Text) (key : Value) (es : List Event) (r : Registry) : Type 0 where
  bound_before : Among key (keys_of (r id)) → All (Spares id) es → Origin id key es r
  made_by :
      (before : List Event) (e : Event) (later : List Event)
      → es ≡ before ++ e ∷ later
      → Makes id key e
      → All (Spares id) later
      → Origin id key es r

others-Among :
    (kid : Text) (keys : List Value) (key : Value) → Among key (others kid keys) → Among key keys
unfolding others
others-Among kid [] key a = a
others-Among kid (k ∷ keys) key a = elim (Bool-cases (bears kid k)) [
  | inl e ↦ inr (others-Among kid keys key (rw e at a))
  | inr e ↦ elim (rw e at a) [
    | inl same ↦ inl same
    | inr more ↦ inr (others-Among kid keys key more)
  ]
]

Spares-id_of : (id : Text) (e : Event) → id_of e ≢ id → Spares id e
Spares-id_of id (issues i jwk) h = h
Spares-id_of id (replaces i true jwk) h = tt
Spares-id_of id (replaces i false jwk) h = h
Spares-id_of id (revokes i) h = h
Spares-id_of id (leaves i) h = tt

-- A key that an ID has behind a call.
keys_after-Makes :
    (e : Event) (id : Text) (key : Value) (old : Option (List Value))
    → id_of e ≡ id
    → Among key (keys_of (keys_after e old))
    → Makes id key e ⊎ (Spares id e × Among key (keys_of old))
unfolding keys_after keys_of
keys_after-Makes (issues i jwk) id key old same (inl e) = inl (same, e)
keys_after-Makes (replaces i true jwk) id key old same (inl e) = inl (same, e)
keys_after-Makes (replaces i true jwk) id key old same (inr a) =
    inr (tt, others-Among _ (keys_of old) key a)
keys_after-Makes (replaces i false jwk) id key old same (inl e) = inl (same, e)
keys_after-Makes (issues i jwk) id key old same (inr a) = elim a [ ]
keys_after-Makes (replaces i false jwk) id key old same (inr a) = elim a [ ]
keys_after-Makes (revokes _) id key old same a = elim a [ ]
keys_after-Makes (leaves _) id key old same a = inr (tt, a)

-- A key that an ID has behind any call.
apply-Makes :
    (e : Event) (r : Registry) (id : Text) (key : Value)
    → Among key (keys_of (apply e r id))
    → Makes id key e ⊎ (Spares id e × Among key (keys_of (r id)))
apply-Makes e r id key a = elim (Bool-cases (text_eq (id_of e) id)) [
  | inl same ↦ keys_after-Makes e id key (r id) ((text_eq_iff (id_of e) id).0 same) (rw same at a)
  | inr other ↦
      inr (Spares-id_of id e (λ same. ground (arith, text_eq_iff (id_of e) id)), rw other at a)
]

-- Every key of the registry behind a run has an origin.
replay-Origin :
    (es : List Event) (r : Registry) (id : Text) (key : Value)
    → Among key (keys_of (replay es r id))
    → Origin id key es r
replay-Origin [] r id key a = bound_before a tt
replay-Origin (e ∷ es) r id key a = elim (replay-Origin es (apply e r) id key a) [
  | bound_before old spared ↦ elim (apply-Makes e r id key old) [
    | inl makes ↦ made_by [] e es refl makes spared
    | inr (spares, older) ↦ bound_before older (spares, spared)
  ]
  | made_by before e' later same makes spared ↦
      made_by (e ∷ before) e' later (ap (◌∷◌ e) same) makes spared
]

-- A key under which a token's signature is valid, with its origin.
pub record SignedBy (c : Crypto) (token : c.Token) (id : Text) (es : List Event) (r : Registry)
    : Type 0 where
  pub jwk : Value
  pub key : c.PublicKey
  pub is_key : c.jwk_key jwk ≡ ok key
  pub signed : c.verifies key token ≡ true
  pub origin : Origin id jwk es r

-- Only the keys of the calls are trusted. Take a root with a readable bundle, and any run of calls
-- of `add_service` for new services, of `rotate_service` for services with a key file and of
-- `remove_service` for services with their two files alone in their folder, each of which returns
-- and writes a bundle that can be read back, and of calls of the three that leave the disk as it
-- is. If an identity that reads the bundle of the root accepts a token in `verify` behind the run,
-- then the token's signature is valid under a key that was bound before the run to the very ID of
-- the caller, or that a call of the run made for this ID; and every later call of the run for this
-- ID is a rotation that keeps the old keys or leaves the disk as it is, so the key was neither
-- revoked nor replaced. The signature checks of PyJWT are assumed to be sound.
pub Run-SignedBy :
    (codec : Codec) (c : Crypto) (sound : IsSound c) (root : FilePath) (td : Text) (ids : List Text)
    (d d' : Disk) (b : Bundle) (self : Identity c.PrivateKey) (token : c.Token)
    (audience : Option Audience) (leeway now : ℤ) (caller : Caller)
    → self.bundle_source ≡ BundleSource.source (root // bundle_filename)
    → IsRoot codec d root td b
    → (run : Run codec c root td ids d d')
    → (verify codec c d' d' now self token audience leeway).0 ≡ ok caller
    → SignedBy c token (to_str caller.id) (events codec c root td run) (registry b)
Run-SignedBy codec c sound root td ids d d' b self token audience leeway now caller is_source r run
      accepted =
    let end = Run-replay codec c root td ids d d' b r run in
    let (bundle, got, found) =
      verify-IsAuthentic codec c sound d' d' self token audience leeway now caller accepted in
    let got' = ap (λ s. (BundleSource.get codec d' d' s).0) (sym is_source) ∙ got in
    let same : end.after_bundle ≡ bundle = ok-inj (sym end.is_root.has_bundle ∙ got') in
    let keys_now : replay (events codec c root td run) (registry b) (to_str caller.id)
        ≡ some found.keys =
      ap (λ f. f (to_str caller.id)) (sym end.is_registry)
      ∙ ap (λ x. registry x (to_str caller.id)) same
      ∙ found.bound in
    record {
      jwk = found.jwk;
      key = found.key;
      is_key = found.is_key;
      signed = found.signed;
      origin =
          replay-Origin (events codec c root td run) (registry b) (to_str caller.id) found.jwk
            (rw keys_now (unfold keys_of in found.among));
    }
  where
    ok-inj : {x y : Bundle} → ok x ≡ ok y → x ≡ y
    ok-inj h = cc
