-- ===== src/Provision/Runs.antt =====
-- Runs of `add_service`, `rotate_service` and `remove_service` (python/src/spiffile/provision.py)
-- for the services of a trust domain, one after the other, and what they make of the registry.
use mathlib.Core.Path.{fun_ext}
use spiffile.Prelude.{Text, Bool, some, List, [], ◌∷◌, ◌≡◌, refl, sym, ap, ◌∙◌, text_Eq}
use spiffile.Prelude.Dict.{lookup-insert, lookup-erase}
use spiffile.Prelude.Value.{Value, str, obj, Fields}
use spiffile.Codec.{Codec}
use spiffile.Crypto.{Crypto}
use spiffile.Disk.{FilePath, Disk}
use spiffile.Disk.Action.{Host}
use spiffile.Errors.{Result, ok}
use spiffile.SpiffeId.{SpiffeId, parse, to_str}
use spiffile.Bundle.{Bundle}
use spiffile.Keys.{public_jwk}
use spiffile.Keys.Jwk.{public_jwk-IsJwkOf}
use spiffile.Provision.Operations.{
  id_text, existing_keys, add_service, rotate_service, remove_service,
}
use spiffile.Provision.Retained.{without_kid}
use spiffile.Provision.Stored.{Stores, current}
use spiffile.Provision.Layout.{IsRoot, IsVacant, bound}
use spiffile.Provision.Add.{add_service-Added}
use spiffile.Provision.Rotate.{IsService, rotate_service-Rotated}
use spiffile.Provision.Remove.{remove_service-Removed}
use spiffile.Provision.Complete.{IsComplete, unbound}
use spiffile.Provision.Registry.{
  Registry, registry, Event, issues, replaces, revokes, leaves, id_of, keys_after, apply, replay,
  keys_after-replaces, at_id, apply-leaves,
}

-- One call, for the service of this ID.
pub data Step (codec : Codec) (c : Crypto) (root : FilePath) (td spiffe_id : Text) (d d' : Disk)
    : Type 0 where
  added :
      (host : Host) (name : Text) (segments : List Text) (b : Bundle) (id : SpiffeId)
      (new_key : c.PrivateKey) (jwk : Fields)
      → IsRoot codec d root td b
      → IsVacant d root name segments
      → parse (str (id_text codec b name)) ≡ ok id
      → public_jwk codec c new_key ≡ ok jwk
      → Stores codec (bound b id (obj jwk ∷ []))
      → spiffe_id ≡ to_str id
      → add_service codec c host root name new_key d ≡ (ok id, d')
      → Step codec c root td spiffe_id d d'
  rotated :
      (host : Host) (name : Text) (segments : List Text) (b : Bundle) (id : SpiffeId)
      (keep_old : Bool) (new_key : c.PrivateKey) (jwk : Fields) (kept : List Value)
      → IsRoot codec d root td b
      → IsService d root name segments
      → parse (str (id_text codec b name)) ≡ ok id
      → public_jwk codec c new_key ≡ ok jwk
      → without_kid jwk (existing_keys b (to_str id) keep_old) ≡ ok kept
      → Stores codec (bound b id (obj jwk ∷ kept))
      → spiffe_id ≡ to_str id
      → rotate_service codec c host root name keep_old new_key d ≡ (ok id, d')
      → Step codec c root td spiffe_id d d'
  removed :
      (host : Host) (name : Text) (segments : List Text) (b : Bundle)
      → IsRoot codec d root td b
      → IsComplete d root name segments
      → Stores codec (unbound b (id_text codec b name))
      → spiffe_id ≡ id_text codec b name
      → remove_service codec host root name d ≡ (ok tt, d')
      → Step codec c root td spiffe_id d d'
  -- a call that returns without a change, as for a service that is there, or raises without one
  unchanged_add :
      (host : Host) (name : Text) (new_key : c.PrivateKey) (answer : Result SpiffeId)
      → add_service codec c host root name new_key d ≡ (answer, d)
      → d ≡ d'
      → Step codec c root td spiffe_id d d'
  unchanged_rotate :
      (host : Host) (name : Text) (keep_old : Bool) (new_key : c.PrivateKey)
      (answer : Result SpiffeId)
      → rotate_service codec c host root name keep_old new_key d ≡ (answer, d)
      → d ≡ d'
      → Step codec c root td spiffe_id d d'
  unchanged_remove :
      (host : Host) (name : Text) (answer : Result (Unit {0}))
      → remove_service codec host root name d ≡ (answer, d)
      → d ≡ d'
      → Step codec c root td spiffe_id d d'

-- A run of calls, with the IDs of their services.
pub data Run (codec : Codec) (c : Crypto) (root : FilePath) (td : Text)
    : List Text → Disk → Disk → Type 0 where
  done : {d : Disk} → Run codec c root td [] d d
  after :
      {spiffe_id : Text} {ids : List Text} {d d1 d' : Disk}
      → Step codec c root td spiffe_id d d1
      → Run codec c root td ids d1 d'
      → Run codec c root td (spiffe_id ∷ ids) d d'

-- The root has a bundle that is this registry.
pub record Becomes (codec : Codec) (d' : Disk) (root : FilePath) (td : Text) (r : Registry)
    : Type 0 where
  pub after_bundle : Bundle
  pub is_root : IsRoot codec d' root td after_bundle
  pub is_registry : registry after_bundle ≡ r

module _ (codec : Codec) (c : Crypto) (root : FilePath) (td : Text) where
  abbrev pub event : {spiffe_id : Text} {d d' : Disk} → Step codec c root td spiffe_id d d' → Event
  event (added host name segments b id new_key jwk _ _ _ _ _ _ _) = issues (to_str id) jwk
  event (rotated host name segments b id keep_old new_key jwk _ _ _ _ _ _ _ _ _) =
      replaces (to_str id) keep_old jwk
  event (removed host name segments b _ _ _ _ _) = revokes (id_text codec b name)
  event {spiffe_id} _ = leaves spiffe_id

  abbrev pub events : {ids : List Text} {d d' : Disk} → Run codec c root td ids d d' → List Event
  events done = []
  events (after step run) = event step ∷ events run

  pub event-id_of :
      {spiffe_id : Text} {d d' : Disk} (step : Step codec c root td spiffe_id d d')
      → spiffe_id ≡ id_of (event step)
  event-id_of (added host name segments b id new_key jwk _ _ _ _ _ is_id _) = is_id
  event-id_of (rotated host name segments b id keep_old new_key jwk _ _ _ _ _ _ _ is_id _) = is_id
  event-id_of (removed host name segments b _ _ _ is_id _) = is_id
  event-id_of (unchanged_add host name new_key answer _ _) = refl
  event-id_of (unchanged_rotate host name keep_old new_key answer _ _) = refl
  event-id_of (unchanged_remove host name answer _ _) = refl

  same_bundle :
      (d : Disk) (b b' : Bundle) → IsRoot codec d root td b → IsRoot codec d root td b' → b' ≡ b
  same_bundle d b b' r r' = ok-inj (sym r'.has_bundle ∙ r.has_bundle)
    where
      ok-inj : {x y : Bundle} → ok x ≡ ok y → x ≡ y
      ok-inj h = cc

  with_bundle :
      (d d1 d' : Disk) (b b' : Bundle)
      → IsRoot codec d root td b
      → b'.trust_domain ≡ b.trust_domain
      → d1 ≡ d'
      → current codec d1 root ≡ ok b'
      → IsRoot codec d' root td b'
  with_bundle d d1 d' b b' r same here has = record {
    direct = r.direct;
    has_bundle = rw (← here) has;
    is_text = same ∙ r.is_text;
    domain = r.domain;
  }

  stays :
      (spiffe_id : Text) (d d' : Disk) (b : Bundle)
      → IsRoot codec d root td b
      → d ≡ d'
      → Becomes codec d' root td (apply (leaves spiffe_id) (registry b))
  stays spiffe_id d d' b r same = record {
    after_bundle = b;
    is_root = rw (← same) r;
    is_registry = sym (fun_ext (apply-leaves spiffe_id (registry b)));
  }

  pub Step-Becomes :
      (spiffe_id : Text) (d d' : Disk) (b : Bundle)
      → IsRoot codec d root td b
      → (step : Step codec c root td spiffe_id d d')
      → Becomes codec d' root td (apply (event step) (registry b))
  unfolding keys_after
  Step-Becomes spiffe_id d d' b r
        (added host name segments b0 id new_key jwk r0 vacant parsed is_jwk stores is_id called) =
      let (d1, called1, post) =
        add_service-Added codec c host d root name segments td b0 id new_key jwk r0 vacant parsed
          is_jwk stores in
      record {
        after_bundle = bound b0 id (obj jwk ∷ []);
        is_root =
            with_bundle d d1 d' b0 (bound b0 id (obj jwk ∷ [])) r0 refl
              (ap (λ x. x.1) (sym called1 ∙ called)) post.has_bundle;
        is_registry =
            fun_ext (λ i. lookup-insert (to_str id) i (obj jwk ∷ []) b0.identities)
            ∙ ap (λ x. apply (issues (to_str id) jwk) (registry x)) (same_bundle d b b0 r r0);
      }
  Step-Becomes spiffe_id d d' b r
        (rotated host name segments b0 id keep_old new_key jwk kept r0 service parsed is_jwk is_kept
          stores is_id called) =
      let (d1, called1, post) =
        rotate_service-Rotated codec c host d root name segments td b0 id keep_old new_key jwk kept
          r0 service parsed is_jwk is_kept stores in
      let is = public_jwk-IsJwkOf codec c new_key jwk is_jwk in
      record {
        after_bundle = bound b0 id (obj jwk ∷ kept);
        is_root =
            with_bundle d d1 d' b0 (bound b0 id (obj jwk ∷ kept)) r0 refl
              (ap (λ x. x.1) (sym called1 ∙ called)) post.has_bundle;
        is_registry =
            fun_ext (λ i. lookup-insert (to_str id) i (obj jwk ∷ kept) b0.identities)
            ∙ fun_ext (λ i.
              at_id (replaces (to_str id) keep_old jwk) (registry b0) (some (obj jwk ∷ kept)) i
                (keys_after-replaces (to_str id) keep_old jwk is.kid b0 kept is.has_kid is_kept))
            ∙ ap (λ x. apply (replaces (to_str id) keep_old jwk) (registry x))
                (same_bundle d b b0 r r0);
      }
  Step-Becomes spiffe_id d d' b r (removed host name segments b0 r0 complete stores is_id called) =
      let (d1, called1, post) =
        remove_service-Removed codec host d root name segments td b0 r0 complete stores in
      record {
        after_bundle = unbound b0 (id_text codec b0 name);
        is_root =
            with_bundle d d1 d' b0 (unbound b0 (id_text codec b0 name)) r0 refl
              (ap (λ x. x.1) (sym called1 ∙ called)) post.has_bundle;
        is_registry =
            fun_ext (λ i. lookup-erase (id_text codec b0 name) i b0.identities)
            ∙ ap (λ x. apply (revokes (id_text codec b0 name)) (registry x))
                (same_bundle d b b0 r r0);
      }
  Step-Becomes spiffe_id d d' b r (unchanged_add host name new_key answer _ same) =
      stays spiffe_id d d' b r same
  Step-Becomes spiffe_id d d' b r (unchanged_rotate host name keep_old new_key answer _ same) =
      stays spiffe_id d d' b r same
  Step-Becomes spiffe_id d d' b r (unchanged_remove host name answer _ same) =
      stays spiffe_id d d' b r same

  -- Runs of calls refine a registry of keys. In a root with a readable bundle, after any run of
  -- calls of `add_service` for new services, of `rotate_service` for services with a key file and
  -- of `remove_service` for services with their two files alone in their folder, each of which
  -- returns and writes a bundle that can be read back, and of calls of the three that leave the
  -- disk as it is, the bundle binds to every ID exactly the keys that the replay of the calls on
  -- the keys before gives: `add_service` makes the new key the only one of its ID,
  -- `rotate_service` puts the new key before the old ones with another `kid`, or leaves it alone
  -- if the old ones are not kept, `remove_service` leaves the ID without keys, and no call changes
  -- another ID.
  pub Run-replay :
      (ids : List Text) (d d' : Disk) (b : Bundle)
      → IsRoot codec d root td b
      → (run : Run codec c root td ids d d')
      → Becomes codec d' root td (replay (events run) (registry b))
  Run-replay [] d d' b r done = record { after_bundle = b; is_root = r; is_registry = refl }
  Run-replay (spiffe_id ∷ ids) d d' b r (after {d1 = d1} step run) =
      let next = Step-Becomes spiffe_id d d1 b r step in
      let rest = Run-replay ids d1 d' next.after_bundle next.is_root run in
      record {
        after_bundle = rest.after_bundle;
        is_root = rest.is_root;
        is_registry = rest.is_registry ∙ ap (replay (events run)) next.is_registry;
      }
