-- ===== src/Provision/Registry.antt =====
-- The bundle of a root as a registry (python/src/spiffile/provision.py): what a call makes of the
-- keys of its ID, with no document and no disk.
use spiffile.Prelude.{
  Text, codes, Bool, true, false, Option, not, none, some, List, [], ◌∷◌, ◌==◌, ◌≡◌, ◌≢◌, refl, sym,
  ap, ◌∙◌, arith, text_Eq, text_eq, text_eq_iff, if◌then◌else◌, Bool-cases, Option-cases, inl, inr,
}
use spiffile.Prelude.Dict.{lookup}
use spiffile.Prelude.Value.{Value, str, obj, Fields, get}
use spiffile.Errors.{ok, >>=-eq-ok}
use spiffile.Bundle.{Bundle}
use spiffile.Keys.{item}
use spiffile.Provision.Operations.{existing_keys}
use spiffile.Provision.Retained.{other_kid, is_retained, without_kid}

-- The keys of each ID, the newest first; an ID that is not registered has none.
abbrev pub Registry : Type 0
Registry = Text → Option (List Value)

abbrev pub registry : Bundle → Registry
registry b id = lookup id b.identities

-- What a call does to the registry.
pub data Event : Type 0 where
  issues : (id : Text) (jwk : Fields) → Event
  replaces : (id : Text) (keep_old : Bool) (jwk : Fields) → Event
  revokes leaves : (id : Text) → Event

-- The `kid` of a JWK of the program, which has one.
abbrev pub kid_of : Option Value → Text
kid_of (some (str kid)) = kid
kid_of _ = []

abbrev pub kid_text : Fields → Text
kid_text jwk = kid_of (get (codes "kid") jwk)

abbrev pub is_kid : Text → Option Value → Bool
is_kid kid (some (str k)) = text_eq k kid
is_kid kid _ = false

abbrev pub bears : Text → Value → Bool
bears kid (obj jwk) = is_kid kid (get (codes "kid") jwk)
bears kid _ = false

-- The keys but those with this `kid`.
unfoldable pub others : Text → List Value → List Value
others kid [] = []
others kid (key ∷ keys) = let rest = others kid keys in if bears kid key then rest else key ∷ rest

unfoldable pub keys_of : Option (List Value) → List Value
keys_of none = []
keys_of (some keys) = keys

-- The keys of the ID of the event.
unfoldable pub keys_after : Event → Option (List Value) → Option (List Value)
keys_after (issues id jwk) old = some (obj jwk ∷ [])
keys_after (replaces id true jwk) old = some (obj jwk ∷ others (kid_text jwk) (keys_of old))
keys_after (replaces id false jwk) old = some (obj jwk ∷ [])
keys_after (revokes id) old = none
keys_after (leaves id) old = old

abbrev pub id_of : Event → Text
id_of (issues id jwk) = id
id_of (replaces id keep_old jwk) = id
id_of (revokes id) = id
id_of (leaves id) = id

abbrev pub apply : Event → Registry → Registry
apply e r id = if id_of e == id then keys_after e (r id) else r id

abbrev pub replay : List Event → Registry → Registry
replay [] r = r
replay (e ∷ es) r = replay es (apply e r)

other_kid-is_kid :
    (new_kid : Text) (o : Option Value) → other_kid o (str new_kid) ≡ not (is_kid new_kid o)
unfolding other_kid
other_kid-is_kid new_kid none = refl
other_kid-is_kid new_kid (some (str k)) = refl
other_kid-is_kid new_kid (some _) = refl

is_retained-bears :
    (jwk : Fields) (kid : Text) (old : Value) (retained : Bool)
    → get (codes "kid") jwk ≡ some (str kid)
    → is_retained jwk old ≡ ok retained
    → retained ≡ not (bears kid old)
unfolding is_retained item
is_retained-bears jwk kid (obj old) retained k h =
    let e = rw (k, other_kid-is_kid kid (get (codes "kid") old)) at h in ground arith
is_retained-bears jwk kid _ retained k h = ground arith

if-not :
    (b : Bool) (key : Value) (rest : List Value)
    → (if not b then key ∷ rest else rest) ≡ (if b then rest else key ∷ rest)
if-not true key rest = refl
if-not false key rest = refl

-- What `rotate_service` keeps.
without_kid-others :
    (jwk : Fields) (kid : Text) (existing kept : List Value)
    → get (codes "kid") jwk ≡ some (str kid)
    → without_kid jwk existing ≡ ok kept
    → kept ≡ others kid existing
unfolding without_kid others
without_kid-others jwk kid [] kept k h = ground arith
without_kid-others jwk kid (old ∷ existing) kept k h =
    let (retained, is_kept, r1) = >>=-eq-ok (is_retained jwk old) _ h in
    let (rest, is_rest, r2) = >>=-eq-ok (without_kid jwk existing) _ r1 in
    let e : (if retained then old ∷ rest else rest) ≡ kept = ground arith in
    sym e
    ∙ ap (λ r. if r then old ∷ rest else rest) (is_retained-bears jwk kid old retained k is_kept)
    ∙ if-not (bears kid old) old rest
    ∙ ap (λ r. if bears kid old then r else old ∷ r)
        (without_kid-others jwk kid existing rest k is_rest)

existing_keys-keys_of : (b : Bundle) (id : Text) → existing_keys b id true ≡ keys_of (registry b id)
unfolding existing_keys keys_of
existing_keys-keys_of b id = elim (Option-cases (registry b id)) [
  | inl e ↦ rw e refl
  | inr (keys, e) ↦ rw e refl
]

-- The keys that `rotate_service` binds.
pub keys_after-replaces :
    (id : Text) (keep_old : Bool) (jwk : Fields) (kid : Text) (b : Bundle) (kept : List Value)
    → get (codes "kid") jwk ≡ some (str kid)
    → without_kid jwk (existing_keys b id keep_old) ≡ ok kept
    → some (obj jwk ∷ kept) ≡ keys_after (replaces id keep_old jwk) (registry b id)
unfolding keys_after existing_keys others
keys_after-replaces id false jwk kid b kept k h =
    ap (λ ks. some (obj jwk ∷ ks)) (without_kid-others jwk kid [] kept k h)
keys_after-replaces id true jwk kid b kept k h =
    ap (λ ks. some (obj jwk ∷ ks))
      (without_kid-others jwk kid (keys_of (registry b id)) kept k
        (ap (without_kid jwk) (sym (existing_keys-keys_of b id)) ∙ h))
    ∙ ap (λ x. some (obj jwk ∷ others x (keys_of (registry b id)))) (sym (ap kid_of k))

-- To change the keys of an ID is to change what a reader of that ID sees.
pub at_id :
    (e : Event) (r : Registry) (keys : Option (List Value)) (i : Text)
    → keys ≡ keys_after e (r (id_of e))
    → (if id_of e == i then keys else r i) ≡ apply e r i
at_id e r keys i h = elim (Bool-cases (text_eq (id_of e) i)) [
  | inl same ↦ rw (same, h) (ap (λ j. keys_after e (r j)) ((text_eq_iff (id_of e) i).0 same))
  | inr other ↦ rw other refl
]

pub apply_ne : (e : Event) (r : Registry) (i : Text) → id_of e ≢ i → apply e r i ≡ r i
apply_ne e r i ne = ground (arith, text_eq_iff (id_of e) i)

pub apply-leaves : (id : Text) (r : Registry) (i : Text) → apply (leaves id) r i ≡ r i
unfolding keys_after
apply-leaves id r i = elim (Bool-cases (text_eq id i)) [ inl e ↦ rw e refl | inr e ↦ rw e refl ]
