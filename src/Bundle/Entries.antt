-- ===== src/Bundle/Entries.antt =====
-- The loop of `Bundle.from_dict` (python/src/spiffile/bundle.py): what it keeps of each entry.
use spiffile.Prelude.{
  Text, codes, true, ◌↔◌, Option, none, some, List, [], ◌∷◌, ◌≡◌, ◌≢◌, refl, ap, arith, text_eq_iff,
  text_Eq, ◌==◌, if◌then◌else◌,
}
use spiffile.Prelude.Dict.{Dict, lookup, lookup-insert, NodupKeys, insert-NodupKeys}
use spiffile.Prelude.Value.{Value, str, obj, arr, Items, Fields, elements, get}
use spiffile.Errors.{Result, ok, raise}
use spiffile.SpiffeId.{SpiffeId, parse, to_str}
use spiffile.SpiffeId.Grammar.{IsValid}
use spiffile.SpiffeId.Parsing.{parse_iff}
use spiffile.Bundle.{
  is_text, keys_member, Outcome, skip, bind, bind_keys, read_parsed, read_entry, store,
  read_entries,
}

-- A JWK set with the keys `keys`, at least one.
pub record HasKeys (jwks : Value) (keys : List Value) : Type 0 where
  pub members : Fields
  pub listed : Items
  pub is_dict : jwks ≡ obj members
  pub is_list : get (codes "keys") members ≡ some (arr listed)
  pub are_keys : keys ≡ elements listed
  pub nonempty : keys ≢ []

-- The entry binds `keys` to `k`: its name is a SPIFFE ID of the trust domain, and its value is a
-- JWK set.
pub record Binds (trust_domain : Value) (k : Text) (jwks : Value) (keys : List Value) : Type 0 where
  pub id : SpiffeId
  pub valid : IsValid id
  pub is_id : k ≡ to_str id
  pub in_domain : trust_domain ≡ str id.trust_domain
  pub has_keys : HasKeys jwks keys

is_text_iff : (v : Value) (t : Text) → (is_text v t ≡ true) ↔ (v ≡ str t)
unfolding is_text
is_text_iff (str s) t = ground (arith, text_eq_iff s t)
is_text_iff _ t = ground arith

keys_member-HasKeys :
    (jwks : Value) (keys : List Value) → keys ≢ [] → keys_member jwks ≡ keys → HasKeys jwks keys
unfolding keys_member
keys_member-HasKeys (obj fs) keys ne e = list_of (get (codes "keys") fs) refl
  where
    list_of : (o : Option Value) → get (codes "keys") fs ≡ o → HasKeys (obj fs) keys
    list_of (some (arr vs)) h = record {
      members = fs;
      listed = vs;
      is_dict = refl;
      is_list = h;
      are_keys = ground arith;
      nonempty = ne;
    }
    list_of o h = ground arith
keys_member-HasKeys _ keys ne e = ground arith

HasKeys-keys_member :
    (jwks : Value) (keys : List Value) → HasKeys jwks keys → keys_member jwks ≡ keys
unfolding keys_member
HasKeys-keys_member jwks keys h = ground arith

bind_keys-bind :
    (id : SpiffeId) (keys : List Value) → keys ≢ [] → bind_keys id keys ≡ bind (to_str id) keys
unfolding bind_keys
bind_keys-bind id [] ne = absurd (ne refl)
bind_keys-bind id (key ∷ keys) ne = refl

bind_keys-inv :
    (id : SpiffeId) (keys bound : List Value) (j : Text)
    → bind_keys id keys ≡ bind j bound
    → (j ≡ to_str id) × (keys ≡ bound) × (keys ≢ [])
unfolding bind_keys
bind_keys-inv id [] bound j h = ground arith
bind_keys-inv id (key ∷ keys) bound j h = (ground arith, ground arith, ground arith)

module _ (trust_domain : Value) where
  read_parsed-Binds :
      (k : Text) (jwks : Value) (j : Text) (keys : List Value) (r : Result SpiffeId)
      → parse (str k) ≡ r
      → read_parsed trust_domain r jwks ≡ bind j keys
      → (j ≡ k) × Binds trust_domain k jwks keys
  unfolding read_parsed
  read_parsed-Binds k jwks j keys (raise e) p h = ground arith
  read_parsed-Binds k jwks j keys (ok id) p h =
      let (same, valid) = (parse_iff (str k) id).0 p in
      let (is_j, are_keys, ne) = bind_keys-inv id (keys_member jwks) keys j (ground arith) in
      (
        ground arith,
        record {
          id = id;
          valid = valid;
          is_id = ground arith;
          in_domain = (is_text_iff trust_domain id.trust_domain).0 (ground arith);
          has_keys = keys_member-HasKeys jwks keys (ground arith) are_keys;
        },
      )

  pub read_entry-Binds :
      (k : Text) (jwks : Value) (j : Text) (keys : List Value)
      → read_entry trust_domain k jwks ≡ bind j keys
      → (j ≡ k) × Binds trust_domain k jwks keys
  unfolding read_entry
  read_entry-Binds k jwks j keys h = read_parsed-Binds k jwks j keys (parse (str k)) refl h

  pub Binds-read_entry :
      (k : Text) (jwks : Value) (keys : List Value)
      → Binds trust_domain k jwks keys
      → read_entry trust_domain k jwks ≡ bind k keys
  unfolding read_entry read_parsed
  Binds-read_entry k jwks keys h = ground (
    arith,
    (parse_iff (str k) h.id).1 (ap str h.is_id, h.valid),
    is_text_iff trust_domain h.id.trust_domain,
    HasKeys-keys_member jwks keys h.has_keys,
    bind_keys-bind h.id keys h.has_keys.nonempty,
  )

  -- The loop step for the key `k`, whose value was `old`.
  abbrev after : Outcome → Option (List Value) → Option (List Value)
  after (skip why) old = old
  after (bind id keys) old = some keys

  lookup-store :
      (k raw_id : Text) (jwks : Value) (d : Dict Text (List Value))
      → lookup k (store (read_entry trust_domain raw_id jwks) d) ≡ (
          if raw_id == k
          then after (read_entry trust_domain raw_id jwks) (lookup k d)
          else lookup k d)
  lookup-store k raw_id jwks d = at (read_entry trust_domain raw_id jwks) refl
    where
      at :
          (o : Outcome)
          → read_entry trust_domain raw_id jwks ≡ o
          → lookup k (store o d) ≡ (if raw_id == k then after o (lookup k d) else lookup k d)
      at (skip why) e = ground arith
      at (bind id keys) e =
          ground (arith, lookup-insert id k keys d, (read_entry-Binds raw_id jwks id keys e).0)

  -- What the whole loop leaves at `k`.
  pub lookup-read_entries :
      (k : Text) (es : Dict Text Value) (d : Dict Text (List Value))
      → NodupKeys es
      → lookup k (read_entries trust_domain es d) ≡ elim (lookup k es) [
        | none ↦ lookup k d
        | some jwks ↦ after (read_entry trust_domain k jwks) (lookup k d)
      ]
  unfolding read_entries lookup
  lookup-read_entries k [] d u = refl
  lookup-read_entries k ((raw_id, jwks) ∷ es) d (fresh, u) = ground (
    arith,
    lookup-read_entries k es (store (read_entry trust_domain raw_id jwks) d) u,
    lookup-store k raw_id jwks d,
    text_eq_iff raw_id k,
  )

  pub read_entries-NodupKeys :
      (es : Dict Text Value) (d : Dict Text (List Value))
      → NodupKeys d
      → NodupKeys (read_entries trust_domain es d)
  unfolding read_entries
  read_entries-NodupKeys [] d u = u
  read_entries-NodupKeys ((raw_id, jwks) ∷ es) d u =
      read_entries-NodupKeys es _ (store-NodupKeys (read_entry trust_domain raw_id jwks))
    where
      store-NodupKeys : (o : Outcome) → NodupKeys (store o d)
      store-NodupKeys (skip why) = u
      store-NodupKeys (bind id keys) = insert-NodupKeys id keys d u

  after-Binds :
      (k : Text) (jwks : Value) (keys : List Value) (o : Outcome)
      → read_entry trust_domain k jwks ≡ o
      → after o none ≡ some keys
      → Binds trust_domain k jwks keys
  after-Binds k jwks keys (skip why) e h = ground arith
  after-Binds k jwks keys (bind id bound) e h = (read_entry-Binds k jwks id keys (ground arith)).1

  -- The loop binds exactly the keys of the entries that name an ID of the trust domain and hold
  -- a JWK set.
  pub lookup-read_entries_iff :
      (k : Text) (es : Dict Text Value) (keys : List Value)
      → NodupKeys es
      → (lookup k (read_entries trust_domain es []) ≡ some keys)
        ↔ ((jwks : Value) × (lookup k es ≡ some jwks) × Binds trust_domain k jwks keys)
  unfolding lookup
  lookup-read_entries_iff k es keys u = (
    from_entry (lookup k es) refl,
    λ (jwks, found, binds).
        ground (arith, lookup-read_entries k es [] u, Binds-read_entry k jwks keys binds),
  )
    where
      from_entry :
          (o : Option Value)
          → lookup k es ≡ o
          → lookup k (read_entries trust_domain es []) ≡ some keys
          → (jwks : Value) × (lookup k es ≡ some jwks) × Binds trust_domain k jwks keys
      from_entry none e h = ground (arith, lookup-read_entries k es [] u)
      from_entry (some jwks) e h = (
        jwks,
        e,
        after-Binds k jwks keys (read_entry trust_domain k jwks) refl
            (ground (arith, lookup-read_entries k es [] u)),
      )
