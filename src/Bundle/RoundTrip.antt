-- ===== src/Bundle/RoundTrip.antt =====
-- Well-formed bundles, and writing a bundle and reading it back: `to_dict` and `from_dict` of
-- python/src/spiffile/bundle.py.
use spiffile.Prelude.{
  Text, codes, inl, inr, none, List, [], ◌∷◌, ◌++◌, ◌≡◌, ◌≢◌, refl, sym, ap, ◌∙◌, arith, text_eq,
  text_eq_iff, text_Eq, Bool-cases, All, append_assoc, append-nil,
}
use spiffile.Prelude.Int.{pos}
use spiffile.Prelude.Dict.{Dict, lookup, insert, insert-append, lookup-insert, NodupKeys}
use spiffile.Prelude.Value.{
  Value, str, obj, int, arr, end, field, elements-items_of, items_of, entries,
}
use spiffile.Errors.{ok}
use spiffile.SpiffeId.{SpiffeId, to_str}
use spiffile.SpiffeId.Grammar.{IsValid}
use spiffile.Bundle.{
  Bundle, Outcome, skip, bind, read_entry, store, read_entries, from_dict, identity_fields, to_dict,
}
use spiffile.Bundle.Entries.{read_entries-NodupKeys, read_entry-Binds, Binds-read_entry}
use spiffile.Bundle.Document.{from_dict-IsDocument, from_dict-Reading}

-- The name and the keys of an entry that a bundle of the trust domain may have.
pub record IsBinding (trust_domain : Value) (k : Text) (keys : List Value) : Type 0 where
  pub id : SpiffeId
  pub valid : IsValid id
  pub is_id : k ≡ to_str id
  pub in_domain : trust_domain ≡ str id.trust_domain
  pub nonempty : keys ≢ []

-- No identity twice, each of them a SPIFFE ID of the trust domain, none without a key.
pub record IsWellFormed (b : Bundle) : Type 0 where
  pub nodup : NodupKeys b.identities
  pub each : All (λ (k, keys). IsBinding b.trust_domain k keys) b.identities

module _ (trust_domain : Value) where
  abbrev pub AllBindings : Dict Text (List Value) → Type 0
  AllBindings = All (λ (k, keys). IsBinding trust_domain k keys)

  pub insert-AllBindings :
      (k : Text) (keys : List Value) (d : Dict Text (List Value))
      → IsBinding trust_domain k keys
      → AllBindings d
      → AllBindings (insert k keys d)
  unfolding insert
  insert-AllBindings k keys [] b h = (b, tt)
  insert-AllBindings k keys ((j, old) ∷ d) b (h, hs) = elim (Bool-cases (text_eq j k)) [
    | inl e ↦ rw e (rw (sym ((text_eq_iff j k).0 e)) at b, hs)
    | inr e ↦ rw e (h, insert-AllBindings k keys d b hs)
  ]

  store-AllBindings :
      (raw_id : Text) (jwks : Value) (d : Dict Text (List Value))
      → AllBindings d
      → AllBindings (store (read_entry trust_domain raw_id jwks) d)
  store-AllBindings raw_id jwks d hs = at (read_entry trust_domain raw_id jwks) refl
    where
      at : (o : Outcome) → read_entry trust_domain raw_id jwks ≡ o → AllBindings (store o d)
      at (skip why) e = hs
      at (bind id keys) e =
          let (same, b) = read_entry-Binds trust_domain raw_id jwks id keys e in
          insert-AllBindings id keys d
            (record {
              id = b.id;
              valid = b.valid;
              is_id = same ∙ b.is_id;
              in_domain = b.in_domain;
              nonempty = b.has_keys.nonempty;
            })
            hs

  read_entries-AllBindings :
      (es : Dict Text Value) (d : Dict Text (List Value))
      → AllBindings d
      → AllBindings (read_entries trust_domain es d)
  unfolding read_entries
  read_entries-AllBindings [] d hs = hs
  read_entries-AllBindings ((raw_id, jwks) ∷ es) d hs =
      read_entries-AllBindings es _ (store-AllBindings raw_id jwks d hs)

  read_entry-identity_fields :
      (k : Text) (keys : List Value)
      → IsBinding trust_domain k keys
      → read_entry trust_domain k (obj (field (codes "keys") (arr (items_of keys)) end))
        ≡ bind k keys
  read_entry-identity_fields k keys b = Binds-read_entry trust_domain k _ keys (record {
    id = b.id;
    valid = b.valid;
    is_id = b.is_id;
    in_domain = b.in_domain;
    has_keys = record {
      members = field (codes "keys") (arr (items_of keys)) end;
      listed = items_of keys;
      is_dict = refl;
      is_list = unfold text_eq in refl;
      are_keys = sym (elements-items_of keys);
      nonempty = b.nonempty;
    };
  })

  -- No key of `d` is in `acc`.
  abbrev Fresh : Dict Text (List Value) → Dict Text (List Value) → Type 0
  Fresh acc d = All (λ (k, _). lookup k acc ≡ none) d

  Fresh-insert :
      (k : Text) (keys : List Value) (acc d : Dict Text (List Value))
      → lookup k d ≡ none
      → Fresh acc d
      → Fresh (insert k keys acc) d
  unfolding lookup
  Fresh-insert k keys acc [] absent f = tt
  Fresh-insert k keys acc ((j, old) ∷ d) absent (f, fs) = (
    ground (arith, lookup-insert k j keys acc, text_eq_iff k j, text_eq_iff j k),
    Fresh-insert k keys acc d (ground arith) fs,
  )

  read_entries-identity_fields :
      (d acc : Dict Text (List Value))
      → AllBindings d
      → NodupKeys d
      → Fresh acc d
      → read_entries trust_domain (entries (identity_fields d)) acc ≡ acc ++ d
  unfolding read_entries identity_fields
  read_entries-identity_fields [] acc b u f = sym (append-nil acc)
  read_entries-identity_fields ((k, keys) ∷ d) acc (b, bs) (absent, u) (f, fs) =
      rw (read_entry-identity_fields k keys b, read_entries)
        (read_entries-identity_fields d (insert k keys acc) bs u
            (Fresh-insert k keys acc d absent fs)
          ∙ rw (insert-append k keys acc f) (append_assoc acc ((k, keys) ∷ []) d))

AllFresh-nil : (d : Dict Text (List Value)) → All (λ (k, _). lookup {V = List Value} k [] ≡ none) d
unfolding lookup
AllFresh-nil [] = tt
AllFresh-nil ((k, keys) ∷ d) = (refl, AllFresh-nil d)

-- A well-formed bundle is read back from its document.
pub from_dict-to_dict : (b : Bundle) → IsWellFormed b → from_dict (to_dict b) ≡ ok b
unfolding to_dict text_eq
from_dict-to_dict b w =
    from_dict-IsDocument (to_dict b) b.trust_domain (identity_fields b.identities) (record {
      members = field (codes "trust_domain") b.trust_domain (
          field (codes "spiffile_version") (int (pos 1))
            (field (codes "identities") (obj (identity_fields b.identities)) end));
      version = int (pos 1);
      is_dict = refl;
      has_domain = refl;
      has_version = refl;
      has_identities = refl;
      supported = inl refl;
    })
    ∙ ap (λ identities. ok (record { trust_domain = b.trust_domain; identities = identities }))
        (read_entries-identity_fields b.trust_domain b.identities [] w.each w.nodup
          (AllFresh-nil b.identities))

-- Every bundle that is read is well formed.
pub from_dict-IsWellFormed : (doc : Value) (b : Bundle) → from_dict doc ≡ ok b → IsWellFormed b
from_dict-IsWellFormed doc b h =
    let (ids, _, loop) = rw h at (from_dict-Reading doc) in
    record {
      nodup = rw loop (read_entries-NodupKeys b.trust_domain (entries ids) [] tt);
      each = rw loop (read_entries-AllBindings b.trust_domain (entries ids) [] tt);
    }
