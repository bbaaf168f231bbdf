-- ===== src/Conformance/Members.antt =====
-- The members of the fixtures that conformance/generate.py sets.
use spiffile.Prelude.{
  Text, codes, false, some, ◌≡◌, refl, ◌∙◌, arith, text_Eq, text_eq, text_eq_iff, if◌then◌else◌,
}
use spiffile.Prelude.Value.{Value, Fields, end, field, get}
use spiffile.Conformance.{set_item, jwk_member, token_member, multi_member}

get-set_item :
    (k j : Text) (v : Value) (fs : Fields)
    → get j (set_item k v fs) ≡ (if text_eq k j then some v else get j fs)
unfolding set_item
get-set_item k j v end = ground arith
get-set_item k j v (field i w fs) =
    ground (arith, text_eq_iff k j, text_eq_iff i k, text_eq_iff i j, get-set_item k j v fs)

pub get-set_item_self : (k : Text) (v : Value) (fs : Fields) → get k (set_item k v fs) ≡ some v
get-set_item_self k v fs = ground (arith, get-set_item k k v fs, text_eq_iff k k)

pub get-set_item_ne :
    (k j : Text) (v : Value) (fs : Fields)
    → text_eq k j ≡ false
    → get j (set_item k v fs) ≡ get j fs
get-set_item_ne k j v fs ne = ground (arith, get-set_item k j v fs)

-- The three members that the last lines of the program set.
module _ (document token multi : Value) (fs : Fields) where
  abbrev pub written : Fields
  written =
      set_item multi_member multi
        (set_item token_member token (set_item (codes "bundle") document fs))

  pub written-token : get token_member written ≡ some token
  written-token =
      get-set_item_ne multi_member token_member multi _ (unfold text_eq in refl)
      ∙ get-set_item_self token_member token _

  pub written-bundle : get (codes "bundle") written ≡ some document
  written-bundle =
      get-set_item_ne multi_member (codes "bundle") multi _ (unfold text_eq in refl)
      ∙ get-set_item_ne token_member (codes "bundle") token _ (unfold text_eq in refl)
      ∙ get-set_item_self (codes "bundle") document fs

  pub written-other :
      (k : Text)
      → text_eq multi_member k ≡ false
      → text_eq token_member k ≡ false
      → text_eq (codes "bundle") k ≡ false
      → get k written ≡ get k fs
  written-other k not_multi not_token not_bundle =
      get-set_item_ne multi_member k multi _ not_multi
      ∙ get-set_item_ne token_member k token _ not_token
      ∙ get-set_item_ne (codes "bundle") k document fs not_bundle

-- The two members that the loop sets.
pub looped-orders :
    (orders billing : Value) (fs : Fields)
    → get (jwk_member (codes "orders")) (
        set_item
          (jwk_member (codes "billing"))
          billing
          (set_item (jwk_member (codes "orders")) orders fs))
      ≡ some orders
looped-orders orders billing fs =
    get-set_item_ne (jwk_member (codes "billing")) (jwk_member (codes "orders")) billing _
      (unfold text_eq in refl)
    ∙ get-set_item_self (jwk_member (codes "orders")) orders fs
