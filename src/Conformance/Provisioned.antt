-- ===== src/Conformance/Provisioned.antt =====
-- The command `provision` of conformance/matrix/cli.py: `init_root` and two calls of `add_service`.
use spiffile.Prelude.{ℕ, Text, codes, List, [], ◌∷◌, ◌≡◌, ◌≢◌, refl, sym, ◌∙◌, arith, text_Eq}
use spiffile.Prelude.Int.{ℤ}
use spiffile.Prelude.Value.{Fields}
use spiffile.Codec.{Codec}
use spiffile.Crypto.{Crypto}
use spiffile.Disk.{FilePath, Location, Disk}
use spiffile.Disk.Action.{Host, >>=-ok}
use spiffile.Disk.Locate.{place, descend}
use spiffile.Errors.{ok}
use spiffile.Bundle.{Bundle}
use spiffile.Keys.{public_jwk}
use mathlib.Core.Path.{subst}
use spiffile.Provision.{bundle_filename, services_dirname}
use spiffile.Provision.Places.{service_at}
use spiffile.Provision.Stored.{Stores}
use spiffile.Provision.Layout.{IsVacant, Added, places}
use spiffile.Provision.Init.{IsClear, empty_bundle, init_root-Initialized}
use spiffile.Provision.Add.{add_service-Added}
use spiffile.Provision.Vacancy.{Apart, IsVacant-Apart, first-Apart, sibling-Apart}
use spiffile.Conformance.CommandLine.{trust_domain, provision}
use spiffile.Conformance.Services.{
  orders, billing, service_id, with_orders, with_both, HasService, Provisioned, with_bundle-IsRoot,
  parse-orders, parse-billing,
}

-- The files of the service that was added.
Added-HasService :
    (codec : Codec) (host : Host) (d d' : Disk) (root : FilePath) (name : Text) (pem : List ℕ)
    (b : Bundle)
    → Added codec host d d' root (service_at (place d.cwd root) (name ∷ [])) (service_id name) pem b
    → HasService codec host d' (place d.cwd root) name pem
Added-HasService codec host d d' root name pem b a = record {
  has_key = a.has_key;
  id_file = a.id_file;
  has_id = a.has_id;
  id_bytes = a.id_bytes;
}

first_service-Apart :
    (d : Disk) (root : FilePath) (name : Text)
    → Apart
        ((bundle_filename ∷ place d.cwd root) ∷ [])
        (services_dirname ∷ place d.cwd root)
        (service_at (place d.cwd root) (name ∷ []))
unfolding descend
first_service-Apart d root name = first-Apart (place d.cwd root) name

next_service-Apart :
    (d : Disk) (root : FilePath) (m n : Text)
    → m ≢ n
    → Apart
        (places (service_at (place d.cwd root) (m ∷ [])) (place d.cwd root))
        (service_at (place d.cwd root) (m ∷ []))
        (service_at (place d.cwd root) (n ∷ []))
unfolding descend
next_service-Apart d root m n ne = sibling-Apart (place d.cwd root) m n ne

-- Another service keeps its files.
HasService-Added :
    (codec : Codec) (host : Host) (d d' : Disk) (root : FilePath) (m n : Text) (pem pem' : List ℕ)
    (b : Bundle)
    → m ≢ n
    → Added codec host d d' root (service_at (place d.cwd root) (m ∷ [])) (service_id m) pem b
    → HasService codec host d (place d.cwd root) n pem'
    → HasService codec host d' (place d.cwd root) n pem'
HasService-Added codec host d d' root m n pem pem' b ne a h =
    let apart = next_service-Apart d root m n ne in
    record {
      has_key = a.keeps.others _ _ apart.key_off h.has_key;
      id_file = h.id_file;
      has_id = a.keeps.others _ _ apart.id_off h.has_id;
      id_bytes = h.id_bytes;
    }

HasService-cwd :
    (codec : Codec) (host : Host) (d : Disk) (cwd cwd' : Location) (root : FilePath) (name : Text)
    (pem : List ℕ)
    → cwd' ≡ cwd
    → HasService codec host d (place cwd' root) name pem
    → HasService codec host d (place cwd root) name pem
HasService-cwd codec host d cwd cwd' root name pem e h =
    subst (λ x. HasService codec host d (place x root) name pem) e h

module _ (codec : Codec) (c : Crypto) (token_text : c.Token → Text) (read_token : Text → c.Token)
    (host : Host) (now : ℤ) where
  -- The command `provision` makes both services
  pub provision-Provisioned :
      (d : Disk) (root : FilePath) (orders_key billing_key : c.PrivateKey)
      (orders_jwk billing_jwk : Fields)
      → IsClear d root
      → IsVacant d root orders (orders ∷ [])
      → IsVacant d root billing (billing ∷ [])
      → public_jwk codec c orders_key ≡ ok orders_jwk
      → public_jwk codec c billing_key ≡ ok billing_jwk
      → Stores codec (empty_bundle trust_domain)
      → Stores codec (with_orders orders_jwk)
      → Stores codec (with_both orders_jwk billing_jwk)
      → (d' : Disk) × (provision codec c token_text read_token host now root orders_key billing_key
            d
          ≡ (ok (codes "provisioned"), d'))
        × Provisioned codec host d d' root
            (c.to_pem orders_key)
            (c.to_pem billing_key)
            (with_both orders_jwk billing_jwk)
  unfolding provision
  provision-Provisioned d root orders_key billing_key orders_jwk billing_jwk clear no_orders
        no_billing is_orders is_billing stores0 stores1 stores2 =
      let (d1, called1, i) = init_root-Initialized codec host d root trust_domain clear stores0 in
      let is_root1 = with_bundle-IsRoot codec d1 root _ clear.direct i.has_bundle refl in
      let orders1 =
        IsVacant-Apart d d1 root orders (orders ∷ []) _ _ clear.direct i.keeps i.adds
          (first_service-Apart d root orders) no_orders in
      let billing1 =
        IsVacant-Apart d d1 root billing (billing ∷ []) _ _ clear.direct i.keeps i.adds
          (first_service-Apart d root billing) no_billing in
      let (d2, called2, a) =
        add_service-Added codec c host d1 root orders (orders ∷ []) trust_domain
          (empty_bundle trust_domain) (service_id orders) orders_key orders_jwk is_root1 orders1
          (parse-orders codec (empty_bundle trust_domain) refl) is_orders stores1 in
      let is_root2 = with_bundle-IsRoot codec d2 root _ clear.direct a.has_bundle refl in
      let billing2 =
        IsVacant-Apart d1 d2 root billing (billing ∷ []) _ _ clear.direct a.keeps a.adds
          (next_service-Apart d1 root orders billing (λ e. ground arith)) billing1 in
      let (d3, called3, a') =
        add_service-Added codec c host d2 root billing (billing ∷ []) trust_domain
          (with_orders orders_jwk) (service_id billing) billing_key billing_jwk is_root2 billing2
          (parse-billing codec (with_orders orders_jwk) refl) is_billing stores2 in
      let cwd2 = a.keeps.cwd_is ∙ i.keeps.cwd_is in
      let orders2 =
        HasService-cwd codec host d2 d2.cwd d1.cwd root orders _ (sym a.keeps.cwd_is)
          (Added-HasService codec host d1 d2 root orders _ _ a) in
      (
        d3,
        >>=-ok _ _ d called1 ∙ >>=-ok _ _ d1 called2 ∙ >>=-ok _ _ d2 called3,
        record {
          cwd_is = a'.keeps.cwd_is ∙ cwd2;
          is_root = with_bundle-IsRoot codec d3 root _ clear.direct a'.has_bundle refl;
          has_orders = HasService-cwd codec host d3 d.cwd d2.cwd root orders _ cwd2 (
              HasService-Added codec host d2 d3 root billing orders _ _ _ (λ e. ground arith) a'
                orders2);
          has_billing =
              HasService-cwd codec host d3 d.cwd d2.cwd root billing _ cwd2
                (Added-HasService codec host d2 d3 root billing _ _ a');
        },
      )
