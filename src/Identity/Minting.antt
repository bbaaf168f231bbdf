-- ===== src/Identity/Minting.antt =====
-- python/src/spiffile/identity.py, `Identity.token`: minting JWT-SVIDs.
use spiffile.Prelude.{Text, codes, some}
use spiffile.Prelude.Int.{ℤ, ◌+ℤ◌}
use spiffile.Prelude.Value.{int, str, Fields, end, field}
use spiffile.Codec.{Codec}
use spiffile.Crypto.{Crypto}
use spiffile.Disk.{Disk}
use spiffile.Errors.{Result, ok, raise}
use spiffile.SpiffeId.{SpiffeId, parse, to_str}
use spiffile.Keys.{algorithm}
use spiffile.KeySource.{KeySource, get_key}
use spiffile.Identity.{Identity, Audience, text, spiffe}

-- `audience if isinstance(audience, SpiffeId) else SpiffeId.parse(audience)`
unfoldable pub audience_id : Audience → Result SpiffeId
audience_id (text t) = parse (str t)
audience_id (spiffe id) = ok id

-- The claims that `token` signs.
unfoldable pub minted_claims : SpiffeId → SpiffeId → ℤ → ℤ → Fields
minted_claims self audience now ttl = field (codes "sub") (str (to_str self)) (
    field (codes "aud") (str (to_str audience))
      (field (codes "iat") (int now) (field (codes "exp") (int (now +ℤ ttl)) end)))

module _ (codec : Codec) (c : Crypto) where
  abbrev sign :
      SpiffeId
      → SpiffeId
      → ℤ
      → ℤ
      → Result (c.PrivateKey × Text) × KeySource c.PrivateKey
      → Result c.Token × KeySource c.PrivateKey
  sign self audience now ttl (raise e, s) = (raise e, s)
  sign self audience now ttl (ok (key, kid), s) = (
    c.encode (minted_claims self audience now ttl) key algorithm
        (record { kid = some kid; typ = some (codes "JWT") }),
    s,
  )

  unfoldable pub token_for :
      Disk
      → Disk
      → ℤ
      → Identity c.PrivateKey
      → Result SpiffeId
      → ℤ
      → Result c.Token × Identity c.PrivateKey
  unfolding minted_claims
  token_for at_stat at_read now self (raise e) ttl = (raise e, self)
  token_for at_stat at_read now self (ok audience) ttl =
      let (r, s) =
        sign self.id audience now ttl (get_key codec c at_stat at_read self.key_source) in
      (r, record self { key_source = s })

  -- `token`, on the disk when the key's stat and its content are read, and at the time `now`.
  unfoldable pub token :
      Disk
      → Disk
      → ℤ
      → Identity c.PrivateKey
      → Audience
      → ℤ
      → Result c.Token × Identity c.PrivateKey
  unfolding token_for
  token at_stat at_read now self audience ttl =
      token_for at_stat at_read now self (audience_id audience) ttl
