-- ===== src/Conformance/CommandLine.antt =====
-- conformance/matrix/cli.py: the command line that the implementations are compared with.
use spiffile.Prelude.{Text, codes, none, List, ◌∷◌, ◌++◌, text_eq, text_Eq, if◌then◌else◌}
use spiffile.Prelude.Int.{ℤ}
use spiffile.Codec.{Codec}
use spiffile.Crypto.{Crypto}
use spiffile.Disk.{FilePath, path}
use spiffile.Disk.Action.{Action, pure, fail, look, lift, ◌>>=◌, ◌>>◌, Host}
use spiffile.Errors.{index_error, assertion_error, system_exit, Result, ok, raise}
use spiffile.SpiffeId.{to_str}
use spiffile.Identity.{Identity, Caller, text, verify, default_ttl_seconds, default_leeway_seconds}
use spiffile.Identity.Minting.{token}
use spiffile.Provision.{load_identity}
use spiffile.Provision.Operations.{init_root, add_service}

-- `TRUST_DOMAIN`
abbrev pub trust_domain : Text
trust_domain = codes "parity.test"

-- `f"spiffe://{TRUST_DOMAIN}/{name}"`
abbrev pub id_of : Text → Text
id_of name = codes "spiffe://" ++ trust_domain ++ b'/' ∷ name

abbrev pub verified : Text → Text
verified id = codes "python verified caller=" ++ id

-- The command line is `sys.argv` behind the name of the program; a command looks at the arguments
-- that it needs. `token_text` and `read_token` are a token as the text that it is, and back, and
-- `now` is the time.
module _ (codec : Codec) (c : Crypto) (token_text : c.Token → Text) (read_token : Text → c.Token)
    (host : Host) (now : ℤ) where
  -- The keys are what `generate_private_key` returns, if it is called.
  unfoldable pub provision : FilePath → c.PrivateKey → c.PrivateKey → Action Text
  provision root orders_key billing_key = do
    init_root codec host root trust_domain
    add_service codec c host root (codes "orders") orders_key
    add_service codec c host root (codes "billing") billing_key
    pure (codes "provisioned")

  abbrev identity_at : FilePath → Text → Action (Identity c.PrivateKey)
  identity_at root service = look λ d. load_identity codec d root service

  unfoldable pub mint : FilePath → List Text → Action Text
  mint root (service ∷ audience ∷ _) = do
    identity ← identity_at root service
    minted ←
        look λ d. (token codec c d d now identity (text (id_of audience)) default_ttl_seconds).0
    pure (token_text minted)
  mint root _ = fail index_error

  -- `assert str(caller.id) == …`, and what is printed behind it.
  unfoldable pub report : Text → Caller → Result Text
  report expected caller =
      if text_eq (to_str caller.id) (id_of expected)
      then ok (verified (to_str caller.id))
      else raise assertion_error

  unfoldable pub check_token : FilePath → List Text → Action Text
  unfolding report
  check_token root (service ∷ token_arg ∷ expected ∷ _) = do
    identity ← identity_at root service
    caller ←
        look λ d.
          (verify codec c d d now identity (read_token token_arg) none default_leeway_seconds).0
    lift (report expected caller)
  check_token root _ = fail index_error

  -- `main`: what it prints.
  unfoldable pub main : List Text → c.PrivateKey → c.PrivateKey → Action Text
  unfolding provision mint check_token
  main (command ∷ root ∷ rest) orders_key billing_key =
      if text_eq command (codes "provision")
      then provision (path root) orders_key billing_key
      else if text_eq command (codes "mint")
      then mint (path root) rest
      else if text_eq command (codes "verify")
      then check_token (path root) rest
      else fail system_exit
  main _ orders_key billing_key = fail index_error
