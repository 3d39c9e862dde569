-- ===== src/Routes/Wallets.antt =====
-- src/middleware/auth.ts and src/routes/wallets.ts: the proof that a client holds a wallet's key.
pub mod Proved
use Prim.Native.String.{count}
use substrata_backend.Prelude.{
  ℕ, suc, String, Bool, true, false, not, ◌&&◌, ◌||◌, Option, none, some, List, [], ◌∷◌, ◌++◌, ◌==◌,
  if◌then◌else◌,
}
use substrata_backend.Prelude.Text.{str_eq}
use substrata_backend.Store.{
  Wallet, Subscription, find_row, find_rows, any_row, update_rows, last_first,
}
use substrata_backend.World.{Env, World, ok, err, not_found}
use substrata_backend.Action.{Action, pure, gets, find_or_throw, ◌>>=◌, ◌>>◌}
use substrata_backend.Http.{Reply, answered, refused, invalid_body}

abbrev pub has_address : String → Wallet → Bool
has_address address r = str_eq r.address address

-- A request header: missing, one text, or a list of texts.
pub data Header : Type 0 where
  missing : Header
  single : String → Header
  several : List String → Header

-- `!header`
abbrev pub is_absent : Header → Bool
is_absent missing = true
is_absent (single s) = str_eq s ""
is_absent (several ss) = false

pub record AuthHeaders : Type 0 where
  pub address : Header
  pub message : Header
  pub signature : Header

-- What the middleware leaves: an answer that was sent, or `walletAddress` for the handler.
pub data Access : Type 0 where
  denied : ℕ → String → Access
  granted : Option String → Access

pub record VerifyBody : Type 0 where
  pub address : String
  pub message : String
  pub signature : String

pub record Verified : Type 0 where
  pub wallet_id : String

module _ (env : Env) where
  -- The `catch` of `verifySignedMessage`.
  abbrev pub or_invalid : Option Bool → Bool
  or_invalid none = false
  or_invalid (some valid) = valid

  unfoldable pub verify_signed_message : String → String → String → Bool
  verify_signed_message address message signature =
      or_invalid (env.verify address message signature)

  abbrev pub verified_wallet : Wallet → Wallet
  verified_wallet r = record r { is_verified = true }

  -- `prisma.wallet.upsert` with `isVerified: true`
  unfoldable pub mark_verified : String → Action (Unit {0})
  mark_verified address w =
      if any_row (has_address address) w.wallets
      then (
        ok tt,
        record w { wallets = update_rows (has_address address) verified_wallet w.wallets },
      )
      else (
        ok tt,
        record w {
          serial = suc w.serial;
          wallets =
              w.wallets
              ++ record { id = env.cuid w.serial; address = address; is_verified = true } ∷ [];
        },
      )

  abbrev pub is_production : Bool
  is_production = str_eq env.node_env "production"

  -- From the three texts on.
  unfoldable pub check_signature : String → String → String → Action Access
  check_signature address message signature =
      if not (verify_signed_message address message signature)
      then pure (denied 401 "Invalid wallet signature")
      else (do mark_verified address; pure (granted (some address)))

  -- The headers that are there, each one text or a list.
  abbrev pub check_texts : Header → Header → Header → Action Access
  check_texts (single address) (single message) (single signature) =
      check_signature address message signature
  check_texts _ _ _ = pure (denied 400 "Invalid auth headers")

  unfoldable pub require_wallet_auth : AuthHeaders → Action Access
  require_wallet_auth h =
      if is_absent h.address || (is_absent h.message || is_absent h.signature)
      then pure (if is_production then denied 401 "Wallet auth headers required" else granted none)
      else check_texts h.address h.message h.signature

  -- `verifySchema`
  unfoldable pub is_verify_body : VerifyBody → Bool
  is_verify_body body =
      count body.address == 56 && (not (count body.message == 0) && not (count body.signature == 0))

  -- The row that an upsert returns.
  unfoldable pub read_wallet : String → Action Wallet
  read_wallet address = find_or_throw (λ w. find_row (has_address address) w.wallets) not_found

  -- From a body that is valid on.
  unfoldable pub verify_with : VerifyBody → Action (Reply Verified)
  verify_with body =
      if not (verify_signed_message body.address body.message body.signature)
      then pure (refused 401 "Invalid signature")
      else (do
        mark_verified body.address
        wallet ← read_wallet body.address
        pure (answered 200 (record { wallet_id = wallet.id })))

  unfoldable pub verify_wallet : VerifyBody → Action (Reply Verified)
  verify_wallet body = if not (is_verify_body body) then pure invalid_body else verify_with body

abbrev pub with_subscriptions : World → Option Wallet → Reply (Wallet × List Subscription)
with_subscriptions w none = refused 404 "Wallet not found"
with_subscriptions w (some r) =
    answered 200 (r, last_first (find_rows (λ s. str_eq s.wallet_id r.id) w.subscriptions))

unfoldable pub get_wallet : String → Action (Reply (Wallet × List Subscription))
get_wallet address = gets (λ w. with_subscriptions w (find_row (has_address address) w.wallets))
