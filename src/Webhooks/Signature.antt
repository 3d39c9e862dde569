-- ===== src/Webhooks/Signature.antt =====
-- The signature of a webhook delivery.
use substrata_backend.Prelude.{◌≡◌, ap, ◌↔◌, String, true, arith}
use Prim.Native.String.{len}
use substrata_backend.Prelude.Text.{eq_iff}
use substrata_backend.World.{Env, Body}
use substrata_backend.Webhooks.{
  sign_webhook_payload, verify_webhook_signature, sign_payload, verify_signature,
}

module _ (env : Env) where
  -- A signature is accepted exactly if it is the one that the secret gives to the body.
  pub verify_signature_iff :
      (body : Body) (signature secret : String)
      → (verify_signature env body signature secret ≡ true)
        ↔ (signature ≡ sign_payload env body secret)
  unfolding verify_signature verify_webhook_signature sign_payload
  verify_signature_iff body signature secret = ground (
    arith,
    eq_iff (sign_webhook_payload env secret body) signature,
    λ (e : sign_webhook_payload env secret body ≡ signature). ap len e,
  )
