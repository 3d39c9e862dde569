-- ===== src/System/Apart.antt =====
-- The routes and jobs that leave the plans, the subscriptions and the payments alone, and send no
-- transaction.
pub mod Mirror
use substrata_backend.Prelude.{ℕ, String, Option, none, some, List, [], ◌∷◌, ◌≡◌, refl, ◌∙◌, arith}
use substrata_backend.Store.{Payload, WebhookEndpoint, WebhookEventType, WebhookDelivery, Payment}
use substrata_backend.World.{World, Env, Native, text, Result, Job, ContractEvent}
use substrata_backend.Action.{Action, call, modify}
use substrata_backend.Frames.{IsFrame, Moves, Quiet, moves_rules, Moves-bind}
use substrata_backend.Prisma.{update_endpoint, insert_endpoint}
use substrata_backend.Webhooks.{deliver_webhook, set_delivery, post_and_record}
use substrata_backend.Webhooks.Emit.{emit_webhook_event-Quiet}
use substrata_backend.Http.{Reply}
use substrata_backend.Indexer.{IngestEventInput, PollResult}
use substrata_backend.Routes.Endpoints
use substrata_backend.Routes.Endpoints.{EndpointBody}
use substrata_backend.Routes.Wallets
use substrata_backend.Routes.Wallets.{AuthHeaders, Access, Header, VerifyBody}
use substrata_backend.Routes.Payments
use substrata_backend.Routes.Indexer.{IngestBody}

pub record Apart (u w : World) : Type 0 where
  pub plans_same : w.plans ≡ u.plans
  pub subscriptions_same : w.subscriptions ≡ u.subscriptions
  pub payments_same : w.payments ≡ u.payments
  pub sent_same : w.sent ≡ u.sent

pub unchanged :
    {u w : World}
    → w.plans ≡ u.plans
    → w.subscriptions ≡ u.subscriptions
    → w.payments ≡ u.payments
    → w.sent ≡ u.sent
    → Apart u w
unchanged p s m t = record {
  plans_same = p;
  subscriptions_same = s;
  payments_same = m;
  sent_same = t;
}

pub Apart-IsFrame : IsFrame Apart
Apart-IsFrame = record {
  rfl = λ w. unchanged refl refl refl refl;
  trn = λ u v w h k. record {
    plans_same = k.plans_same ∙ h.plans_same;
    subscriptions_same = k.subscriptions_same ∙ h.subscriptions_same;
    payments_same = k.payments_same ∙ h.payments_same;
    sent_same = k.sent_same ∙ h.sent_same;
  };
}

abbrev F : IsFrame Apart
F = Apart-IsFrame

pub Quiet-Apart : {A : Type 0} (m : Action A) → Moves Quiet m → Moves Apart m
Quiet-Apart m h = record {
  at = λ w.
      let q = h.at w in
      record {
        plans_same = q.plans_same;
        subscriptions_same = q.subscriptions_same;
        payments_same = q.payments_same;
        sent_same = q.sent_same;
      };
}

pub call-Apart : {A : Type 0} (f : ℕ → Result A) → Moves Apart (call f)
unfolding call
call-Apart f = record { at = λ w. unchanged refl refl refl refl }

update_endpoint-Apart :
    (id : String) (f : WebhookEndpoint → WebhookEndpoint) → Moves Apart (update_endpoint id f)
unfolding update_endpoint
update_endpoint-Apart id f = record { at = λ w. ground arith }

insert_endpoint-Apart : (e : WebhookEndpoint) → Moves Apart (insert_endpoint e)
unfolding insert_endpoint
insert_endpoint-Apart e = record { at = λ w. ground arith }

module _ (env : Env) where
  -- src/services/webhook.service.ts
  set_delivery-Apart :
      (id : String) (f : WebhookDelivery → WebhookDelivery) → Moves Apart (set_delivery env id f)
  unfolding set_delivery modify
  set_delivery-Apart id f = record { at = λ w. unchanged refl refl refl refl }

  post-Apart :
      (id url : String) (body : _) (signature : String)
      → Moves Apart (post_and_record env id url body signature)
  unfolding post_and_record
  post-Apart id url body signature =
      Moves-bind F (call _) _ (call-Apart _)
        λ (status, content). search (moves_rules, F, set_delivery-Apart)

  pub deliver-Apart : (id : String) → Moves Apart (deliver_webhook env id)
  unfolding deliver_webhook
  deliver-Apart id = search (moves_rules, F, set_delivery-Apart, post-Apart) depth 9

  -- src/routes/webhooks.ts
  pub register-Apart : (body : EndpointBody) → Moves Apart (Endpoints.register_endpoint env body)
  unfolding Endpoints.register_endpoint Endpoints.store_endpoint
  register-Apart body = search (moves_rules, F, insert_endpoint-Apart)

  pub fire-Apart :
      (type : WebhookEventType) (payload : Option Payload)
      → Moves Apart (Endpoints.fire_test_event env type payload)
  unfolding Endpoints.fire_test_event
  fire-Apart type payload = search (moves_rules, F, Quiet-Apart, emit_webhook_event-Quiet)

  pub deactivate-Apart : (id : String) → Moves Apart (Endpoints.deactivate_endpoint id)
  unfolding Endpoints.deactivate_endpoint
  deactivate-Apart id = search (moves_rules, F, update_endpoint-Apart)

  -- src/routes/wallets.ts and src/middleware/auth.ts
  mark-Apart : (address : String) → Moves Apart (Wallets.mark_verified env address)
  unfolding Wallets.mark_verified
  mark-Apart address = record { at = λ w. ground arith }

  pub verify-Apart : (body : VerifyBody) → Moves Apart (Wallets.verify_wallet env body)
  unfolding Wallets.verify_wallet Wallets.verify_with Wallets.read_wallet
  verify-Apart body = search (moves_rules, F, mark-Apart) depth 9

  texts-Apart : (a m s : Header) → Moves Apart (Wallets.check_texts env a m s)
  unfolding Wallets.check_signature
  texts-Apart (Wallets.single a) (Wallets.single m) (Wallets.single s) =
      search (moves_rules, F, mark-Apart)
  texts-Apart _ _ _ = search (moves_rules, F)

  pub auth-Apart : (h : AuthHeaders) → Moves Apart (Wallets.require_wallet_auth env h)
  unfolding Wallets.require_wallet_auth
  auth-Apart h = search (moves_rules, F, texts-Apart)

  -- src/routes/payments.ts and src/routes/billing.ts
  add_job-Apart : (job : Job) → Moves Apart (Payments.add_job env job)
  unfolding Payments.add_job
  add_job-Apart job = record { at = λ w. ground arith }

  retry_found-Apart : (o : Option Payment) → Moves Apart (Payments.retry_found env o)
  retry_found-Apart none = search (moves_rules, F)
  retry_found-Apart (some p) = search (moves_rules, F, add_job-Apart)

  pub retry-Apart : (id : String) → Moves Apart (Payments.retry_payment env id)
  unfolding Payments.retry_payment
  retry-Apart id = search (moves_rules, F, retry_found-Apart)

  pub enqueue-Apart : (id : String) → Moves Apart (Payments.enqueue_billing env id)
  unfolding Payments.enqueue_billing
  enqueue-Apart id = search (moves_rules, F, add_job-Apart)
