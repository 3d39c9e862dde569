-- ===== src/System/Writes.antt =====
-- The writes of all operations, for a relation that they respect.
use substrata_backend.Billing.{process_billing_cycle}
use substrata_backend.Prelude.{String, ◌≡◌, ◌≤◌}
use substrata_backend.Store.{Plan, Subscription}
use substrata_backend.World.{World, Env}
use substrata_backend.Action.{Action}
use substrata_backend.Frames.{Moves}
use substrata_backend.Prisma.{update_plan, insert_plan}
use substrata_backend.Billing.Frame.{Respects, IsOrdered}
use substrata_backend.Subscriptions.{insert_subscription}
use substrata_backend.System.Apart.{Apart}

-- The writes of all operations: those of the billing code, and those of the routes.
pub record Withstands (env : Env) (Allowed : String → Type 0) (R S : World → World → Type 0)
    : Type 0 where
  pub respects : Respects env Allowed R S
  pub apart : (u w : World) → Apart u w → R u w
  pub on_cycle : (id : String) → Moves S (process_billing_cycle env id)
  pub on_open : (s : Subscription) → IsOrdered s → Moves R (insert_subscription s)
  pub on_insert_plan : (p : Plan) → 1 ≤ p.interval_count → Moves R (insert_plan p)
  pub on_plan :
      (id : String) (f : Plan → Plan)
      → ((p : Plan) → (f p).interval_count ≡ p.interval_count)
      → Moves R (update_plan id f)

module _ {env : Env} {Allowed : String → Type 0} {R S : World → World → Type 0}
    (P : Withstands env Allowed R S) where
  pub apart-Moves : {A : Type 0} (m : Action A) → Moves Apart m → Moves R m
  apart-Moves m h = record { at = λ w. P.apart w (m w).1 (h.at w) }
