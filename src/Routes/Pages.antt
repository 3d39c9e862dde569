-- ===== src/Routes/Pages.antt =====
-- How long the lists are that the routes answer with.
use substrata_backend.Prelude.{
  ℕ, ◌≤◌, ◌≡◌, refl, ◌&&◌, String, Option, none, some, List, length, arith,
}
use substrata_backend.Store.{
  SubscriptionStatus, PaymentStatus, has_payment_status, find_rows, newest,
}
use substrata_backend.World.{World, Env}
use substrata_backend.Action.{Action, atoms}
use substrata_backend.Frames.Ends.{IfOk}
use substrata_backend.Http.{given, clamp_limit}
use substrata_backend.Http.Limits.{clamp_limit-bounds, newest-length}
use substrata_backend.Indexer.{of_type, list_chain_events}
use substrata_backend.Routes.Queries.{
  SubscriptionQuery, matches, list_matching, list_for_status, list_with_status, list_subscriptions,
  subscription_status_of,
}
use substrata_backend.Routes.Payments.{
  of_subscription, list_status, list_with, list_payments, payment_status_of,
}
use substrata_backend.Routes.Indexer.{events_route}

-- A list that is answered with has at most `n` rows, and the world is as it was.
abbrev pub AtMost : {A : Type 0} → ℕ → Action (List A) → World → Type 0
AtMost n m w = (IfOk (λ rows u. length rows ≤ n) (m w).0 (m w).1) × ((m w).1 ≡ w)

page-AtMost :
    {A : Type 0} (limit : Option String) (fallback most : ℕ) (rows : List A)
    → 1 ≤ fallback
    → fallback ≤ most
    → length (newest (clamp_limit limit fallback most) rows) ≤ most
page-AtMost limit fallback most rows lo hi = omega (
  arith,
  newest-length (clamp_limit limit fallback most) rows,
  clamp_limit-bounds limit fallback most lo hi,
)

module _ (w : World) where
  matching-AtMost :
      (q : SubscriptionQuery) (status : Option SubscriptionStatus)
      → AtMost 100 (list_matching q status) w
  unfolding atoms
  matching-AtMost q status = (
    page-AtMost q.limit 50 100 (find_rows (matches w q status) w.subscriptions) (omega arith)
        (omega arith),
    refl,
  )

  for_status-AtMost :
      (q : SubscriptionQuery) (o : Option SubscriptionStatus) → AtMost 100 (list_for_status q o) w
  unfolding atoms
  for_status-AtMost q none = (tt, refl)
  for_status-AtMost q (some status) = matching-AtMost q (some status)

  with_status-AtMost :
      (q : SubscriptionQuery) (o : Option String) → AtMost 100 (list_with_status q o) w
  with_status-AtMost q none = matching-AtMost q none
  with_status-AtMost q (some s) = for_status-AtMost q (subscription_status_of s)

  payments_status-AtMost :
      (id : Option String) (s : String) (o : Option PaymentStatus)
      → AtMost 50 (list_status id s o) w
  unfolding atoms
  payments_status-AtMost id s none = (tt, refl)
  payments_status-AtMost id s (some status) = (
    newest-length 50
        (find_rows (λ p. of_subscription id p && has_payment_status p.status status) w.payments),
    refl,
  )

  payments_with-AtMost : (id s : Option String) → AtMost 50 (list_with id s) w
  unfolding atoms
  payments_with-AtMost id none =
      (newest-length 50 (find_rows (of_subscription id) w.payments), refl)
  payments_with-AtMost id (some s) = payments_status-AtMost id s (payment_status_of s)

  -- Whatever a client asks for, a list of subscriptions has at most 100 rows, a list of payments at
  -- most 50 and a list of chain events at most 200, and the requests change nothing.
  pub pages-AtMost :
      (env : Env) (q : SubscriptionQuery) (subscription_id status limit type : Option String)
      → AtMost 100 (list_subscriptions q) w
        × AtMost 50 (list_payments subscription_id status) w
        × AtMost 200 (events_route env limit type) w
  unfolding list_subscriptions list_payments events_route list_chain_events atoms
  pages-AtMost env q subscription_id status limit type = (
    with_status-AtMost q (given q.status),
    payments_with-AtMost (given subscription_id) (given status),
    (
      page-AtMost limit 50 200 (find_rows (of_type env type) w.chain_events) (omega arith)
          (omega arith),
      refl,
    ),
  )
