-- ===== src/Billing/Turns/Ledger.antt =====
-- What is paid stays paid, between the turns of any billing run.
use mathlib.Core.List.{Memᴰ}
use substrata_backend.Prelude.{
  ◌≡◌, ◌≢◌, refl, sym, ap, ◌∙◌, inl, inr, String, true, false, Option, none, some, Bool-cases,
}
use substrata_backend.Store.{
  Plan, Wallet, Subscription, Payment, success, has_payment_status, find_row, any_row,
}
use substrata_backend.World.{World, Env, Error, Result, ok}
use substrata_backend.Action.{Action, gets, find_or_throw}
use substrata_backend.Frames.{IsFrame, Moves, moves_rules}
use substrata_backend.Frames.Once.{IsFrame-once}
use substrata_backend.Process.Turns.{Takes-await, Takes-resolve}
use substrata_backend.Process.Keeps.{Keeps, Spares, Keeps-if, Keeps-Takes, Keeps-call}
use substrata_backend.Prisma.{has_key}
use substrata_backend.Billing.{find_or_create_payment, is_paid, is_closed}
use substrata_backend.Billing.Frame.{Respects}
use substrata_backend.Billing.Frame.Cycle.{period_key, advance-Moves, find_or_create-Moves}
use substrata_backend.Billing.Keys.{
  Distinct, KeepsDistinct-Respects, any_row-Memᴰ, one_row, clashes,
}
use substrata_backend.Billing.Untouched.{Untouched-Respects}
use substrata_backend.Billing.Ledger.{
  StaysPaid, StaysPaid-Respects, find_row-Memᴰ, clash, made, taken_lem, free_lem,
}
use substrata_backend.Billing.Turns
use substrata_backend.Billing.Turns.Frame.{charge-Takes, expire-Takes}

-- The payments are distinct, and the row is one of them.
pub record Holds (p : Payment) (w : World) : Type 0 where
  pub distinct : Distinct w.payments
  pub there : Memᴰ p w.payments

module _ (p : Payment) (paid : p.status ≡ success) where
  Spares-IsFrame : IsFrame (Spares (Holds p))
  Spares-IsFrame = record {
    rfl = λ w. record { spared = λ h. h };
    trn = λ u v w h k. record { spared = λ i. k.spared (h.spared i) };
  }

  pub spares : {u w : World} → StaysPaid u w → Spares (Holds p) u w
  spares h = record {
    spared = λ i. record {
      distinct = h.stays_distinct.keeps i.distinct;
      there = h.stays i.distinct p paid i.there;
    };
  }

  spares-Moves : {A : Type 0} (m : Action A) → Moves StaysPaid m → Moves (Spares (Holds p)) m
  spares-Moves m h = record { at = λ w. spares (h.at w) }

  -- Updates of other payments only.
  Spares-Respects :
      (env : Env) → Respects env (λ id. p.id ≢ id) (Spares (Holds p)) (Spares (Holds p))
  Spares-Respects env =
      let P = StaysPaid-Respects env in
      record {
        once = IsFrame-once Spares-IsFrame;
        quiet = λ u w h. spares (P.quiet u w h);
        idle = λ w t n. spares (P.idle w t n);
        on_payment = λ id f other keeps. record {
          at = λ w. record {
            spared = λ i. record {
              distinct =
                  (((KeepsDistinct-Respects env).on_payment id f tt keeps).at w).keeps i.distinct;
              there =
                  (((Untouched-Respects id env).on_payment id f refl keeps).at w).kept p other paid
                    i.there;
            };
          };
        };
        on_create = λ q keyed backed fresh pending.
            spares-Moves _ (P.on_create q keyed backed fresh pending);
        on_subscription = λ id f h. spares-Moves _ (P.on_subscription id f h);
        on_retry = λ id t n. spares-Moves _ (P.on_retry id t n);
        on_invoke = λ tx. spares-Moves _ (P.on_invoke tx);
        on_pay = λ tx. spares-Moves _ (P.on_pay tx);
      }

  module _ (env : Env) where
    abbrev P : Respects env (λ id. p.id ≢ id) (Spares (Holds p)) (Spares (Holds p))
    P = Spares-Respects env

    read-Holds : {A : Type 0} (f : World → A) (w : World) → Holds p w → Holds p (gets f w).1
    unfolding gets
    read-Holds f w i = i

    found : {A : Type 0} (f : World → A) (w : World) {a : A} → (gets f w).0 ≡ ok a → f w ≡ a
    unfolding gets
    found f w e = cc

    find-Holds :
        {A : Type 0} (f : World → Option A) (e : Error) (w : World)
        → Holds p w
        → Holds p (find_or_throw f e w).1
    find-Holds f e w i =
        let m : Moves (Spares (Holds p)) (find_or_throw f e) =
          search (moves_rules, Spares-IsFrame) in
        (m.at w).spared i

    -- A row that is not paid is another one.
    unpaid-other :
        (q : Payment) (w : World)
        → Holds p w
        → Memᴰ q w.payments
        → is_paid (some q) ≡ false
        → p.id ≢ q.id
    unpaid-other q w i m unpaid e =
        let same = one_row w.payments i.distinct i.there m (clash p q e) in
        let is_success : has_payment_status p.status success ≡ true =
          ap (λ s. has_payment_status s success) paid in
        cc

    module _ (sub : Subscription) (plan : Plan) (wallet : Wallet) where
      made_other :
          (w : World) (a : Payment)
          → Holds p w
          → (find_or_create_payment env sub plan (period_key sub) none w).0 ≡ ok a
          → p.id ≢ a.id
      made_other w a i e same =
          let q = made env sub plan wallet w in
          elim (Bool-cases (any_row (clashes q) w.payments)) [
            | inl taken ↦
                let rejected =
                  ap (λ (x : Result Payment × World). x.0)
                    (taken_lem env sub plan wallet w taken) in
                cc
            | inr free ↦
                let answer =
                  ap (λ (x : Result Payment × World). x.0) (free_lem env sub plan wallet w free) in
                let own : q ≡ a = cc in
                let hit : any_row (clashes q) w.payments ≡ true =
                  any_row-Memᴰ (clashes q) w.payments i.there
                    (clash q p (ap (λ (x : Payment). x.id) own ∙ sym same)) in
                cc
          ]

      -- What the look for a row, or its creation, answers with, is another row.
      answer-other :
          (o : Option Payment) (w : World)
          → ((q : Payment) → o ≡ some q → p.id ≢ q.id)
          → Holds p w
          → (a : Payment) → (find_or_create_payment env sub plan (period_key sub) o w).0 ≡ ok a
          → p.id ≢ a.id
      unfolding find_or_create_payment
      answer-other (some q) w other i a e same =
          let own : q ≡ a = cc in other q refl (same ∙ ap (λ (x : Payment). x.id) (sym own))
      answer-other none w other i a e same = made_other w a i e same

      attempt-Keeps :
          (o : Option Payment)
          → ((q : Payment) → o ≡ some q → p.id ≢ q.id)
          → Keeps (Holds p) (Turns.attempt_payment_turns env sub plan wallet (period_key sub) o)
      unfolding Turns.attempt_payment_turns
      attempt-Keeps o other =
          Keeps-call (Holds p) _ _ (λ w i. ((find_or_create-Moves P sub plan o).at w).spared i)
            λ w i a e.
              Keeps-Takes (Holds p) _ (
                charge-Takes P sub plan wallet a.id (period_key sub) (answer-other o w other i a e))

      bill-Keeps : Keeps (Holds p) (Turns.bill_period_turns env sub plan wallet)
      unfolding Turns.bill_period_turns
      bill-Keeps = Keeps-call (Holds p) _ _ (read-Holds _) λ w i o e.
          let read : find_row (has_key (period_key sub)) w.payments ≡ o = found _ w e in
          Keeps-if (Holds p) (is_paid o) _ _
            (λ is. Keeps-Takes (Holds p) _ (Takes-await _ (advance-Moves P sub plan)))
            (λ unpaid. attempt-Keeps o λ q own.
              unpaid-other q w i (find_row-Memᴰ (has_key (period_key sub)) w.payments (read ∙ own))
                (ap is_paid (sym own) ∙ unpaid))

    pub expire-Keeps : Keeps (Holds p) (Turns.expire_grace_periods_turns env)
    expire-Keeps = Keeps-Takes (Holds p) _ (expire-Takes P)

    pub process-Keeps : (id : String) → Keeps (Holds p) (Turns.process_billing_cycle_turns env id)
    unfolding Turns.process_billing_cycle_turns
    process-Keeps id = Keeps-call (Holds p) _ _ (find-Holds _ _) λ w i sub e.
        Keeps-call (Holds p) _ _ (find-Holds _ _) λ w i plan e.
          Keeps-call (Holds p) _ _ (find-Holds _ _) λ w i wallet e.
            Keeps-if (Holds p) (is_closed sub.status) _ _
              (λ closed. Keeps-Takes (Holds p) _ (Takes-resolve tt))
              (λ billable. bill-Keeps sub plan wallet)
