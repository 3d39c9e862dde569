-- ===== src/Scheduler/Queued.antt =====
-- The queue after a tick, where the queue treats the ids of jobs as BullMQ does.
use native.Mathlib.Nat.{add-zero}
use substrata_backend.Prelude.{
  ℕ, suc, ◌+◌, ◌≡◌, refl, ap, sym, ◌∙◌, ◌⊎◌, inl, inr, String, some, List, [], ◌∷◌, length, arith,
}
use Prim.Native.String
use mathlib.Core.List.{Memᴰ}
use text.Mathlib.TextLemmas.{append_cancel_left}
use substrata_backend.Prelude.Text.{eq_refl, eq_iff}
use substrata_backend.Dates.Iso.{to_iso_string, HasShortYear}
use substrata_backend.Idempotency.{billing_idempotency_key, billing_idempotency_key_inj}
use substrata_backend.Queues.{
  AddsOnce, Rejects, RejectsOne, IsNaming, Named, Holds, with_job, with_jobs, with_jobs-Named,
  with_jobs-Holds, rejects_later,
}
use substrata_backend.Store.{Payment, Subscription, AllRows, find_rows}
use substrata_backend.World.{World, Env, Job, ok}
use substrata_backend.Action.{atoms, modify}
use substrata_backend.Steps.{bind-ok}
use substrata_backend.Frames.{IsFrame, Moves}
use substrata_backend.Frames.Once.{IsFrame-once}
use substrata_backend.Prisma.Updated.{update_payment-Moves}
use substrata_backend.Prisma.{update_payment, create_payment, update_subscription}
use substrata_backend.Soroban
use substrata_backend.Payments
use substrata_backend.Billing.{
  is_due, find_due_subscriptions, retry_failed_payments, expire_grace_periods,
}
use substrata_backend.Billing.Frame.{Respects, Every}
use substrata_backend.Billing.Frame.Cycle.{expire-Moves}
use substrata_backend.Scheduler.{
  billing_job, add_billing_job, add_billing_jobs, schedule_billing_jobs,
}

one_more : (a : ℕ) → suc a ≡ a + 1
one_more a = omega arith

suc-add_move : (a b : ℕ) → a + 1 + b ≡ a + suc b
suc-add_move a b = omega arith

-- The job for the period of a subscription that ends at `end`.
abbrev pub period_job : String → ℕ → Job
period_job id end = record {
  name = "process-subscription";
  subject = id;
  job_id = some (String.◌++◌ "billing:" (String.◌++◌ id (String.◌++◌ ":" (to_iso_string end))));
}

abbrev pub job_of : Subscription → Job
job_of s = period_job s.id s.current_period_end

abbrev pub EndsInTime : Subscription → Type 0
EndsInTime s = HasShortYear s.current_period_end

job_of-IsNaming : IsNaming EndsInTime job_of
unfolding billing_idempotency_key
job_of-IsNaming = record {
  own = λ s. eq_refl _;
  agree = λ s t hs ht same.
      sym
        (billing_idempotency_key_inj s.id t.id s.current_period_end t.current_period_end hs ht
          (append_cancel_left "billing:" _ _ ((eq_iff _ _).0 same))).0;
}

-- The queue of billing jobs stays as it is.
record SameQueue (u w : World) : Type 0 where
  same : w.billing_queue ≡ u.billing_queue

SameQueue-IsFrame : IsFrame SameQueue
SameQueue-IsFrame = record {
  rfl = λ w. record { same = refl };
  trn = λ u v w h k. record { same = k.same ∙ h.same };
}

update_payment-SameQueue :
    (id : String) (f : Payment → Payment) → Moves SameQueue (update_payment id f)
update_payment-SameQueue id f =
    update_payment-Moves id f SameQueue-IsFrame.rfl (λ w there free. record { same = refl })

create_payment-SameQueue : (p : Payment) → Moves SameQueue (create_payment p)
unfolding create_payment
create_payment-SameQueue p = record { at = λ w. ground arith }

update_subscription-SameQueue :
    (id : String) (f : Subscription → Subscription) → Moves SameQueue (update_subscription id f)
unfolding update_subscription
update_subscription-SameQueue id f = record { at = λ w. ground arith }

module _ (env : Env) where
  SameQueue-Respects : Respects env Every SameQueue SameQueue
  unfolding retry_failed_payments modify Soroban.submit Payments.submit
  SameQueue-Respects = record {
    once = IsFrame-once SameQueue-IsFrame;
    quiet = λ u w h. record { same = h.billing_queue_same };
    idle = λ w t n. record { same = refl };
    on_payment = λ id f may h. update_payment-SameQueue id f;
    on_create = λ p keyed backed fresh pending. create_payment-SameQueue p;
    on_subscription = λ id f h. update_subscription-SameQueue id f;
    on_retry = λ id t n. record { at = λ w. record { same = refl } };
    on_invoke = λ tx. record { at = λ w. record { same = refl } };
    on_pay = λ tx. record { at = λ w. record { same = refl } };
  }

  module _ (once : AddsOnce env) where
    abbrev queued : List Subscription → World → World
    queued ss w = record w {
      calls = w.calls + length ss;
      billing_queue = with_jobs EndsInTime job_of ss w.billing_queue;
    }

    add_billing_job_lem :
        (s : Subscription) (w : World)
        → Rejects env (job_of s)
          ⊎ (add_billing_job env s w ≡ (
            ok tt,
            record w { calls = suc w.calls; billing_queue = with_job (job_of s) w.billing_queue },
          ))
    unfolding billing_job add_billing_job to_iso_string
    add_billing_job_lem s w = elim (once w.calls w.billing_queue (billing_job s)) [
      | inl rejected ↦ inl (w.calls, w.billing_queue, rejected)
      | inr added ↦ inr (rw (added, add_billing_job))
    ]

    add_billing_jobs_lem :
        (ss : List Subscription) (w : World)
        → RejectsOne EndsInTime job_of env ss ⊎ (add_billing_jobs env ss w ≡ (ok tt, queued ss w))
    unfolding add_billing_jobs atoms
    add_billing_jobs_lem [] w = inr (rw (add-zero w.calls) refl)
    add_billing_jobs_lem (s ∷ ss) w = elim (add_billing_job_lem s w) [
      | inl rejected ↦ inl (s, Memᴰ.head refl, rejected)
      | inr added ↦ elim (add_billing_jobs_lem ss (queued (s ∷ []) w)) [
        | inl later ↦ inl (rejects_later EndsInTime job_of env s ss later)
        | inr others ↦ inr (
            bind-ok (add_billing_job env s) _ (added ∙ rw (one_more w.calls) refl)
            ∙ others
            ∙ rw (suc-add_move w.calls (length ss)) refl)
      ]
    ]

    -- A tick, on a queue that adds a job unless it holds its id or rejects it: if the jobs that the
    -- queue holds for periods that end before the year 10000 are about the subscriptions of their
    -- ids, the same is so after the tick, and the queue then holds, for every subscription that was
    -- due, a job with the id of its period that is about this subscription, whatever becomes of the
    -- cancellations after it, unless `add` rejects one of these jobs. The periods of the
    -- subscriptions that are due end before the year 10000.
    pub schedule_billing_jobs-queued :
        (w : World)
        → AllRows EndsInTime (find_rows (is_due w.now) w.subscriptions)
        → Named EndsInTime job_of w.billing_queue
        → let due = find_rows (is_due w.now) w.subscriptions in
          let after = (schedule_billing_jobs env w).1.billing_queue in
          RejectsOne EndsInTime job_of env due
          ⊎ (Named EndsInTime job_of after × AllRows (Holds EndsInTime job_of after) due)
    unfolding schedule_billing_jobs find_due_subscriptions atoms
    schedule_billing_jobs-queued w in_time named =
        let due = find_rows (is_due w.now) w.subscriptions in
        elim (add_billing_jobs_lem due w) [
          | inl rejected ↦ inl rejected
          | inr added ↦
              let run : schedule_billing_jobs env w ≡ expire_grace_periods env (queued due w) =
                bind-ok find_due_subscriptions _ refl
                ∙ bind-ok (add_billing_jobs env due) _ added in
              let kept : (schedule_billing_jobs env w).1.billing_queue
                  ≡ with_jobs EndsInTime job_of due w.billing_queue =
                ap (λ x. x.1.billing_queue) run
                ∙ ((expire-Moves SameQueue-Respects).at (queued due w)).same in
              inr (
                rw kept (
                  with_jobs-Named EndsInTime job_of job_of-IsNaming due w.billing_queue in_time
                      named,
                  with_jobs-Holds EndsInTime job_of job_of-IsNaming due w.billing_queue in_time
                      named,
                ))
        ]
