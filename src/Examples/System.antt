-- ===== src/Examples/System.antt =====
-- Runs of the program at the concrete deployment.
use substrata_backend.Prelude.{◌≡◌, refl, none, List, [], ◌∷◌, length, arith}
use substrata_backend.Prelude.Text.{pad}
use substrata_backend.Action
use substrata_backend.World.{World, Job, Sent}
use substrata_backend.Prisma
use substrata_backend.Dates
use substrata_backend.Dates.Iso
use substrata_backend.Idempotency.{billing_idempotency_key}
use substrata_backend.Outcome.{property, has_property, parse_billing_outcome}
use substrata_backend.Soroban
use substrata_backend.SorobanBilling
use substrata_backend.Billing
use substrata_backend.Webhooks
use substrata_backend.Scheduler
use substrata_backend.Store.{Payment, AllRows, processing}
use substrata_backend.System.{Step, does, waits, ticked, billed, run, perform}
use substrata_backend.System.Sound.Hashes.{OneHash}
use substrata_backend.System.Sound.{Sound}
use substrata_backend.System.Idle.{run-AllIdle}
use substrata_backend.Billing.Idle.{IsIdle}
use substrata_backend.Billing.Idle.Calls.{IsForeign}
use substrata_backend.Examples.{deployment, subscribed, due, done, start}

no_hashes : OneHash []
no_hashes = record { one_hash = λ hash p q m k e d. elim m [ ] }

pub start-Sound : Sound (start subscribed [])
start-Sound = record {
  sound_payments = record { distinct = tt; keyed = tt; backed = tt; hashes = no_hashes };
  ordered = (omega arith, tt);
  counted = (omega arith, tt);
}

abbrev job : Job
job = record { name = "bill"; subject = "sub"; job_id = none }

abbrev pub charged : Payment
charged = record done { id = "row_0" }

-- Unfolding `computed` computes a run of billing jobs.
unfoldable computed : List Step → World → World
unfolding Action.run Prisma.update_payment Prisma.hash_taken Prisma.create_payment
    Prisma.update_subscription Soroban.has_soroban_contract Soroban.address_to_sc_val
    Soroban.get_contract Soroban.ask_transaction Soroban.poll Soroban.submit Soroban.await_result
    Soroban.invoke_with_key Soroban.invoke_as_admin property has_property parse_billing_outcome
    SorobanBilling.record_outcome SorobanBilling.bill_on_chain SorobanBilling.bill_live
    SorobanBilling.execute_with SorobanBilling.execute_soroban_billing Billing.soroban_plan
    Billing.collect_by Billing.collect Billing.collect_and_advance Billing.advance_period
    Billing.find_or_create_payment Billing.attempt_payment Billing.bill_period
    Billing.process_billing_cycle Webhooks.emit_webhook_event Webhooks.emit_to Webhooks.create_event
    Webhooks.create_delivery Webhooks.create_deliveries Webhooks.add_delivery_job
    Webhooks.add_delivery_jobs Scheduler.run_billing_job perform run billing_idempotency_key
    Iso.to_iso_string Iso.iso_fields Iso.iso_year Iso.iso_time pad Dates.next_period
    Dates.add_months Dates.civil Dates.split_year Dates.split_month Dates.make_day
    Dates.days_before_year Dates.days_before_month Dates.time_clip
computed steps w = run deployment steps w

-- A payment whose transaction is with the network already.
abbrev under_way : World
under_way = record (start subscribed (record due { status = processing } ∷ [])) {
  sent = Sent.invocation "execute_billing" [] ∷ [];
}

-- A run that starts meanwhile sends a second one for the same payment.
sent_twice : length (computed (does (billed job) ∷ []) under_way).sent ≡ 2
unfolding computed
sent_twice = refl

-- Its network rejects nothing.
deployment-IsForeign : IsForeign deployment
deployment-IsForeign = record {
  of_account = λ n public e h. cc;
  of_simulation = λ n tx e h. cc;
  of_submission = λ n tx e h. cc;
  of_status = λ n hash e h. cc;
}

abbrev busy : List Step
busy = does ticked ∷ waits 1000 ∷ does (billed job) ∷ does (billed job) ∷ []

run-AllIdle_example : AllRows IsIdle (run deployment busy (start subscribed [])).payments
run-AllIdle_example =
    run-AllIdle deployment deployment-IsForeign busy (start subscribed [])
      start-Sound.sound_payments tt
