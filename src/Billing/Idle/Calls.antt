-- ===== src/Billing/Idle/Calls.antt =====
-- The calls of src/lib/soroban.ts while a payment is PROCESSING.
use substrata_backend.Prelude.{
  ℕ, zero, suc, ◌-◌, ◌≡◌, refl, subst, sym, inl, inr, String, false, Option, none, some, List, ltb,
  Bool-cases,
}
use substrata_backend.World.{
  World, Env, Error, Result, ok, err, Sent, ScVal, SendResponse, TransactionStatus, message,
}
use substrata_backend.Action.{Action, gets, lift, call, modify, skip, pure, throw}
use substrata_backend.Frames.Yields.{
  Yields, Outcome, Yields-pure, Yields-throw, Yields-or_throw, Yields-if, Yields-bind,
}
use substrata_backend.Soroban
use substrata_backend.Billing.Idle.{Free, Held, Caught, CaughtIf, is_own}

-- The SDK does not reject with the service's own error.
pub record IsForeign (env : Env) : Type 0 where
  pub of_account :
      (n : ℕ) (public : String) (e : Error) → env.get_account n public ≡ err e → is_own e ≡ false
  pub of_simulation :
      (n : ℕ) (tx : Sent) (e : Error) → env.simulate_transaction n tx ≡ err e → is_own e ≡ false
  pub of_submission :
      (n : ℕ) (tx : Sent) (e : Error) → env.send_transaction n tx ≡ err e → is_own e ≡ false
  pub of_status :
      (n : ℕ) (hash : String) (e : Error) → env.get_transaction n hash ≡ err e → is_own e ≡ false

pub Held-moved : {id : String} {u w : World} → w.payments ≡ u.payments → Held id u → Held id w
Held-moved e h = record { held_sound = rw e h.held_sound; only = rw e h.only; there = rw e h.there }

pub Free-moved : {u w : World} → w.payments ≡ u.payments → Free u → Free w
Free-moved e h = record { free_sound = rw e h.free_sound; all_idle = rw e h.all_idle }

module _ (env : Env) (foreign : IsForeign env) (id : String) where
  -- The errors of the network, with the payment still held.
  abbrev pub Dropped : Error → World → Type 0
  Dropped e w = Held id w × (is_own e ≡ false)

  abbrev pub Calls : {A : Type 0} → Action A → Type 0
  Calls m = Yields (Held id) (λ _ w. Held id w) Dropped m

  answer-Held :
      {A : Type 0} (r : Result A) (w : World)
      → ((e : Error) → r ≡ err e → is_own e ≡ false)
      → Held id w
      → Outcome (λ _ w. Held id w) Dropped r w
  answer-Held (ok a) w h k = k
  answer-Held (err e) w h k = (k, h e refl)

  call-Calls :
      {A : Type 0} (f : ℕ → Result A)
      → ((n : ℕ) (e : Error) → f n ≡ err e → is_own e ≡ false)
      → Calls (call f)
  unfolding call
  call-Calls f h = record { at = λ w k. answer-Held (f w.calls) _ (h w.calls) (Held-moved refl k) }

  ask-Calls : (hash : String) → Calls (Soroban.ask_transaction env hash)
  unfolding Soroban.ask_transaction
  ask-Calls hash = record {
    at = λ w k.
        answer-Held (env.get_transaction w.calls hash) _ (foreign.of_status w.calls hash)
          (Held-moved refl k);
  }

  submit-Calls : (tx : Sent) → Calls (Soroban.submit env tx)
  unfolding Soroban.submit
  submit-Calls tx = record {
    at = λ w k.
        answer-Held (env.send_transaction w.calls tx) _ (foreign.of_submission w.calls tx)
          (Held-moved refl k);
  }

  throw-Calls : {A : Type 0} (text : String) → Calls (throw {A = A} (message text))
  throw-Calls text = Yields-throw (message text) (λ w k. (k, refl))

  pure-Calls : {A : Type 0} (a : A) → Calls (pure a)
  pure-Calls a = Yields-pure a (λ w k. k)

  skip-Calls : Calls skip
  unfolding skip
  skip-Calls = pure-Calls tt

  pause-Calls : Calls (Soroban.pause env)
  unfolding modify
  pause-Calls = record { at = λ w k. Held-moved refl k }

  poll-Calls :
      (fuel : ℕ) (hash : String) (started : ℕ) (status : TransactionStatus)
      → Calls (Soroban.poll env fuel hash started status)
  unfolding Soroban.poll
  poll-Calls zero hash started status = record { at = λ w k. (k, refl) }
  poll-Calls (suc fuel) hash started TransactionStatus.not_found = record {
    at = λ w k. elim (Bool-cases (ltb Soroban.poll_timeout (w.now - started))) [
      | inl late ↦ rw (late, Soroban.poll) (k, refl)
      | inr early ↦
          let round = Yields-bind (Soroban.pause env) _ pause-Calls λ _.
            Yields-bind (Soroban.ask_transaction env hash) _ (ask-Calls hash)
              (poll-Calls fuel hash started) in
          rw (early, Soroban.poll) (round.at w k)
    ];
  }
  poll-Calls (suc fuel) hash started status = record { at = λ w k. k }

  final-Calls :
      (hash : String) (status : TransactionStatus) → Calls (Soroban.final_result env hash status)
  final-Calls hash (TransactionStatus.success v) = pure-Calls _
  final-Calls hash _ = throw-Calls _

  read-Calls : {A : Type 0} (f : World → A) → Calls (gets f)
  unfolding gets
  read-Calls f = record { at = λ w k. k }

  await-Calls : (r : SendResponse) → Calls (Soroban.await_result env r)
  unfolding Soroban.await_result
  await-Calls (SendResponse.send_error t) = throw-Calls _
  await-Calls (SendResponse.accepted hash) = Yields-bind _ _ (ask-Calls hash) λ status.
      Yields-bind _ _ (read-Calls (λ w. w.now)) λ started.
        Yields-bind _ _ (poll-Calls Soroban.poll_fuel hash started status) (final-Calls hash)

  simulation-Calls : (o : Option String) → Calls (Soroban.reject_simulation env o)
  simulation-Calls none = skip-Calls
  simulation-Calls (some e) = throw-Calls _

  pub invoke-Calls :
      (method : String) (args : List ScVal) → Calls (Soroban.invoke_as_admin env method args)
  unfolding Soroban.invoke_as_admin Soroban.invoke_with_key Soroban.get_contract
  invoke-Calls method args = Yields-if _ _ _ (throw-Calls _) (
      Yields-bind _ _ (Yields-or_throw _ _ (λ a w k. k) (λ w k. (k, refl))) λ public.
        Yields-bind _ _ (call-Calls _ (λ n e. foreign.of_account n public e)) λ _.
          Yields-bind _ _
            (Yields-if _ _ _ (throw-Calls _) (Yields-if _ _ _ skip-Calls (throw-Calls _)))
            λ _.
              Yields-bind _ _
                (call-Calls _ (λ n e. foreign.of_simulation n (Sent.invocation method args) e))
                λ simulated.
                  Yields-bind _ _ (simulation-Calls simulated)
                    λ _. Yields-bind _ _ (submit-Calls _) await-Calls)

  pub caught : (e : Error) (w : World) → Dropped e w → Caught id e w
  caught e w (k, foreign_error) = subst (λ b. CaughtIf b id w) (sym foreign_error) k

  pub lift-Calls : (text : String) → Calls (lift (Soroban.address_to_sc_val env text))
  unfolding lift Soroban.address_to_sc_val
  lift-Calls text = record {
    at = λ w k. elim (Bool-cases (env.is_address text)) [
      | inl good ↦ rw good k
      | inr bad ↦ rw bad (k, refl)
    ];
  }
