-- ===== src/Soroban/Poll.antt =====
-- The wait for a transaction: its fuel is enough.
use substrata_backend.Prelude.{
  ℕ, zero, suc, ◌+◌, ◌-◌, ◌*◌, ◌≤◌, ◌<◌, ◌≡◌, ◌≢◌, ◌⊎◌, inl, inr, refl, sym, subst, ap, ◌∙◌, String,
  true, false, ltb, arith, Bool-cases,
}
use substrata_backend.World.{World, Env, Error, Result, TransactionStatus, ok, err, out_of_fuel}
use substrata_backend.Action.{atoms, ◌>>=◌, ◌>>◌}
use substrata_backend.Steps.{bind-ok, bind-err}
use substrata_backend.Soroban.{poll, poll_timeout, poll_pause, poll_fuel, ask_transaction, pause}

Result-cases : {A : Type 0} (r : Result A) → ((a : A) × (r ≡ ok a)) ⊎ ((e : Error) × (r ≡ err e))
Result-cases (ok a) = inl (a, refl)
Result-cases (err e) = inr (e, refl)

module _ (env : Env) (hash : String) (started : ℕ) where
  -- What the SDK rejects with is never the model's own error.
  abbrev pub Answers : Type 0
  Answers = (n : ℕ) → env.get_transaction n hash ≢ err out_of_fuel

  -- The world after a pause and a question.
  abbrev asked_again : World → World
  asked_again w = record w { calls = suc w.calls; now = w.now + poll_pause + env.latency w.calls }

  timed_out :
      (fuel : ℕ) (w : World)
      → ltb poll_timeout (w.now - started) ≡ true
      → (poll env (suc fuel) hash started TransactionStatus.not_found w).0 ≢ err out_of_fuel
  unfolding poll
  timed_out fuel w late = rw (poll, late) (λ k. cc)

  waits :
      (fuel : ℕ) (w : World)
      → ltb poll_timeout (w.now - started) ≡ false
      → poll env (suc fuel) hash started TransactionStatus.not_found w
        ≡ (pause env >> (ask_transaction env hash >>= poll env fuel hash started)) w
  unfolding poll
  waits fuel w early = rw (poll, early) refl

  answered :
      (fuel : ℕ) (w : World) (status : TransactionStatus)
      → ltb poll_timeout (w.now - started) ≡ false
      → env.get_transaction w.calls hash ≡ ok status
      → poll env (suc fuel) hash started TransactionStatus.not_found w
        ≡ poll env fuel hash started status (asked_again w)
  unfolding ask_transaction atoms
  answered fuel w status early e =
      waits fuel w early
      ∙ bind-ok (pause env) _ refl
      ∙ bind-ok (ask_transaction env hash) (poll env fuel hash started)
          (ap (λ r. (r, asked_again w)) e)

  refused :
      (fuel : ℕ) (w : World) (error : Error)
      → ltb poll_timeout (w.now - started) ≡ false
      → env.get_transaction w.calls hash ≡ err error
      → poll env (suc fuel) hash started TransactionStatus.not_found w ≡ (err error, asked_again w)
  unfolding ask_transaction atoms
  refused fuel w error early e =
      waits fuel w early
      ∙ bind-ok (pause env) _ refl
      ∙ bind-err (ask_transaction env hash) (poll env fuel hash started)
          (ap (λ r. (r, asked_again w)) e)

  module _ (answers : Answers) where
    pub poll-fuel :
        (fuel : ℕ) (status : TransactionStatus) (w : World)
        → started ≤ w.now
        → poll_timeout < (w.now - started) + poll_pause * fuel
        → (poll env (suc fuel) hash started status w).0 ≢ err out_of_fuel
    unfolding poll
    poll-fuel fuel (TransactionStatus.success v) w h e = λ k. cc
    poll-fuel fuel TransactionStatus.failed w h e = λ k. cc
    poll-fuel zero TransactionStatus.not_found w h e = timed_out zero w (ground arith)
    poll-fuel (suc fuel) TransactionStatus.not_found w h e =
        elim (Bool-cases (ltb poll_timeout (w.now - started))) [
          | inl late ↦ timed_out (suc fuel) w late
          | inr early ↦ elim (Result-cases (env.get_transaction w.calls hash)) [
            | inl (status, came) ↦
                subst (λ (x : Result TransactionStatus × World). x.0 ≢ err out_of_fuel)
                  (sym (answered (suc fuel) w status early came))
                  (poll-fuel fuel status (asked_again w) (omega arith) (omega arith))
            | inr (error, came) ↦ λ k.
                answers w.calls
                  (came ∙ sym (ap (λ x. x.0) (refused (suc fuel) w error early came)) ∙ k)
          ]
        ]

-- The wait for a transaction never runs out of the fuel that the model gives it, from any first
-- answer on: it ends with an answer or with an error of the source's own, if the network's
-- rejections are not the model's own error.
pub poll-total :
    (env : Env) (hash : String) (status : TransactionStatus) (w : World)
    → Answers env hash w.now
    → (poll env poll_fuel hash w.now status w).0 ≢ err out_of_fuel
poll-total env hash status w answers =
    poll-fuel env hash w.now answers 41 status w (omega arith) (omega arith)
