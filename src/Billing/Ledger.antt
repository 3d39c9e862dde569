-- ===== src/Billing/Ledger.antt =====
-- What is paid stays paid, through a billing run.
use mathlib.Core.List.{Memᴰ}
use mathlib.Core.List.Memᴰ
use mathlib.Core.List.Memᴰ.{head, tail}
use substrata_backend.Prelude.{
  suc, ◌≡◌, ◌≢◌, refl, sym, ap, subst, ◌∙◌, inl, inr, String, Bool, true, false, Option, none, some,
  List, [], ◌∷◌, ◌++◌, arith, Bool-cases,
}
use substrata_backend.Prelude.Text.{eq_iff}
use substrata_backend.Idempotency.{billing_idempotency_key}
use substrata_backend.Store.{
  Plan, Wallet, Subscription, Payment, success, has_payment_status, find_row, any_row,
}
use substrata_backend.World.{World, Env, Result, ok, err, unique_violation}
use substrata_backend.Action.{Action, gets, try_catch}
use substrata_backend.Steps.{bind-ok, bind-err, if-true, if-false}
use substrata_backend.Frames.{IsFrame, Moves, moves_rules, Moves-bind, Moves-if, Moves-skip}
use substrata_backend.Frames.Once.{IsFrame-once}
use substrata_backend.Prisma.{has_key, update_subscription, create_payment}
use substrata_backend.Soroban
use substrata_backend.Payments
use substrata_backend.Billing.{
  new_payment, find_or_create_payment, collect_and_advance, handle_payment_failure, attempt_payment,
  bill_period, is_paid, process_billing_cycle,
}
use substrata_backend.Billing.Frame.{Respects}
use substrata_backend.Billing.Frame.Cycle.{charge-Moves, attempt-Moves, advance-Moves}
use substrata_backend.Billing.Keys.{
  clashes, Distinct, KeepsDistinct, KeepsDistinct-Respects, any_row-Memᴰ, one_row,
}
use substrata_backend.Billing.Untouched.{Untouched, Untouched-Respects, create-stays, retry-stays}
use substrata_backend.Billing.Branches.{period_payment}

pub find_row-Memᴰ :
    {A : Type 0} (t : A → Bool) (rs : List A) {r : A} → find_row t rs ≡ some r → Memᴰ r rs
find_row-Memᴰ t [] e = cc
find_row-Memᴰ t (x ∷ rs) {r = r} e = elim (Bool-cases (t x)) [
  | inl hit ↦ let own : x ≡ r = ground arith in head (sym own)
  | inr miss ↦ tail (find_row-Memᴰ t rs (ground arith))
]

-- Where the payments are distinct, the SUCCESS rows are as they were.
pub record StaysPaid (u w : World) : Type 0 where
  pub stays_distinct : KeepsDistinct u w
  pub stays :
      Distinct u.payments
      → (p : Payment) → p.status ≡ success
      → Memᴰ p u.payments
      → Memᴰ p w.payments

pub StaysPaid-IsFrame : IsFrame StaysPaid
StaysPaid-IsFrame = record {
  rfl = λ w. record { stays_distinct = record { keeps = λ d. d }; stays = λ d p s m. m };
  trn = λ u v w h k. record {
    stays_distinct = record { keeps = λ d. k.stays_distinct.keeps (h.stays_distinct.keeps d) };
    stays = λ d p s m. k.stays (h.stays_distinct.keeps d) p s (h.stays d p s m);
  };
}

pub same_payments-StaysPaid : (u w : World) → w.payments ≡ u.payments → StaysPaid u w
same_payments-StaysPaid u w e = record {
  stays_distinct = record { keeps = λ d. rw e d };
  stays = λ d p s m. subst (λ ps. Memᴰ p ps) (sym e) m;
}

update_subscription-StaysPaid :
    (id : String) (f : Subscription → Subscription) → Moves StaysPaid (update_subscription id f)
unfolding update_subscription
update_subscription-StaysPaid id f = record { at = λ w. same_payments-StaysPaid _ _ (ground arith) }

-- Of the writes without an update of a payment.
abbrev pub Never : String → Type 0
Never id = ⊥

pub StaysPaid-Respects : (env : Env) → Respects env Never StaysPaid StaysPaid
unfolding Soroban.submit Payments.submit
StaysPaid-Respects env = record {
  once = IsFrame-once StaysPaid-IsFrame;
  quiet = λ u w h. same_payments-StaysPaid u w h.payments_same;
  idle = λ w t n. same_payments-StaysPaid _ _ refl;
  on_payment = λ id f never h. elim never [ ];
  on_create = λ q keyed backed fresh pending. record {
    at = λ w. record {
      stays_distinct = ((KeepsDistinct-Respects env).on_create q keyed backed fresh pending).at w;
      stays = λ d p s m. create-stays q w m;
    };
  };
  on_subscription = λ id f h. update_subscription-StaysPaid id f;
  on_retry = λ id t n. record {
    at = λ w. record {
      stays_distinct = ((KeepsDistinct-Respects env).on_retry id t n).at w;
      stays = λ d p s m. retry-stays id t n w p s m;
    };
  };
  on_invoke = λ tx. record { at = λ w. same_payments-StaysPaid _ _ refl };
  on_pay = λ tx. record { at = λ w. same_payments-StaysPaid _ _ refl };
}

pub clash : (p q : Payment) → p.id ≡ q.id → clashes p q ≡ true
clash p q e = ground (arith, (eq_iff q.id p.id).1 (sym e))

module _ (env : Env) (sub : Subscription) (plan : Plan) (wallet : Wallet) where
  abbrev key : String
  key = billing_idempotency_key sub.id sub.current_period_end

  abbrev charge : String → Action (Unit {0})
  charge id =
      try_catch (collect_and_advance env sub plan wallet id key)
        (λ e. handle_payment_failure env sub id)

  charge-Untouched : (id : String) (w : World) → Untouched id w (charge id w).1
  charge-Untouched id w =
      (charge-Moves (Untouched-Respects id env) sub plan wallet id key refl).at w

  -- With a payment that was found, and is not paid.
  found_stays :
      (q : Payment) (w : World)
      → Memᴰ q w.payments
      → is_paid (some q) ≡ false
      → Distinct w.payments
      → (p : Payment) → p.status ≡ success
      → Memᴰ p w.payments
      → Memᴰ p (attempt_payment env sub plan wallet key (some q) w).1.payments
  unfolding attempt_payment find_or_create_payment
  found_stays q w there unpaid d p paid m =
      let other : p.id ≢ q.id = λ e.
        let same = one_row w.payments d m there (clash p q e) in
        let is_success : has_payment_status p.status success ≡ true =
          ap (λ s. has_payment_status s success) paid in
        cc in
      let same : attempt_payment env sub plan wallet key (some q) w ≡ charge q.id w =
        bind-ok (find_or_create_payment env sub plan key (some q)) _ refl in
      subst (λ (x : Result (Unit {0}) × World). Memᴰ p x.1.payments) (sym same)
        ((charge-Untouched q.id w).kept p other paid m)

  abbrev pub made : World → Payment
  made w = new_payment env sub plan key (env.cuid w.serial) w.now

  pub taken_lem :
      (w : World)
      → any_row (clashes (made w)) w.payments ≡ true
      → find_or_create_payment env sub plan key none w
        ≡ (err unique_violation, record w { serial = suc w.serial })
  unfolding find_or_create_payment create_payment
  taken_lem w taken = rw taken refl

  pub free_lem :
      (w : World)
      → any_row (clashes (made w)) w.payments ≡ false
      → find_or_create_payment env sub plan key none w
        ≡ (ok (made w), record w { serial = suc w.serial; payments = w.payments ++ made w ∷ [] })
  unfolding find_or_create_payment create_payment
  free_lem w free = rw free refl

  -- With a payment that is made now.
  made_stays :
      (w : World) (p : Payment)
      → p.status ≡ success
      → Memᴰ p w.payments
      → Memᴰ p (attempt_payment env sub plan wallet key none w).1.payments
  unfolding attempt_payment
  made_stays w p paid m =
      let q = made w in
      elim (Bool-cases (any_row (clashes q) w.payments)) [
        | inl taken ↦
            subst (λ (x : Result (Unit {0}) × World). Memᴰ p x.1.payments)
              (sym (bind-err (find_or_create_payment env sub plan key none) _ (taken_lem w taken)))
              m
        | inr free ↦
            let other : p.id ≢ q.id =
              λ e. let hit = any_row-Memᴰ (clashes q) w.payments m (clash q p (sym e)) in cc in
            subst (λ (x : Result (Unit {0}) × World). Memᴰ p x.1.payments)
              (sym (bind-ok (find_or_create_payment env sub plan key none) _ (free_lem w free)))
              ((charge-Untouched q.id _).kept p other paid (Memᴰ.append_left (q ∷ []) m))
      ]

  attempt-StaysPaid :
      (w : World) (o : Option Payment)
      → find_row (has_key key) w.payments ≡ o
      → is_paid o ≡ false
      → StaysPaid w (attempt_payment env sub plan wallet key o w).1
  attempt-StaysPaid w o found unpaid = record {
    stays_distinct = (attempt-Moves (KeepsDistinct-Respects env) (λ id. tt) sub plan wallet o).at w;
    stays = go o found unpaid;
  }
    where
      go :
          (o : Option Payment)
          → find_row (has_key key) w.payments ≡ o
          → is_paid o ≡ false
          → Distinct w.payments
          → (p : Payment) → p.status ≡ success
          → Memᴰ p w.payments
          → Memᴰ p (attempt_payment env sub plan wallet key o w).1.payments
      go none found unpaid d p s m = made_stays w p s m
      go (some q) found unpaid d p s m =
          found_stays q w (find_row-Memᴰ (has_key key) w.payments found) unpaid d p s m

  bill-StaysPaid : Moves StaysPaid (bill_period env sub plan wallet)
  unfolding bill_period gets
  bill-StaysPaid = record {
    at = λ w.
        let o = period_payment w sub in
        let read = bind-ok (gets (λ w. period_payment w sub)) _ {u = w} refl in
        elim (Bool-cases (is_paid o)) [
          | inl done ↦
              subst (λ (x : Result (Unit {0}) × World). StaysPaid w x.1)
                (sym (read ∙ if-true (is_paid o) _ _ w done))
                ((advance-Moves (StaysPaid-Respects env) sub plan).at w)
          | inr unpaid ↦
              subst (λ (x : Result (Unit {0}) × World). StaysPaid w x.1)
                (sym (read ∙ if-false (is_paid o) _ _ w unpaid)) (attempt-StaysPaid w o refl unpaid)
        ];
  }

-- Where the payments are distinct, every SUCCESS row stays as it is through a billing run, and they
-- stay distinct, whatever the network answers, also where the run rejects.
pub process_billing_cycle-StaysPaid :
    (env : Env) (id : String) → Moves StaysPaid (process_billing_cycle env id)
unfolding process_billing_cycle
process_billing_cycle-StaysPaid env id =
    let F = StaysPaid-IsFrame in
    Moves-bind F _ _ (search (moves_rules, F)) λ sub.
      Moves-bind F _ _ (search (moves_rules, F)) λ plan.
        Moves-bind F _ _ (search (moves_rules, F))
          λ wallet. search (Moves-if, Moves-skip, F, bill-StaysPaid)
