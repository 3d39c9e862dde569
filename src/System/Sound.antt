-- ===== src/System/Sound.antt =====
-- The database stays sound through every run of the program.
pub mod Rows
pub mod Hashes
use substrata_backend.System.Sound.Rows.{
  SoundPayments, update-AllRows, append-AllRows, update-SoundPayments, append-SoundPayments,
}
use substrata_backend.System.Sound.Hashes.{update-OneHash, kept-OneHash}
use substrata_backend.Prelude.{
  ℕ, ◌≤◌, ◌≡◌, refl, inl, inr, String, Bool, true, false, none, List, [], ◌∷◌, ◌++◌, Bool-cases,
}
use substrata_backend.Store.{
  Plan, Subscription, Payment, AllRows, any_row, updated, update_rows, update_rows-AllRows,
}
use substrata_backend.World.{World, Env}
use substrata_backend.Action.{modify}
use substrata_backend.Frames.{IsFrame, Moves}
use substrata_backend.Frames.Once.{IsFrame-once}
use substrata_backend.Prisma.Updated.{update_payment-Moves}
use substrata_backend.Prisma.{
  has_id, has_payment_id, has_plan_id, update_subscription, update_payment, create_payment,
  update_plan, insert_plan,
}
use substrata_backend.Soroban
use substrata_backend.Payments
use substrata_backend.Billing.{retry_failed_payments}
use substrata_backend.Billing.Frame.{
  Respects, Every, KeepsIdentity, KeepsOrder, IsKeyed, IsBacked, IsOrdered,
}
use substrata_backend.Billing.Frame.Cycle.{process-Moves}
use substrata_backend.Billing.Keys.{clashes, Distinct, update_rows-Distinct, append-Distinct}
use substrata_backend.Subscriptions.{insert_subscription}
use substrata_backend.System.{Step, does, waits, bills, run}
use substrata_backend.System.Apart.{Apart}
use substrata_backend.System.Writes.{Withstands}
use substrata_backend.System.Walk.{ByKind, perform-Moves}

abbrev pub HasCount : Plan → Type 0
HasCount p = 1 ≤ p.interval_count

pub record Sound (w : World) : Type 0 where
  pub sound_payments : SoundPayments w.payments
  pub ordered : AllRows IsOrdered w.subscriptions
  pub counted : AllRows HasCount w.plans

sound :
    {w : World}
    → SoundPayments w.payments
    → AllRows IsOrdered w.subscriptions
    → AllRows HasCount w.plans
    → Sound w
sound p o c = record { sound_payments = p; ordered = o; counted = c }

pub record KeepsSound (u w : World) : Type 0 where
  pub keeps : Sound u → Sound w

pub KeepsSound-IsFrame : IsFrame KeepsSound
KeepsSound-IsFrame = record {
  rfl = λ w. record { keeps = λ h. h };
  trn = λ u v w h k. record { keeps = λ d. k.keeps (h.keeps d) };
}

pub either : (b : Bool) {u w : World} → ByKind b KeepsSound KeepsSound u w → KeepsSound u w
either true h = h
either false h = h

Apart-KeepsSound : (u w : World) → Apart u w → KeepsSound u w
Apart-KeepsSound u w h = record {
  keeps = λ s. record {
    sound_payments = rw h.payments_same s.sound_payments;
    ordered = rw h.subscriptions_same s.ordered;
    counted = rw h.plans_same s.counted;
  };
}

same : (w : World) → KeepsSound w w
same = KeepsSound-IsFrame.rfl

update_payment-KeepsSound :
    (id : String) (f : Payment → Payment) → KeepsIdentity f → Moves KeepsSound (update_payment id f)
update_payment-KeepsSound id f keeps = update_payment-Moves id f same λ w there free. record {
  keeps = λ s.
      sound
        (update-SoundPayments (has_payment_id id) f w.payments keeps
          (update-OneHash id f w.payments (λ p. (keeps p).0) free) s.sound_payments)
        s.ordered s.counted;
}

create_payment-KeepsSound :
    (p : Payment)
    → IsKeyed p
    → IsBacked p
    → p.stellar_tx_hash ≡ none
    → Moves KeepsSound (create_payment p)
unfolding create_payment
create_payment-KeepsSound p keyed backed fresh = record {
  at = λ w. elim (Bool-cases (any_row (clashes p) w.payments)) [
    | inl taken ↦ rw taken (record { keeps = λ s. sound s.sound_payments s.ordered s.counted })
    | inr free ↦ rw free (record {
      keeps = λ s.
          sound (append-SoundPayments w.payments p free keyed backed fresh s.sound_payments)
            s.ordered s.counted;
    })
  ];
}

retry-KeepsSound : (id : String) (t n : ℕ) → Moves KeepsSound (retry_failed_payments id t n)
unfolding retry_failed_payments modify
retry-KeepsSound id t n = record {
  at = λ w. record {
    keeps = λ s.
        sound
          (update-SoundPayments _ _ w.payments (λ p. (refl, refl, refl, refl, λ b e. cc))
            (kept-OneHash _ _ w.payments (λ p. refl) (λ p. refl)) s.sound_payments)
          s.ordered s.counted;
  };
}

update_subscription-KeepsSound :
    (id : String) (f : Subscription → Subscription)
    → KeepsOrder f
    → Moves KeepsSound (update_subscription id f)
unfolding update_subscription
update_subscription-KeepsSound id f keeps = record {
  at = λ w. elim (Bool-cases (any_row (has_id id) w.subscriptions)) [
    | inl there ↦ rw there (record {
      keeps = λ s.
          sound s.sound_payments
            (update-AllRows IsOrdered (has_id id) f w.subscriptions (λ r. (keeps r).1) s.ordered)
            s.counted;
    })
    | inr missing ↦ rw missing (same w)
  ];
}

insert_subscription-KeepsSound :
    (r : Subscription) → IsOrdered r → Moves KeepsSound (insert_subscription r)
unfolding insert_subscription
insert_subscription-KeepsSound r in_order = record {
  at = λ w. elim (Bool-cases (any_row (has_id r.id) w.subscriptions)) [
    | inl taken ↦ rw taken (record { keeps = λ s. sound s.sound_payments s.ordered s.counted })
    | inr free ↦ rw free (record {
      keeps = λ s.
          sound s.sound_payments (append-AllRows IsOrdered w.subscriptions r s.ordered in_order)
            s.counted;
    })
  ];
}

insert_plan-KeepsSound : (p : Plan) → HasCount p → Moves KeepsSound (insert_plan p)
unfolding insert_plan
insert_plan-KeepsSound p count = record {
  at = λ w. elim (Bool-cases (any_row (has_plan_id p.id) w.plans)) [
    | inl taken ↦ rw taken (record { keeps = λ s. sound s.sound_payments s.ordered s.counted })
    | inr free ↦ rw free (record {
      keeps =
          λ s. sound s.sound_payments s.ordered (append-AllRows HasCount w.plans p s.counted count);
    })
  ];
}

update_plan-KeepsSound :
    (id : String) (f : Plan → Plan)
    → ((p : Plan) → (f p).interval_count ≡ p.interval_count)
    → Moves KeepsSound (update_plan id f)
unfolding update_plan
update_plan-KeepsSound id f keeps = record {
  at = λ w. elim (Bool-cases (any_row (has_plan_id id) w.plans)) [
    | inl there ↦ rw there (record {
      keeps = λ s.
          sound s.sound_payments s.ordered
            (update-AllRows HasCount (has_plan_id id) f w.plans (λ p h. rw (keeps p) h) s.counted);
    })
    | inr missing ↦ rw missing (same w)
  ];
}

module _ (env : Env) where
  pub KeepsSound-Respects : Respects env Every KeepsSound KeepsSound
  unfolding Soroban.submit Payments.submit
  KeepsSound-Respects = record {
    once = IsFrame-once KeepsSound-IsFrame;
    quiet = λ u w h. record {
      keeps = λ s.
          sound (rw h.payments_same s.sound_payments) (rw h.subscriptions_same s.ordered)
            (rw h.plans_same s.counted);
    };
    idle = λ w t n. record { keeps = λ s. sound s.sound_payments s.ordered s.counted };
    on_payment = λ id f may. update_payment-KeepsSound id f;
    on_create = λ p keyed backed fresh pending. create_payment-KeepsSound p keyed backed fresh;
    on_subscription = update_subscription-KeepsSound;
    on_retry = retry-KeepsSound;
    on_invoke = λ tx. record {
      at = λ w. record { keeps = λ s. sound s.sound_payments s.ordered s.counted };
    };
    on_pay = λ tx. record {
      at = λ w. record { keeps = λ s. sound s.sound_payments s.ordered s.counted };
    };
  }

  pub KeepsSound-Withstands : Withstands env Every KeepsSound KeepsSound
  KeepsSound-Withstands = record {
    respects = KeepsSound-Respects;
    on_cycle = process-Moves KeepsSound-Respects (λ id. tt);
    apart = Apart-KeepsSound;
    on_open = insert_subscription-KeepsSound;
    on_insert_plan = insert_plan-KeepsSound;
    on_plan = update_plan-KeepsSound;
  }

  -- If the database is sound, it is sound after every run of operations and waits, whatever the
  -- requests are and whatever the network, Redis and the database answer.
  pub run-Sound : (steps : List Step) (w : World) → Sound w → Sound (run env steps w)
  unfolding run
  run-Sound [] w h = h
  run-Sound (does op ∷ steps) w h =
      run-Sound steps _ ((either (bills op) (perform-Moves KeepsSound-Withstands op w)).keeps h)
  run-Sound (waits ms ∷ steps) w h = run-Sound steps _ (sound h.sound_payments h.ordered h.counted)
