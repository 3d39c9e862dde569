-- ===== src/System/Periods.antt =====
-- What the rows of payments of a run say: one row for a period.
use mathlib.Core.List.{Memᴰ}
use mathlib.Core.List.Memᴰ.{head, tail}
use substrata_backend.Prelude.{String, some, ◌≡◌, sym, ap₂, ◌∙◌, true, List, [], ◌∷◌, arith}
use substrata_backend.Prelude.Text.{eq_iff}
use substrata_backend.Idempotency.{billing_idempotency_key}
use substrata_backend.Store.{Payment, AllRows}
use substrata_backend.World.{World, Env}
use substrata_backend.Billing.Frame.{IsKeyed, IsBacked}
use substrata_backend.Billing.Keys.{clashes, one_row}
use substrata_backend.System.{Step, run}
use substrata_backend.System.Sound.{Sound, run-Sound}

AllRows-Mem : {A : Type 0} (P : A → Type 0) (rs : List A) {r : A} → AllRows P rs → Memᴰ r rs → P r
AllRows-Mem P [] h m = elim m [ ]
AllRows-Mem P (x ∷ rs) h (head e) = rw e h.0
AllRows-Mem P (x ∷ rs) h (tail m) = AllRows-Mem P rs h.1 m

clash : (p q : Payment) → q.idempotency_key ≡ p.idempotency_key → clashes p q ≡ true
clash p q e = ground (arith, (eq_iff q.idempotency_key p.idempotency_key).1 e)

pub Sound-one_payment :
    (w : World) (p q : Payment)
    → Sound w
    → Memᴰ p w.payments
    → Memᴰ q w.payments
    → p.subscription_id ≡ q.subscription_id
    → p.billing_period_end ≡ q.billing_period_end
    → (p ≡ q) × IsBacked p
Sound-one_payment w p q h m k same_subscription same_end =
    let s = h.sound_payments in
    (
      one_row _ s.distinct m k (
          clash p q (
            AllRows-Mem IsKeyed _ s.keyed k
            ∙ ap₂ billing_idempotency_key (sym same_subscription) (sym same_end)
            ∙ sym (AllRows-Mem IsKeyed _ s.keyed m))),
      AllRows-Mem IsBacked _ s.backed m,
    )

clash_of_ids : (p q : Payment) → p.id ≡ q.id → clashes p q ≡ true
clash_of_ids p q e = ground (arith, (eq_iff q.id p.id).1 (sym e))

pub Sound-one_hash :
    (w : World) (hash : String) (p q : Payment)
    → Sound w
    → Memᴰ p w.payments
    → Memᴰ q w.payments
    → p.stellar_tx_hash ≡ some hash
    → q.stellar_tx_hash ≡ some hash
    → p ≡ q
Sound-one_hash w hash p q h m k e d =
    let s = h.sound_payments in
    one_row _ s.distinct m k (clash_of_ids p q (s.hashes.one_hash hash p q m k e d))

-- After a run from a sound database, two rows of payments for one subscription and one end of the
-- period are the same row, and a row with status SUCCESS has the hash of a transaction.
pub run-one_payment :
    (env : Env) (steps : List Step) (w : World) (p q : Payment)
    → Sound w
    → Memᴰ p (run env steps w).payments
    → Memᴰ q (run env steps w).payments
    → p.subscription_id ≡ q.subscription_id
    → p.billing_period_end ≡ q.billing_period_end
    → (p ≡ q) × IsBacked p
run-one_payment env steps w p q h =
    Sound-one_payment (run env steps w) p q (run-Sound env steps w h)
