-- ===== src/Billing/Settled.antt =====
-- The row of a payment that is settled, and the test for it.
use substrata_backend.Prelude.{◌≡◌, ◌≢◌, refl, ap, String, Option, none, some, inl, inr, arith}
use substrata_backend.Prelude.Text.{str_eq, eq_iff}
use substrata_backend.Store.{
  Payment, success, find_row, find_row_holds, find_row-update_rows, find_row_of_any_row,
  PaymentStatus, pending, processing, retrying,
}
use substrata_backend.World.{World}
use substrata_backend.Frames.Ends.{Ends}
use substrata_backend.Prisma.Updated.{update_payment_cases}
use substrata_backend.Prisma.{has_payment_id, update_payment}
use substrata_backend.SorobanBilling.{existing_hash, settled_hash}

-- The payment's row has status SUCCESS and the hash.
abbrev pub Settled : String → String → World → Type 0
Settled id hash w =
    (p : Payment) × (find_row (has_payment_id id) w.payments ≡ some p)
    × (p.status ≡ success)
    × (p.stellar_tx_hash ≡ some hash)

pub update_payment-Settled :
    (id hash : String) (f : Payment → Payment)
    → ((p : Payment) → (f p).id ≡ p.id)
    → ((p : Payment) → (f p).status ≡ success)
    → ((p : Payment) → (f p).stellar_tx_hash ≡ some hash)
    → Ends (λ w. Unit) (λ _ w. Settled id hash w) (update_payment id f)
update_payment-Settled id hash f keeps is_success has_hash = record {
  at = λ w h. elim (update_payment_cases id f w) [
    | inl (there, free, written) ↦
        let (p, found) = find_row_of_any_row (has_payment_id id) w.payments there in
        rw written (
          f p,
          ground (
            arith,
            find_row_holds (has_payment_id id) w.payments p,
            find_row-update_rows (has_payment_id id) (has_payment_id id) f w.payments
                (λ q. ap (λ i. str_eq i id) (keeps q)),
          ),
          is_success p,
          has_hash p,
        )
    | inr (x, rejected) ↦ rw rejected tt
  ];
}

settled_hash-some :
    (hash : String) (status : PaymentStatus) (o : Option String)
    → settled_hash status o ≡ some hash
    → (status ≡ success) × (o ≡ some hash)
settled_hash-some hash status none e = cc
settled_hash-some hash success (some h) e = (refl, ground arith)
settled_hash-some hash pending (some h) e = ground arith
settled_hash-some hash processing (some h) e = ground arith
settled_hash-some hash PaymentStatus.failed (some h) e = ground arith
settled_hash-some hash retrying (some h) e = ground arith

pub existing_hash-Settled :
    (id hash : String) (w : World)
    → existing_hash (find_row (has_payment_id id) w.payments) ≡ some hash
    → Settled id hash w
existing_hash-Settled id hash w e = go (find_row (has_payment_id id) w.payments) refl e
  where
    go :
        (o : Option Payment)
        → find_row (has_payment_id id) w.payments ≡ o
        → existing_hash o ≡ some hash
        → Settled id hash w
    go none h e = cc
    go (some p) h e =
        let (status, with_hash) = settled_hash-some hash p.status p.stellar_tx_hash e in
        (p, h, status, with_hash)

pub Settled-existing_hash :
    (id hash : String) (w : World)
    → hash ≢ ""
    → Settled id hash w
    → existing_hash (find_row (has_payment_id id) w.payments) ≡ some hash
Settled-existing_hash id hash w ne (p, found, status, with_hash) =
    rw (found, status, with_hash) (ground (arith, eq_iff hash ""))
