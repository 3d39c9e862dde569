-- ===== src/Billing/Keys.antt =====
-- The unique columns of the payments stay unique.
use mathlib.Core.List.{Memᴰ}
use mathlib.Core.List.Memᴰ.{head, tail}
use mathlib.Core.Path.{fun_ext}
use substrata_backend.Prelude.{
  ℕ, ◌≡◌, refl, ◌∙◌, ap, inl, inr, String, Bool, false, ◌||◌, List, [], ◌∷◌, ◌++◌, arith,
  Bool-cases, sym, true,
}
use substrata_backend.Prelude.Text.{eq_iff}
use substrata_backend.Store.{
  Payment, Subscription, any_row, update_rows, updated, any_row-update_rows, any_row-append,
}
use substrata_backend.World.{World, Env, Sent}
use substrata_backend.Action.{modify}
use substrata_backend.Frames.{IsFrame, Moves}
use substrata_backend.Frames.Once.{IsFrame-once}
use substrata_backend.Prisma.Updated.{update_payment-Moves}
use substrata_backend.Prisma.{
  has_payment_id, has_key, update_subscription, update_payment, create_payment,
}
use substrata_backend.Soroban
use substrata_backend.Payments
use substrata_backend.Billing.{process_billing_cycle, retry_failed_payments}
use substrata_backend.Billing.Frame.{Respects, Every, KeepsIdentity}
use substrata_backend.Billing.Frame.Cycle.{process-Moves}

-- Two payments with one id, or one idempotency key.
abbrev pub clashes : Payment → Payment → Bool
clashes p q = has_payment_id p.id q || has_key p.idempotency_key q

-- No two rows of the table clash.
abbrev pub Distinct : List Payment → Type 0
Distinct [] = Unit
Distinct (p ∷ ps) = (any_row (clashes p) ps ≡ false) × Distinct ps

clashes-sym : (p q : Payment) → clashes p q ≡ false → clashes q p ≡ false
clashes-sym p q h = ground (
  arith,
  eq_iff q.id p.id,
  eq_iff p.id q.id,
  eq_iff q.idempotency_key p.idempotency_key,
  eq_iff p.idempotency_key q.idempotency_key,
)

module _ (f : Payment → Payment) (keeps : KeepsIdentity f) where
  clashes-updated : (t : Payment → Bool) (p q : Payment) → clashes (updated t f p) q ≡ clashes p q
  clashes-updated t p q = elim (Bool-cases (t p)) [
    | inl yes_row ↦ rw (yes_row, (keeps p).0, (keeps p).1)
    | inr no_row ↦ rw no_row
  ]

  clashes_kept : (p q : Payment) → clashes p (f q) ≡ clashes p q
  clashes_kept p q = rw ((keeps q).0, (keeps q).1)

  pub update_rows-Distinct :
      (t : Payment → Bool) (ps : List Payment) → Distinct ps → Distinct (update_rows t f ps)
  update_rows-Distinct t [] h = tt
  update_rows-Distinct t (p ∷ ps) h = (
    any_row-update_rows t (clashes (updated t f p)) f ps (clashes_kept (updated t f p))
        ∙ ap (λ c. any_row c ps) (fun_ext (clashes-updated t p))
        ∙ h.0,
    update_rows-Distinct t ps h.1,
  )

pub append-Distinct :
    (ps : List Payment) (p : Payment)
    → Distinct ps
    → any_row (clashes p) ps ≡ false
    → Distinct (ps ++ p ∷ [])
append-Distinct [] p h e = (refl, tt)
append-Distinct (q ∷ ps) p h e = (
  ground (arith, any_row-append (clashes q) ps (p ∷ []), clashes-sym p q),
  append-Distinct ps p h.1 (ground arith),
)

pub any_row-Memᴰ :
    {A : Type 0} (t : A → Bool) (rs : List A) {r : A} → Memᴰ r rs → t r ≡ true → any_row t rs ≡ true
any_row-Memᴰ t [] m h = elim m [ ]
any_row-Memᴰ t (x ∷ rs) (head e) h = let own : t x ≡ true = ap t (sym e) ∙ h in ground (arith, own)
any_row-Memᴰ t (x ∷ rs) (tail m) h = ground (arith, any_row-Memᴰ t rs m h)

clashes-turned : (p q : Payment) → clashes p q ≡ true → clashes q p ≡ true
clashes-turned p q h = elim (Bool-cases (clashes q p)) [
  | inl yes_row ↦ yes_row
  | inr no_row ↦ let none_left = clashes-sym q p no_row in cc
]

-- Of rows that are distinct two that clash are one.
pub one_row :
    (ps : List Payment) {p q : Payment}
    → Distinct ps
    → Memᴰ p ps
    → Memᴰ q ps
    → clashes p q ≡ true
    → p ≡ q
one_row [] d m k same = elim m [ ]
one_row (x ∷ ps) d (head e) (head f) same = e ∙ sym f
one_row (x ∷ ps) {p = p} {q = q} d (head e) (tail m) same =
    let hit = any_row-Memᴰ (clashes x) ps m (ap (λ r. clashes r q) (sym e) ∙ same) in cc
one_row (x ∷ ps) {p = p} {q = q} d (tail m) (head f) same =
    let hit =
      any_row-Memᴰ (clashes x) ps m (ap (λ r. clashes r p) (sym f) ∙ clashes-turned p q same) in
    cc
one_row (x ∷ ps) d (tail m) (tail k) same = one_row ps d.1 m k same

-- The payments of a world stay distinct.
pub record KeepsDistinct (u w : World) : Type 0 where
  pub keeps : Distinct u.payments → Distinct w.payments

KeepsDistinct-IsFrame : IsFrame KeepsDistinct
KeepsDistinct-IsFrame = record {
  rfl = λ w. record { keeps = λ h. h };
  trn = λ u v w h k. record { keeps = λ d. k.keeps (h.keeps d) };
}

same_payments : (u w : World) → w.payments ≡ u.payments → KeepsDistinct u w
same_payments u w e = record { keeps = λ d. rw e d }

update_payment-KeepsDistinct :
    (id : String) (f : Payment → Payment)
    → KeepsIdentity f
    → Moves KeepsDistinct (update_payment id f)
update_payment-KeepsDistinct id f keeps =
    update_payment-Moves id f KeepsDistinct-IsFrame.rfl
      λ w there free. record { keeps = update_rows-Distinct f keeps (has_payment_id id) w.payments }

create_payment-KeepsDistinct : (p : Payment) → Moves KeepsDistinct (create_payment p)
unfolding create_payment
create_payment-KeepsDistinct p = record {
  at = λ w. elim (Bool-cases (any_row (clashes p) w.payments)) [
    | inl taken ↦ rw taken (record { keeps = λ d. d })
    | inr free ↦ rw free (record { keeps = λ d. append-Distinct w.payments p d free })
  ];
}

update_subscription-KeepsDistinct :
    (id : String) (f : Subscription → Subscription) → Moves KeepsDistinct (update_subscription id f)
unfolding update_subscription
update_subscription-KeepsDistinct id f = record { at = λ w. same_payments _ _ (ground arith) }

retry-KeepsDistinct : (id : String) (t n : ℕ) → Moves KeepsDistinct (retry_failed_payments id t n)
unfolding retry_failed_payments modify
retry-KeepsDistinct id t n = record {
  at = λ w. record {
    keeps = update_rows-Distinct _ (λ p. (refl, refl, refl, refl, λ b e. cc)) _ w.payments;
  };
}

module _ (env : Env) where
  invoke-KeepsDistinct : (tx : Sent) → Moves KeepsDistinct (Soroban.submit env tx)
  unfolding Soroban.submit
  invoke-KeepsDistinct tx = record { at = λ w. record { keeps = λ d. d } }

  pay-KeepsDistinct : (tx : Sent) → Moves KeepsDistinct (Payments.submit env tx)
  unfolding Payments.submit
  pay-KeepsDistinct tx = record { at = λ w. record { keeps = λ d. d } }

  pub KeepsDistinct-Respects : Respects env Every KeepsDistinct KeepsDistinct
  KeepsDistinct-Respects = record {
    once = IsFrame-once KeepsDistinct-IsFrame;
    quiet = λ u w h. same_payments u w h.payments_same;
    idle = λ w t n. record { keeps = λ d. d };
    on_payment = λ id f may. update_payment-KeepsDistinct id f;
    on_create = λ p keyed backed fresh pending. create_payment-KeepsDistinct p;
    on_subscription = λ id f h. update_subscription-KeepsDistinct id f;
    on_retry = retry-KeepsDistinct;
    on_invoke = invoke-KeepsDistinct;
    on_pay = pay-KeepsDistinct;
  }

  -- If no two payments have one id or one idempotency key, that is still so after a billing run,
  -- whatever the network answers, also where the run rejects.
  pub process_billing_cycle-Distinct :
      (id : String) (w : World)
      → Distinct w.payments
      → Distinct (process_billing_cycle env id w).1.payments
  process_billing_cycle-Distinct id w =
      ((process-Moves KeepsDistinct-Respects (λ i. tt) id).at w).keeps
