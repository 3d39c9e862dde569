-- ===== src/Billing/Idle.antt =====
-- No payment is PROCESSING but while it is collected.
pub mod Calls
pub mod Network
pub mod Cycle
use substrata_backend.Prelude.{
  ◌≡◌, ◌≢◌, refl, sym, ap, ◌∙◌, inl, inr, String, Bool, true, false, not, ◌&&◌, Option, none, some,
  List, [], ◌∷◌, Bool-cases, arith, if◌then◌else◌,
}
use substrata_backend.Prelude.Text.{str_eq, eq_iff}
use substrata_backend.Store.{
  Payment, PaymentStatus, processing, AllRows, any_row, any_row-update_rows, update_rows, updated,
  update_rows-AllRows, find_row_of_any_row, find_row_holds,
}
use substrata_backend.World.{World, Error, ok, err, soroban_billing_failed}
use substrata_backend.Frames.Yields.{Yields, Outcome}
use substrata_backend.Prisma.{has_payment_id, same_text, hash_taken, update_payment}
use substrata_backend.Prisma.Updated.{
  with_payment, update_payment_cases, update_payment-written, taken_lem,
}
use substrata_backend.Billing.Frame.{KeepsIdentity}
use substrata_backend.System.Sound.Rows.{SoundPayments, update-SoundPayments}
use substrata_backend.System.Sound.Hashes.{OneHash, update-OneHash, unshared}

abbrev pub IsIdle : Payment → Type 0
IsIdle p = p.status ≢ processing

abbrev pub IsOnly : String → Payment → Type 0
IsOnly id p = p.status ≡ processing → p.id ≡ id

-- The payments are sound, and none is PROCESSING.
pub record Free (w : World) : Type 0 where
  pub free_sound : SoundPayments w.payments
  pub all_idle : AllRows IsIdle w.payments

-- The payment is there, and no other is PROCESSING.
pub record Held (id : String) (w : World) : Type 0 where
  pub held_sound : SoundPayments w.payments
  pub only : AllRows (IsOnly id) w.payments
  pub there : any_row (has_payment_id id) w.payments ≡ true

-- Whether the error is the service's own, which it throws after it has recorded it.
abbrev pub is_own : Error → Bool
is_own (soroban_billing_failed hash) = true
is_own _ = false

abbrev pub CaughtIf : Bool → String → World → Type 0
CaughtIf true id w = Free w
CaughtIf false id w = Held id w

abbrev pub Caught : String → Error → World → Type 0
Caught id e w = CaughtIf (is_own e) id w

all_weaken :
    {A : Type 0} (P Q : A → Type 0) (rs : List A)
    → ((r : A) → P r → Q r)
    → AllRows P rs
    → AllRows Q rs
all_weaken P Q [] h k = tt
all_weaken P Q (r ∷ rs) h k = (h r k.0, all_weaken P Q rs h k.1)

all_update :
    {A : Type 0} (P Q : A → Type 0) (t : A → Bool) (f : A → A) (rs : List A)
    → ((r : A) → P r → Q (updated t f r))
    → AllRows P rs
    → AllRows Q (update_rows t f rs)
all_update P Q t f [] h k = tt
all_update P Q t f (r ∷ rs) h k = (h r k.0, all_update P Q t f rs h k.1)

module _ (id : String) (f : Payment → Payment) (keeps : KeepsIdentity f) (w : World) where
  sound_after :
      hash_taken id f w.payments ≡ false
      → SoundPayments w.payments
      → SoundPayments (with_payment id f w).payments
  sound_after free s =
      update-SoundPayments (has_payment_id id) f w.payments keeps
        (update-OneHash id f w.payments (λ p. (keeps p).0) free) s

  pub hold :
      any_row (has_payment_id id) w.payments ≡ true
      → hash_taken id f w.payments ≡ false
      → Free w
      → Held id (with_payment id f w)
  hold there free h = record {
    held_sound = sound_after free h.free_sound;
    only = all_update IsIdle (IsOnly id) (has_payment_id id) f w.payments only_row h.all_idle;
    there =
        any_row-update_rows (has_payment_id id) (has_payment_id id) f w.payments
          (λ p. ap (λ i. str_eq i id) (keeps p).0)
        ∙ there;
  }
    where
      only_row : (p : Payment) → IsIdle p → IsOnly id (updated (has_payment_id id) f p)
      only_row p idle = elim (Bool-cases (has_payment_id id p)) [
        | inl hit ↦ rw hit (λ e. (keeps p).0 ∙ (eq_iff p.id id).0 hit)
        | inr miss ↦ rw miss (λ e. elim (idle e) [ ])
      ]

  pub release :
      ((p : Payment) → IsIdle (f p))
      → hash_taken id f w.payments ≡ false
      → Held id w
      → Free (with_payment id f w)
  release idle free h = record {
    free_sound = sound_after free h.held_sound;
    all_idle = all_update (IsOnly id) IsIdle (has_payment_id id) f w.payments idle_row h.only;
  }
    where
      idle_row : (p : Payment) → IsOnly id p → IsIdle (updated (has_payment_id id) f p)
      idle_row p only = elim (Bool-cases (has_payment_id id p)) [
        | inl hit ↦ rw hit (idle p)
        | inr miss ↦ rw miss (λ e. let own = (eq_iff p.id id).1 (only e) in cc)
      ]

-- The update to PROCESSING.
pub hold-Yields :
    (id : String) (f : Payment → Payment)
    → KeepsIdentity f
    → Yields Free (λ _ w. Held id w) (λ e w. Free w) (update_payment id f)
hold-Yields id f keeps = record {
  at = λ w h. elim (update_payment_cases id f w) [
    | inl (there, free, e) ↦ rw e (hold id f keeps w there free h)
    | inr (x, e) ↦ rw e h
  ];
}

-- An update to another status: where it rejects, it has changed nothing.
pub release-Yields :
    (id : String) (f : Payment → Payment)
    → KeepsIdentity f
    → ((p : Payment) → IsIdle (f p))
    → Yields (Held id) (λ _ w. Free w) (λ e w. Held id w × (is_own e ≡ false)) (update_payment id f)
release-Yields id f keeps idle = record {
  at = λ w h. elim (Bool-cases (hash_taken id f w.payments)) [
    | inl taken ↦ rw (taken_lem id f w h.there taken) (h, refl)
    | inr free ↦ rw (update_payment-written id f w h.there free) (release id f keeps w idle free h)
  ];
}

-- One that leaves the hash alone does not reject.
pub settle-Yields :
    (id : String) (f : Payment → Payment)
    → KeepsIdentity f
    → ((p : Payment) → IsIdle (f p))
    → ((p : Payment) → (f p).stellar_tx_hash ≡ p.stellar_tx_hash)
    → Yields (Held id) (λ _ w. Free w) (λ e w. Free w) (update_payment id f)
settle-Yields id f keeps idle same = record {
  at = λ w h.
      let free = unshared id f w.payments same h.held_sound.hashes in
      rw (update_payment-written id f w h.there free) (release id f keeps w idle free h);
}

-- From a world with no PROCESSING payment.
pub stay-Yields :
    (id : String) (f : Payment → Payment)
    → KeepsIdentity f
    → ((p : Payment) → IsIdle (f p))
    → Yields Free (λ _ w. Free w) (λ e w. Free w) (update_payment id f)
stay-Yields id f keeps idle = record {
  at = λ w h. elim (update_payment_cases id f w) [
    | inl (there, free, e) ↦ rw e (
        release id f keeps w idle free record {
          held_sound = h.free_sound;
          only = all_weaken IsIdle (IsOnly id) w.payments (λ p k s. elim (k s) [ ]) h.all_idle;
          there = there;
        })
    | inr (x, e) ↦ rw e h
  ];
}
