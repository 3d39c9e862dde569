-- ===== src/System/Sound/Rows.antt =====
-- Tables whose rows stay sound under the updates and insertions of the program.
use substrata_backend.Prelude.{◌≡◌, inl, inr, Bool, false, none, List, [], ◌∷◌, ◌++◌, Bool-cases}
use substrata_backend.Store.{Payment, AllRows, any_row, updated, update_rows, update_rows-AllRows}
use substrata_backend.Billing.Frame.{KeepsIdentity, IsKeyed, IsBacked}
use substrata_backend.System.Sound.Hashes.{OneHash, append-OneHash}
use substrata_backend.Billing.Keys.{clashes, Distinct, update_rows-Distinct, append-Distinct}

-- The rows of payments: their ids, keys and hashes are unique, each key is that of the row's
-- subscription and period, and a SUCCESS has a hash.
pub record SoundPayments (ps : List Payment) : Type 0 where
  pub distinct : Distinct ps
  pub keyed : AllRows IsKeyed ps
  pub backed : AllRows IsBacked ps
  pub hashes : OneHash ps

updated_keeps :
    {A : Type 0} (P : A → Type 0) (t : A → Bool) (f : A → A)
    → ((x : A) → P x → P (f x))
    → (x : A) → P x
    → P (updated t f x)
updated_keeps P t f keep x h = elim (Bool-cases (t x)) [
  | inl hit ↦ rw hit (keep x h)
  | inr miss ↦ rw miss h
]

pub update-AllRows :
    {A : Type 0} (P : A → Type 0) (t : A → Bool) (f : A → A) (rs : List A)
    → ((x : A) → P x → P (f x))
    → AllRows P rs
    → AllRows P (update_rows t f rs)
update-AllRows P t f rs keep = update_rows-AllRows P t f rs (updated_keeps P t f keep)

pub append-AllRows :
    {A : Type 0} (P : A → Type 0) (rs : List A) (r : A)
    → AllRows P rs
    → P r
    → AllRows P (rs ++ r ∷ [])
append-AllRows P [] r h k = (k, tt)
append-AllRows P (s ∷ rs) r h k = (h.0, append-AllRows P rs r h.1 k)

pub update-SoundPayments :
    (t : Payment → Bool) (f : Payment → Payment) (ps : List Payment)
    → KeepsIdentity f
    → (OneHash ps → OneHash (update_rows t f ps))
    → SoundPayments ps
    → SoundPayments (update_rows t f ps)
update-SoundPayments t f ps keeps hashes h = record {
  distinct = update_rows-Distinct f keeps t ps h.distinct;
  keyed = update-AllRows IsKeyed t f ps (λ p k. key_kept p k) h.keyed;
  backed = update-AllRows IsBacked t f ps (λ p b. (keeps p).4 b) h.backed;
  hashes = hashes h.hashes;
}
  where
    key_kept : (p : Payment) → IsKeyed p → IsKeyed (f p)
    key_kept p k = rw ((keeps p).1, (keeps p).2, (keeps p).3) k

pub append-SoundPayments :
    (ps : List Payment) (p : Payment)
    → any_row (clashes p) ps ≡ false
    → IsKeyed p
    → IsBacked p
    → p.stellar_tx_hash ≡ none
    → SoundPayments ps
    → SoundPayments (ps ++ p ∷ [])
append-SoundPayments ps p free keyed backed fresh h = record {
  distinct = append-Distinct ps p h.distinct free;
  keyed = append-AllRows IsKeyed ps p h.keyed keyed;
  backed = append-AllRows IsBacked ps p h.backed backed;
  hashes = append-OneHash ps p fresh h.hashes;
}
