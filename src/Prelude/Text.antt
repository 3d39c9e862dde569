-- ===== src/Prelude/Text.antt =====
-- Texts: the equality test of the library, and decimal digits of a fixed width.
use Prim.Native.Nat.{ℕ, zero, suc, ◌/◌, ◌%◌, ◌^◌, ◌<◌}
use Prim.Native.String.{String, count, ◌++◌}
use mathlib.Core.Path.{◌≡◌, refl, ap, subst}
use native.Mathlib.Omega.{arith}
use native.Mathlib.Decide.{dec_lt}
use native.Mathlib.Nat.{pow-suc}
use text.Mathlib.TextLemmas.{append_inj, length-append}
use substrata_backend.Prelude.Tests.{◌==◌ as nat_eq, if◌then◌else◌}
pub use text.Mathlib.Text.{◌==◌ as str_eq}
pub use text.Mathlib.TextEquality.{eq_iff}
pub use text.Mathlib.TextPositions.{eq_refl}

abbrev pub digit : ℕ → String
digit n =
    if nat_eq n 0
    then "0"
    else if nat_eq n 1
    then "1"
    else if nat_eq n 2
    then "2"
    else if nat_eq n 3
    then "3"
    else if nat_eq n 4
    then "4"
    else if nat_eq n 5
    then "5"
    else if nat_eq n 6
    then "6"
    else if nat_eq n 7
    then "7"
    else if nat_eq n 8
    then "8"
    else "9"

-- The value of a digit, by which `digit` is shown injective.
abbrev digit_value : String → ℕ
digit_value s =
    if str_eq s "0"
    then 0
    else if str_eq s "1"
    then 1
    else if str_eq s "2"
    then 2
    else if str_eq s "3"
    then 3
    else if str_eq s "4"
    then 4
    else if str_eq s "5"
    then 5
    else if str_eq s "6"
    then 6
    else if str_eq s "7"
    then 7
    else if str_eq s "8"
    then 8
    else 9

-- What is so for every number below a bound, as one product.
abbrev pub Upto : (ℕ → Type 0) → ℕ → Type 0
Upto P zero = Unit
Upto P (suc k) = P k × Upto P k

pub upto-at : (P : ℕ → Type 0) (k n : ℕ) → Upto P k → n < k → P n
upto-at P zero n all inside = absurd (omega arith)
upto-at P (suc k) n (last, others) inside = elim (dec_lt n k) [
  | yes before ↦ upto-at P k n others before
  | no there ↦ let here : k ≡ n = omega arith in subst P here last
]

digit_value-digit : (n : ℕ) → n < 10 → digit_value (digit n) ≡ n
digit_value-digit n h =
    upto-at (λ i. digit_value (digit i) ≡ i) 10 n
      (refl, (refl, (refl, (refl, (refl, (refl, (refl, (refl, (refl, (refl, tt)))))))))) h

digit_inj : (a b : ℕ) → a < 10 → b < 10 → digit a ≡ digit b → a ≡ b
digit_inj a b ha hb e =
    omega (arith, digit_value-digit a ha, digit_value-digit b hb, ap digit_value e)

count-digit : (n : ℕ) → n < 10 → count (digit n) ≡ 1
count-digit n h =
    upto-at (λ i. count (digit i) ≡ 1) 10 n
      (refl, (refl, (refl, (refl, (refl, (refl, (refl, (refl, (refl, (refl, tt)))))))))) h

-- The last `k` decimal digits of `n`, most significant first.
unfoldable pub pad : ℕ → ℕ → String
pad zero n = ""
pad (suc k) n = pad k (n / 10) ++ digit (n % 10)

pub count-pad : (k n : ℕ) → count (pad k n) ≡ k
unfolding pad
count-pad zero n = refl
count-pad (suc k) n = omega (
  arith,
  length-append (pad k (n / 10)) (digit (n % 10)),
  count-pad k (n / 10),
  count-digit (n % 10) (omega arith),
)

pub pad_inj : (k a b : ℕ) → a < 10 ^ k → b < 10 ^ k → pad k a ≡ pad k b → a ≡ b
unfolding pad
pad_inj zero a b ha hb e = omega arith
pad_inj (suc k) a b ha hb e =
    let (hi, lo) = append_inj e (omega (arith, count-pad k (a / 10), count-pad k (b / 10))) in
    let top : a / 10 ≡ b / 10 = pad_inj k (a / 10) (b / 10) (bound a ha) (bound b hb) hi in
    let low : a % 10 ≡ b % 10 = digit_inj (a % 10) (b % 10) (omega arith) (omega arith) lo in
    omega arith
  where
    bound : (n : ℕ) → n < 10 ^ suc k → n / 10 < 10 ^ k
    bound n h = omega (arith, pow-suc 10 k)
