-- ===== src/Http.antt =====
-- Answers of the HTTP handlers, and src/lib/pagination.ts.
pub mod Limits
use Prim.Native.Char.{Char, code}
use Prim.Native.Nat.{min}
use substrata_backend.Prelude.{
  ℕ, ◌+◌, ◌-◌, ◌*◌, ◌^◌, String, Bool, true, false, ◌&&◌, ◌||◌, Option, none, some, leb, ◌==◌,
  if◌then◌else◌,
}
use substrata_backend.Normalize.{trim_start}

-- A status with a body, or an error status with its message. A failed `safeParse` is 400.
pub data Reply (A : Type 0) : Type 0 where
  answered : ℕ → A → Reply A
  refused : ℕ → String → Reply A

abbrev pub invalid_body : {A : Type 0} → Reply A
invalid_body = refused 400 "validation failed"

-- `cond ? ... : 404`, of a row that may be missing.
abbrev pub or_missing : {A : Type 0} → String → Option A → Reply A
or_missing message none = refused 404 message
or_missing message (some a) = answered 200 a

unfoldable pub is_digit : Char → Bool
is_digit c = leb 48 (code c) && leb (code c) 57

-- The value of the digits that a text starts with, after those that make `n`.
unfoldable pub digits_from : ℕ → String → ℕ
digits_from n String.[] = n
digits_from n (String.◌∷◌ c s) =
    let rest = digits_from (n * 10 + (code c - 48)) s in if is_digit c then rest else n

abbrev pub unsigned : String → Option ℕ
unsigned String.[] = none
unsigned (String.◌∷◌ c s) = if is_digit c then some (digits_from 0 (String.◌∷◌ c s)) else none

-- `-n`, of which only that it is not positive is asked.
abbrev pub negated : Option ℕ → Option ℕ
negated none = none
negated (some n) = some 0

abbrev pub signed : String → Option ℕ
signed String.[] = none
signed (String.◌∷◌ c s) =
    if code c == 45
    then negated (unsigned s)
    else if code c == 43
    then unsigned s
    else unsigned (String.◌∷◌ c s)

-- `parseInt(s, 10)`, with 0 for every negative number and `none` for NaN.
unfoldable pub parse_int : String → Option ℕ
parse_int s = signed (trim_start s)

-- A number of this size or more is read as Infinity.
abbrev pub infinite : ℕ
infinite = 2 ^ 1024 - 2 ^ 970

abbrev pub clamped : Option ℕ → ℕ → ℕ → ℕ
clamped none fallback limit = fallback
clamped (some n) fallback limit = if leb infinite n || n == 0 then fallback else min n limit

-- `clampLimit` of a query parameter, which is a text or missing.
unfoldable pub clamp_limit : Option String → ℕ → ℕ → ℕ
clamp_limit none fallback limit = fallback
clamp_limit (some s) fallback limit = clamped (parse_int s) fallback limit

-- A query parameter that is missing or empty is no filter.
abbrev pub given : Option String → Option String
given none = none
given (some String.[]) = none
given (some (String.◌∷◌ c s)) = some (String.◌∷◌ c s)
