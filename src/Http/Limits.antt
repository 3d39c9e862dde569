-- ===== src/Http/Limits.antt =====
-- The bounds of a page.
use substrata_backend.Prelude.{
  ℕ, zero, suc, ◌≤◌, String, Option, none, some, List, [], ◌∷◌, length, arith,
}
use substrata_backend.Store.{newest, take, last_first}
use substrata_backend.Http.{clamp_limit, clamped, parse_int}

clamped-bounds :
    (n : Option ℕ) (fallback limit : ℕ)
    → 1 ≤ fallback
    → fallback ≤ limit
    → (1 ≤ clamped n fallback limit) × (clamped n fallback limit ≤ limit)
clamped-bounds none fallback limit lo hi = (lo, hi)
clamped-bounds (some n) fallback limit lo hi = ground arith

-- Whatever text a client asks a limit with, the limit taken is between one and the largest limit, if
-- the default is.
pub clamp_limit-bounds :
    (s : Option String) (fallback limit : ℕ)
    → 1 ≤ fallback
    → fallback ≤ limit
    → (1 ≤ clamp_limit s fallback limit) × (clamp_limit s fallback limit ≤ limit)
unfolding clamp_limit
clamp_limit-bounds none fallback limit lo hi = (lo, hi)
clamp_limit-bounds (some s) fallback limit lo hi = clamped-bounds (parse_int s) fallback limit lo hi

take-length : {A : Type 0} (n : ℕ) (rs : List A) → length (take n rs) ≤ n
take-length zero rs = omega arith
take-length (suc n) [] = omega arith
take-length (suc n) (r ∷ rs) = omega (arith, take-length n rs)

pub newest-length : {A : Type 0} (n : ℕ) (rs : List A) → length (newest n rs) ≤ n
newest-length n rs = take-length n (last_first rs)
