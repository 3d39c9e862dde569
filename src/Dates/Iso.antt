-- ===== src/Dates/Iso.antt =====
-- `Date.prototype.toISOString`, of which the program makes keys and job ids.
use Prim.Native.String.{count, ◌++◌}
use text.Mathlib.TextLemmas.{append_inj, append_cancel_left, length-append}
use substrata_backend.Prelude.{
  ℕ, ◌+◌, ◌/◌, ◌%◌, ◌^◌, ◌<◌, ◌≡◌, sym, ap, ◌∙◌, String, ltb, if◌then◌else◌, arith,
}
use substrata_backend.Prelude.Text.{pad, pad_inj, count-pad}
use substrata_backend.Dates.{Civil, civil}
use substrata_backend.Dates.Years.{days_in_month_range}
use substrata_backend.Dates.Fields.{IsCivil, civil-IsCivil, make_time, make_time-civil}

-- The time within the day, `HH:mm:ss.sssZ`.
unfoldable pub iso_time : ℕ → String
iso_time ms =
    pad 2 (ms / 3600000)
    ++ (":"
        ++ (pad 2 (ms / 60000 % 60)
            ++ (":" ++ (pad 2 (ms / 1000 % 60) ++ ("." ++ (pad 3 (ms % 1000) ++ "Z"))))))

-- A year past 9999 has a sign and six digits.
unfoldable pub iso_year : ℕ → String
iso_year y = if ltb y 10000 then pad 4 y else "+" ++ pad 6 y

unfoldable pub iso_fields : Civil → String
iso_fields c =
    iso_year c.year
    ++ ("-" ++ (pad 2 (c.month + 1) ++ ("-" ++ (pad 2 c.date ++ ("T" ++ iso_time c.ms)))))

unfoldable pub to_iso_string : ℕ → String
to_iso_string t = iso_fields (civil t)

-- The instants with a year of four digits.
abbrev pub HasShortYear : ℕ → Type 0
HasShortYear t = (civil t).year < 10000

pad_append_inj :
    (k a b : ℕ) (s t : String)
    → a < 10 ^ k
    → b < 10 ^ k
    → pad k a ++ s ≡ pad k b ++ t
    → (a ≡ b) × (s ≡ t)
pad_append_inj k a b s t ha hb e =
    let (front, back) = append_inj e (count-pad k a ∙ sym (count-pad k b)) in
    (pad_inj k a b ha hb front, back)

iso_time_inj : (a b : ℕ) → a < 86400000 → b < 86400000 → iso_time a ≡ iso_time b → a ≡ b
unfolding iso_time
iso_time_inj a b ha hb e =
    let (hours, e₁) = pad_append_inj 2 _ _ _ _ (omega arith) (omega arith) e in
    let (minutes, e₂) =
      pad_append_inj 2 _ _ _ _ (omega arith) (omega arith) (append_cancel_left ":" _ _ e₁) in
    let (seconds, e₃) =
      pad_append_inj 2 _ _ _ _ (omega arith) (omega arith) (append_cancel_left ":" _ _ e₂) in
    let (millis, e₄) =
      pad_append_inj 3 _ _ _ _ (omega arith) (omega arith) (append_cancel_left "." _ _ e₃) in
    omega arith

count-iso_time : (ms : ℕ) → count (iso_time ms) ≡ 13
unfolding iso_time
count-iso_time ms = simp (length-append, count-pad)

iso_year_short : (y : ℕ) → y < 10000 → iso_year y ≡ pad 4 y
unfolding iso_year
iso_year_short y h = ground arith

pub count-to_iso_string : (t : ℕ) → HasShortYear t → count (to_iso_string t) ≡ 24
unfolding to_iso_string iso_fields
count-to_iso_string t h =
    simp (iso_year_short (civil t).year h, length-append, count-pad, count-iso_time)

iso_fields_inj :
    (b c : Civil)
    → IsCivil b
    → IsCivil c
    → b.year < 10000
    → c.year < 10000
    → iso_fields b ≡ iso_fields c
    → b ≡ c
unfolding iso_fields
iso_fields_inj b c vb vc hb hc e =
    let (years, e₁) =
      pad_append_inj 4 _ _ _ _ hb hc
        (rw (iso_year_short b.year hb, iso_year_short c.year hc) at e) in
    let (months, e₂) =
      pad_append_inj 2 _ _ _ _ (omega (arith, vb.month_in)) (omega (arith, vc.month_in))
        (append_cancel_left "-" _ _ e₁) in
    let (dates, e₃) =
      pad_append_inj 2 _ _ _ _ (omega (arith, vb.date_in.1, days_in_month_range b.year b.month))
        (omega (arith, vc.date_in.1, days_in_month_range c.year c.month))
        (append_cancel_left "-" _ _ e₂) in
    let times = iso_time_inj b.ms c.ms vb.ms_in vc.ms_in (append_cancel_left "T" _ _ e₃) in
    ground arith

-- Up to the year 9999 different instants have different texts.
pub to_iso_string_inj :
    (t u : ℕ) → HasShortYear t → HasShortYear u → to_iso_string t ≡ to_iso_string u → t ≡ u
unfolding to_iso_string
to_iso_string_inj t u ht hu e =
    let same : civil t ≡ civil u =
      iso_fields_inj (civil t) (civil u) (civil-IsCivil t) (civil-IsCivil u) ht hu e in
    sym (make_time-civil t) ∙ (ap (λ c. make_time c) same ∙ make_time-civil u)
