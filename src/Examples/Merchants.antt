-- ===== src/Examples/Merchants.antt =====
-- The revenue of a merchant at the concrete deployment.
use substrata_backend.Prelude.{◌≡◌, some, String, List, [], ◌∷◌}
use Prim.Native.String.{◌++◌}
use substrata_backend.Prelude.Text.{pad}
use substrata_backend.Dates
use substrata_backend.Dates.Iso
use substrata_backend.Store.{Payment, find_row}
use substrata_backend.World.{World, ok}
use substrata_backend.Webhooks.{slice_to}
use substrata_backend.Routes.Merchants.{
  Arithmetic, Bucket, is_on, sum_onto, day_of, merchant_revenue,
}
use substrata_backend.Routes.Merchants.Revenue.{OneEach, merchant_revenue-days}
use substrata_backend.Examples.{subscribed, start, done, gold}

-- Amounts as texts one after the other.
abbrev joined : Arithmetic String
joined = record { nought = ""; add = λ a b. a ++ b; parse_float = λ a. a ++ ";"; to_fixed = λ a. a }

abbrev earning : World
earning = record (start subscribed (done ∷ record done { id = "other"; amount = "5" } ∷ [])) {
  plans = record gold { merchant_address = some "GM" } ∷ [];
}

-- Unfolding `earnings_of` computes the sums of the revenue.
unfoldable earnings_of : String → List Payment → String
unfolding sum_onto day_of slice_to Iso.to_iso_string Iso.iso_fields Iso.iso_year Iso.iso_time pad
    Dates.civil Dates.split_year Dates.split_month Dates.make_day Dates.days_before_year
    Dates.days_before_month
earnings_of start_sum ps = sum_onto joined start_sum ps

merchant_revenue-days_example :
    (bs : List (Bucket String)) × (merchant_revenue joined "GM" earning ≡ (ok bs, earning))
    × OneEach bs
    × (find_row (is_on "2024-02-15") bs ≡ some (record { date = "2024-02-15"; amount = "10;5;" }))
unfolding earnings_of
merchant_revenue-days_example = merchant_revenue-days joined "GM" earning "2024-02-15"
