-- ===== src/Routes/Plans.antt =====
-- src/routes/plans.ts, and the plans of src/routes/merchants.ts.
pub mod Offered
use Prim.Native.Char.{Char, code}
use Prim.Native.String.{count}
use substrata_backend.Prelude.{
  ℕ, ◌^◌, String, Bool, true, false, not, ◌&&◌, ◌||◌, Option, none, some, List, leb, ltb, ◌==◌,
  if◌then◌else◌,
}
use substrata_backend.Prelude.Text.{str_eq}
use substrata_backend.Dates.{BillingInterval}
use substrata_backend.Store.{Plan, find_row, find_rows, last_first}
use substrata_backend.World.{Env, message, not_found}
use substrata_backend.Action.{Action, pure, throw, gets, find_or_throw, skip, ◌>>=◌, ◌>>◌}
use substrata_backend.Prisma.{has_plan_id, update_plan, insert_plan}
use substrata_backend.Http.{Reply, answered, refused, invalid_body, or_missing, is_digit, given}

-- The body of a request for a new plan. The name, the description, the token's contract and the
-- metadata have no column in the model; the name is tested.
pub record PlanBody : Type 0 where
  pub name : String
  pub amount : String
  pub asset_code : Option String
  pub asset_issuer : Option String
  pub interval : BillingInterval
  pub interval_count : Option ℕ
  pub trial_days : Option ℕ
  pub merchant_address : Option String
  pub contract_plan_id : Option ℕ

-- `a.default(b)`
abbrev pub default_to {ℓ} : {A : Type ℓ} → A → Option A → A
default_to a none = a
default_to a (some b) = b

unfoldable pub all_digits : String → Bool
all_digits String.[] = true
all_digits (String.◌∷◌ c s) = is_digit c && all_digits s

-- One digit at least.
abbrev pub is_number : String → Bool
is_number s = not (count s == 0) && all_digits s

-- `/^\d+(\.\d+)?$/`, after `seen` digits.
unfoldable pub decimal_from : Bool → String → Bool
decimal_from seen String.[] = seen
decimal_from seen (String.◌∷◌ c s) =
    let rest = decimal_from true s in
    if code c == 46 then seen && is_number s else is_digit c && rest

abbrev pub is_decimal : String → Bool
is_decimal s = decimal_from false s

abbrev pub is_address_length : Option String → Bool
is_address_length none = true
is_address_length (some a) = count a == 56

-- `createPlanSchema`; a number of the model is an integer that is not negative.
unfoldable pub is_plan_body : PlanBody → Bool
is_plan_body body =
    not (count body.name == 0)
    && is_decimal body.amount
    && ltb 0 (default_to 1 body.interval_count)
    && is_address_length body.merchant_address

-- A column of type `Int` has 32 bits.
abbrev pub fits : ℕ → Bool
fits n = ltb n (2 ^ 31)

abbrev pub fits_int : Option ℕ → Bool
fits_int none = true
fits_int (some n) = fits n

abbrev pub check_int : Bool → Action (Unit {0})
check_int true = skip
check_int false =
    throw (message "Unable to fit integer value into an INT4 (32-bit signed integer).")

module _ (env : Env) where
  -- The row of a new plan, with the merchant's address of the route.
  abbrev pub new_plan : PlanBody → Option String → String → Plan
  new_plan body merchant id = record {
    id = id;
    amount = body.amount;
    asset_code = default_to "XLM" body.asset_code;
    asset_issuer = body.asset_issuer;
    interval = body.interval;
    interval_count = default_to 1 body.interval_count;
    trial_days = default_to 0 body.trial_days;
    is_active = true;
    merchant_address = merchant;
    contract_plan_id = body.contract_plan_id;
  }

  -- From a body that is valid on.
  unfoldable pub store_plan : PlanBody → Option String → Action (Reply Plan)
  store_plan body merchant = do
    check_int
        (fits_int body.interval_count && fits_int body.trial_days && fits_int body.contract_plan_id)
    serial ← gets (λ w. w.serial)
    plan ← insert_plan (new_plan body merchant (env.cuid serial))
    pure (answered 201 plan)

  unfoldable pub create_plan : PlanBody → Action (Reply Plan)
  create_plan body =
      if not (is_plan_body body) then pure invalid_body else store_plan body body.merchant_address

  -- POST /:address/plans of merchants.ts, whose schema has no address.
  unfoldable pub create_merchant_plan : String → PlanBody → Action (Reply Plan)
  create_merchant_plan address body =
      if not (is_plan_body (record body { merchant_address = none }))
      then pure invalid_body
      else store_plan body (some address)

-- The row that an update returns.
unfoldable pub read_plan : String → Action Plan
read_plan id = find_or_throw (λ w. find_row (has_plan_id id) w.plans) not_found

unfoldable pub sync_contract : String → ℕ → Action (Reply Plan)
sync_contract id contract_plan_id = do
  check_int (fits contract_plan_id)
  update_plan id λ p. record p { contract_plan_id = some contract_plan_id }
  plan ← read_plan id
  pure (answered 200 plan)

unfoldable pub deactivate_plan : String → Action (Reply (Unit {0}))
deactivate_plan id = do update_plan id λ p. record p { is_active = false }; pure (answered 204 tt)

-- `merchant ? { merchantAddress: merchant } : {}`
abbrev pub is_of : Option String → Option String → Bool
is_of none a = true
is_of (some m) none = false
is_of (some m) (some a) = str_eq a m

abbrev pub of_merchant : Option String → Plan → Bool
of_merchant merchant p = is_of merchant p.merchant_address

unfoldable pub list_plans : Option String → Action (List Plan)
list_plans merchant =
    gets (λ w. last_first (find_rows (λ p. p.is_active && of_merchant (given merchant) p) w.plans))

unfoldable pub get_plan : String → Action (Reply Plan)
get_plan id = gets (λ w. or_missing "Plan not found" (find_row (has_plan_id id) w.plans))

unfoldable pub list_merchant_plans : String → Action (List Plan)
list_merchant_plans address =
    gets (λ w. last_first (find_rows (λ p. of_merchant (some address) p && p.is_active) w.plans))
