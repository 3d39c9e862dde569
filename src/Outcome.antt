-- ===== src/Outcome.antt =====
-- src/lib/billing-outcome.ts: the result of `execute_billing` as Paid, Failed or neither.
use substrata_backend.Prelude.{String, Bool, false, ◌||◌, Option, none, some, if◌then◌else◌}
use substrata_backend.Prelude.Text.{str_eq}
use substrata_backend.World.{Native, Fields, text, object, end, field}

pub data BillingOutcome : Type 0 where
  paid failed : BillingOutcome

-- `o.name`, which is undefined where the object has no such property.
unfoldable pub property : String → Fields → Native
property name end = Native.undefined
property name (field key value rest) = if str_eq key name then value else property name rest

-- `name in o`
unfoldable pub has_property : String → Fields → Bool
has_property name end = false
has_property name (field key value rest) = str_eq key name || has_property name rest

-- `a ?? b`
abbrev pub coalesce : Native → Native → Native
coalesce Native.null b = b
coalesce Native.undefined b = b
coalesce a b = a

abbrev pub outcome_name : String → Option BillingOutcome
outcome_name s =
    if str_eq s "Paid" then some paid else if str_eq s "Failed" then some failed else none

abbrev pub outcome_text : Native → Option BillingOutcome
outcome_text (text s) = outcome_name s
outcome_text _ = none

-- The tests `"Paid" in result` and `"Failed" in result`.
abbrev pub outcome_key : Fields → Option BillingOutcome
outcome_key fs =
    if has_property "Paid" fs
    then some paid
    else if has_property "Failed" fs
    then some failed
    else none

abbrev pub or_else : Option BillingOutcome → Option BillingOutcome → Option BillingOutcome
or_else (some o) other = some o
or_else none other = other

-- An array is an object too, but it has none of the properties that are asked for.
unfoldable pub parse_billing_outcome : Native → Option BillingOutcome
parse_billing_outcome (text s) = outcome_name s
parse_billing_outcome (object fs) =
    or_else (outcome_text (coalesce (property "tag" fs) (property "_tag" fs))) (outcome_key fs)
parse_billing_outcome _ = none
