-- ===== src/Stripe.antt =====
-- src/lib/webhook-payload.ts: the names and the shape that a Stripe integration expects of an event.
-- `toLowerCase` is that of ASCII texts.
use Prim.Native.Char.{code}
use Prim.Native.String.{char_at, ◌++◌}
use substrata_backend.Prelude.{
  ℕ, ◌/◌, ◌≡◌, refl, ap, ◌∙◌, sym, String, Bool, false, Option, none, some, List, [], ◌∷◌, ◌==◌,
  if◌then◌else◌,
}
use substrata_backend.Prelude.Text.{str_eq}
use substrata_backend.Store.{
  Payload, WebhookEventType, payment_success, payment_failed, subscription_created,
  subscription_updated, subscription_cancelled, any_row,
}
use substrata_backend.Normalize.{lower_case}

-- The text of a `WebhookEventType`.
unfoldable pub event_name : WebhookEventType → String
event_name payment_success = "PAYMENT_SUCCESS"
event_name payment_failed = "PAYMENT_FAILED"
event_name subscription_created = "SUBSCRIPTION_CREATED"
event_name subscription_updated = "SUBSCRIPTION_UPDATED"
event_name subscription_cancelled = "SUBSCRIPTION_CANCELLED"

-- `MAP`, an object: a text that is not one of its own keys may be a property of every object.
abbrev pub stripe_events : List (String × String)
stripe_events =
    ("PAYMENT_SUCCESS", "invoice.paid")
    ∷ ("PAYMENT_FAILED", "invoice.payment_failed")
    ∷ ("SUBSCRIPTION_CREATED", "customer.subscription.created")
    ∷ ("SUBSCRIPTION_UPDATED", "customer.subscription.updated")
    ∷ ("SUBSCRIPTION_CANCELLED", "customer.subscription.deleted")
    ∷ []

abbrev pub object_properties : List String
object_properties =
    "constructor" ∷ "hasOwnProperty" ∷ "isPrototypeOf" ∷ "propertyIsEnumerable" ∷ "toLocaleString"
    ∷ "toString" ∷ "valueOf" ∷ "__defineGetter__" ∷ "__defineSetter__" ∷ "__lookupGetter__"
    ∷ "__lookupSetter__" ∷ "__proto__" ∷ []

pub data StripeType : Type 0 where
  named : String → StripeType
  -- a value that `MAP` inherits
  inherited : String → StripeType

-- `.replace(/_/g, ".")`
unfoldable pub dotted : String → String
dotted String.[] = ""
dotted (String.◌∷◌ c s) = String.◌∷◌ (if code c == 95 then char_at "." 0 else c) (dotted s)

unfoldable pub own_property : String → List (String × String) → Option String
own_property key [] = none
own_property key ((name, value) ∷ rest) =
    if str_eq name key then some value else own_property key rest

abbrev or_dotted : String → Option String → StripeType
or_dotted internal (some value) = StripeType.named value
or_dotted internal none =
    if any_row (str_eq internal) object_properties
    then StripeType.inherited internal
    else StripeType.named (dotted (lower_case internal))

unfoldable pub to_stripe_like_type : String → StripeType
to_stripe_like_type internal = or_dotted internal (own_property internal stripe_events)

pub record StripePayload : Type 0 where
  pub id : String
  pub object : String
  pub type : StripeType
  pub created : ℕ
  pub content : Payload
  pub livemode : Bool

unfoldable pub build_stripe_like_payload : String → String → ℕ → Payload → StripePayload
build_stripe_like_payload type id created_at content = record {
  id = "evt_" ++ id;
  object = "event";
  type = to_stripe_like_type type;
  created = created_at / 1000;
  content = content;
  livemode = false;
}

-- The event that a Stripe name stands for.
event_of : StripeType → Option WebhookEventType
event_of (StripeType.inherited key) = none
event_of (StripeType.named name) =
    if str_eq name "invoice.paid"
    then some payment_success
    else if str_eq name "invoice.payment_failed"
    then some payment_failed
    else if str_eq name "customer.subscription.created"
    then some subscription_created
    else if str_eq name "customer.subscription.updated"
    then some subscription_updated
    else if str_eq name "customer.subscription.deleted"
    then some subscription_cancelled
    else none

event_of-stripe_type :
    (type : WebhookEventType) → event_of (to_stripe_like_type (event_name type)) ≡ some type
unfolding event_of to_stripe_like_type own_property event_name
event_of-stripe_type payment_success = refl
event_of-stripe_type payment_failed = refl
event_of-stripe_type subscription_created = refl
event_of-stripe_type subscription_updated = refl
event_of-stripe_type subscription_cancelled = refl

-- The payloads of two of the program's events have one type only if the events have.
pub build_stripe_like_payload-type_inj :
    (a b : WebhookEventType) (id other : String) (t u : ℕ) (v w : Payload)
    → (build_stripe_like_payload (event_name a) id t v).type
      ≡ (build_stripe_like_payload (event_name b) other u w).type
    → a ≡ b
unfolding build_stripe_like_payload
build_stripe_like_payload-type_inj a b id other t u v w e =
    let same = sym (event_of-stripe_type a) ∙ ap event_of e ∙ event_of-stripe_type b in
    let own : a ≡ b = cc in own
