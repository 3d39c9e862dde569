-- ===== src/Idempotency.antt =====
-- src/lib/idempotency.ts: the key of the payment of a subscription's period.
use Prim.Native.String.{count, ◌++◌}
use text.Mathlib.TextLemmas.{append_inj, append_cancel_left, length-append}
use substrata_backend.Prelude.{ℕ, ◌≡◌, String, ap, arith}
use substrata_backend.Dates.Iso.{
  to_iso_string, HasShortYear, to_iso_string_inj, count-to_iso_string,
}

unfoldable pub billing_idempotency_key : String → ℕ → String
billing_idempotency_key subscription_id period_end =
    subscription_id ++ (":" ++ to_iso_string period_end)

-- Up to the year 9999 the keys of two payments agree only if both are for one subscription and one
-- end of period.
pub billing_idempotency_key_inj :
    (s t : String) (a b : ℕ)
    → HasShortYear a
    → HasShortYear b
    → billing_idempotency_key s a ≡ billing_idempotency_key t b
    → (s ≡ t) × (a ≡ b)
unfolding billing_idempotency_key
billing_idempotency_key_inj s t a b ha hb e =
    let (ids, ends) = append_inj e same_length in
    (ids, to_iso_string_inj a b ha hb (append_cancel_left ":" _ _ ends))
  where
    same_length : count s ≡ count t
    same_length = omega (
      arith,
      ap count e,
      length-append s (":" ++ to_iso_string a),
      length-append t (":" ++ to_iso_string b),
      length-append ":" (to_iso_string a),
      length-append ":" (to_iso_string b),
      count-to_iso_string a ha,
      count-to_iso_string b hb,
    )
