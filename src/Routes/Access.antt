-- ===== src/Routes/Access.antt =====
-- What the middleware of src/middleware/auth.ts lets through.
use substrata_backend.Prelude.{
  ℕ, ◌≤◌, ◌≡◌, refl, ap, ◌∙◌, inl, inr, String, true, arith, not, ◌||◌, none, Bool-cases,
  if◌then◌else◌,
}
use substrata_backend.World.{World, Env, ok}
use substrata_backend.Action.{Action, pure, atoms, ◌>>=◌}
use substrata_backend.Steps.{bind-ok, if-true, if-false}
use substrata_backend.Http.{Reply, refused}
use substrata_backend.Routes.Wallets.{
  AuthHeaders, Header, missing, single, several, denied, granted, is_absent, is_production,
  verify_signed_message, check_signature, check_texts, require_wallet_auth,
}
use substrata_backend.Routes.Indexer.{
  IngestBody, behind, ingest_body, ingest_route, poll_body, poll_route,
}

-- The headers are three texts, and the key of the first signed the second with the third.
abbrev pub IsSigned : Env → AuthHeaders → Type 0
IsSigned env h =
    (a m s : String) × (h.address ≡ single a)
    × (h.message ≡ single m)
    × (h.signature ≡ single s)
    × (verify_signed_message env a m s ≡ true)

-- The middleware has answered itself, and changed nothing.
abbrev pub Denied : Env → AuthHeaders → World → Type 0
Denied env h w =
    (status : ℕ) × (message : String) × (400 ≤ status)
    × (require_wallet_auth env h w ≡ (ok (denied status message), w))

module _ (env : Env) (w : World) where
  check_denied :
      (h : AuthHeaders)
      → ¬ IsSigned env h
      → (status : ℕ) × (message : String) × (400 ≤ status)
        × (check_texts env h.address h.message h.signature w ≡ (ok (denied status message), w))
  unfolding check_signature atoms
  check_denied h unsigned = go h.address h.message h.signature refl refl refl
    where
      go :
          (a m s : Header)
          → h.address ≡ a
          → h.message ≡ m
          → h.signature ≡ s
          → (status : ℕ) × (message : String) × (400 ≤ status)
            × (check_texts env a m s w ≡ (ok (denied status message), w))
      go (single a) (single m) (single s) ea em es =
          elim (Bool-cases (verify_signed_message env a m s)) [
            | inl valid ↦ elim (unsigned (a, m, s, ea, em, es, valid)) [ ]
            | inr invalid ↦ (
              401,
              "Invalid wallet signature",
              omega arith,
              if-true (not (verify_signed_message env a m s)) _ _ w (ap not invalid),
            )
          ]
      go missing m s ea em es = (400, "Invalid auth headers", omega arith, refl)
      go (several ss) m s ea em es = (400, "Invalid auth headers", omega arith, refl)
      go (single a) missing s ea em es = (400, "Invalid auth headers", omega arith, refl)
      go (single a) (several ss) s ea em es = (400, "Invalid auth headers", omega arith, refl)
      go (single a) (single m) missing ea em es = (400, "Invalid auth headers", omega arith, refl)
      go (single a) (single m) (several ss) ea em es =
          (400, "Invalid auth headers", omega arith, refl)

  require_wallet_auth-Denied :
      (h : AuthHeaders) → is_production env ≡ true → ¬ IsSigned env h → Denied env h w
  unfolding require_wallet_auth pure
  require_wallet_auth-Denied h production unsigned =
      elim (Bool-cases (is_absent h.address || (is_absent h.message || is_absent h.signature))) [
        | inl absent ↦ (
          401,
          "Wallet auth headers required",
          omega arith,
          if-true (is_absent h.address || (is_absent h.message || is_absent h.signature)) _ _ w
                absent
              ∙ ap
                  (λ b.
                    (ok (if b then denied 401 "Wallet auth headers required" else granted none), w))
                  production,
        )
        | inr there ↦
            let (status, message, bad, e) = check_denied h unsigned in
            (
              status,
              message,
              bad,
              if-false (is_absent h.address || (is_absent h.message || is_absent h.signature)) _ _ w
                    there
                  ∙ e,
            )
      ]

  behind-Denied :
      {A : Type 0} (handler : Action (Reply A)) (h : AuthHeaders)
      → Denied env h w
      → (status : ℕ) × (message : String) × (400 ≤ status)
        × ((require_wallet_auth env h >>= behind env handler) w ≡ (ok (refused status message), w))
  unfolding pure
  behind-Denied handler h (status, message, bad, e) =
      (status, message, bad, bind-ok (require_wallet_auth env h) (behind env handler) e)

  -- In production, a request to the indexer's two writing routes whose headers are not three texts
  -- with a valid signature is answered with a status of 400 or more and changes nothing.
  pub indexer_routes-Denied :
      (h : AuthHeaders) (body : IngestBody) (start_ledger : _)
      → is_production env ≡ true
      → ¬ IsSigned env h
      → ((status : ℕ) × (message : String) × (400 ≤ status)
          × (ingest_route env h body w ≡ (ok (refused status message), w)))
        × ((status : ℕ) × (message : String) × (400 ≤ status)
            × (poll_route env h start_ledger w ≡ (ok (refused status message), w)))
  unfolding ingest_route poll_route
  indexer_routes-Denied h body start_ledger production unsigned =
      let no = require_wallet_auth-Denied h production unsigned in
      (behind-Denied (ingest_body env body) h no, behind-Denied (poll_body env start_ledger) h no)
