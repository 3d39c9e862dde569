-- ===== src/Routes/Wallets/Proved.antt =====
-- A wallet whose owner has proved to hold its key: src/routes/wallets.ts.
use substrata_backend.Prelude.{
  suc, ◌≡◌, refl, ap, ◌∙◌, inl, inr, String, true, false, not, some, List, [], ◌∷◌, ◌++◌,
  Bool-cases, if◌then◌else◌,
}
use substrata_backend.Prelude.Text.{eq_refl}
use substrata_backend.Store.{
  Wallet, Subscription, find_row, any_row, update_rows, updated?, find_row-update_rows,
  find_row-append, find_row-none_of_any, find_row_of_any_row, find_row_holds,
}
use substrata_backend.World.{World, Env, ok, not_found}
use substrata_backend.Action.{atoms, find_or_throw}
use substrata_backend.Steps.{bind-ok, if-false, find_or_throw-some}
use substrata_backend.Http.{answered}
use substrata_backend.Routes.Wallets.{
  VerifyBody, has_address, verified_wallet, mark_verified, verify_signed_message, read_wallet,
  verify_with, is_verify_body, verify_wallet, with_subscriptions, get_wallet,
}

module _ (env : Env) (address : String) (w : World) where
  -- The row is there, and verified.
  abbrev Marked : World → Wallet → Type 0
  Marked w' r =
      (mark_verified env address w ≡ (ok tt, w'))
      × (find_row (has_address address) w'.wallets ≡ some r)
      × (r.is_verified ≡ true)

  there-Marked :
      any_row (has_address address) w.wallets ≡ true → (w' : World) × (r : Wallet) × Marked w' r
  unfolding mark_verified
  there-Marked there =
      let (r, found) = find_row_of_any_row (has_address address) w.wallets there in
      let own : has_address address r ≡ true =
        find_row_holds (has_address address) w.wallets r found in
      (
        record w { wallets = update_rows (has_address address) (verified_wallet env) w.wallets },
        verified_wallet env r,
        (
          rw there refl,
          find_row-update_rows (has_address address) (has_address address) (verified_wallet env)
                w.wallets (λ r. refl)
              ∙ ap (updated? (has_address address) (verified_wallet env)) found
              ∙ ap (λ b. some (if b then verified_wallet env r else r)) own,
          refl,
        ),
      )

  abbrev new_wallet : Wallet
  new_wallet = record { id = env.cuid w.serial; address = address; is_verified = true }

  new-Marked :
      any_row (has_address address) w.wallets ≡ false → (w' : World) × (r : Wallet) × Marked w' r
  unfolding mark_verified
  new-Marked missing = (
    record w { serial = suc w.serial; wallets = w.wallets ++ new_wallet ∷ [] },
    new_wallet,
    (
      rw missing refl,
      find_row-append (has_address address) w.wallets new_wallet
          (find_row-none_of_any (has_address address) w.wallets missing) (eq_refl address),
      refl,
    ),
  )

  marked : (w' : World) × (r : Wallet) × Marked w' r
  marked = elim (Bool-cases (any_row (has_address address) w.wallets)) [
    | inl there ↦ there-Marked there
    | inr missing ↦ new-Marked missing
  ]

-- A valid body with a valid signature is answered with the wallet's id, whether the wallet was
-- known or not, and a request for the address then gets that wallet, verified.
pub verify_wallet-get :
    (env : Env) (body : VerifyBody) (w : World)
    → is_verify_body env body ≡ true
    → verify_signed_message env body.address body.message body.signature ≡ true
    → (r : Wallet) × (w' : World) × (subs : List Subscription) × (verify_wallet env body w
        ≡ (ok (answered 200 (record { wallet_id = r.id })), w'))
      × (get_wallet body.address w' ≡ (ok (answered 200 (r, subs)), w'))
      × (r.is_verified ≡ true)
unfolding verify_wallet verify_with read_wallet get_wallet atoms
verify_wallet-get env body w valid signed =
    let (w', r, (done, found, verified)) = marked env body.address w in
    (
      r,
      w',
      _,
      if-false (not (is_verify_body env body)) _ _ w (ap not valid)
          ∙ if-false (not (verify_signed_message env body.address body.message body.signature)) _ _
              w (ap not signed)
          ∙ bind-ok (mark_verified env body.address) _ done
          ∙ bind-ok (find_or_throw (λ w. find_row (has_address body.address) w.wallets) not_found) _
              (find_or_throw-some (λ w. find_row (has_address body.address) w.wallets) not_found w'
                found),
      ap (λ o. (ok (with_subscriptions w' o), w')) found,
      verified,
    )
