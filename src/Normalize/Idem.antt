-- ===== src/Normalize/Idem.antt =====
-- The stored form of a hash is its own stored form.
use Prim.Native.Char.{Char, code}
use Prim.Native.String.{char_at}
use substrata_backend.Prelude.{
  ℕ, ◌-◌, ◌<◌, ◌≡◌, refl, ap, ◌∙◌, sym, String, true, false, arith, Bool-cases, inl, inr,
}
use substrata_backend.Prelude.Text.{Upto, upto-at}
use substrata_backend.Normalize.{
  alphabet, is_space, is_upper, to_lower, lower_case, is_empty, trim_start, trim_end,
  normalize_tx_hash,
}

-- No letter of the alphabet is a space or in upper case.
abbrev IsPlain : ℕ → Type 0
IsPlain i =
    (is_upper (code (char_at alphabet i)) ≡ false) × (is_space (code (char_at alphabet i)) ≡ false)

alphabet-IsPlain : Upto IsPlain 26
unfolding is_upper is_space
alphabet-IsPlain = (
  (refl, refl),
  (
    (refl, refl),
    (
      (refl, refl),
      (
        (refl, refl),
        (
          (refl, refl),
          (
            (refl, refl),
            (
              (refl, refl),
              (
                (refl, refl),
                (
                  (refl, refl),
                  (
                    (refl, refl),
                    (
                      (refl, refl),
                      (
                        (refl, refl),
                        (
                          (refl, refl),
                          (
                            (refl, refl),
                            (
                              (refl, refl),
                              (
                                (refl, refl),
                                (
                                  (refl, refl),
                                  (
                                    (refl, refl),
                                    (
                                      (refl, refl),
                                      (
                                        (refl, refl),
                                        (
                                          (refl, refl),
                                          (
                                            (refl, refl),
                                            (
                                              (refl, refl),
                                              ((refl, refl), ((refl, refl), ((refl, refl), tt))),
                                            ),
                                          ),
                                        ),
                                      ),
                                    ),
                                  ),
                                ),
                              ),
                            ),
                          ),
                        ),
                      ),
                    ),
                  ),
                ),
              ),
            ),
          ),
        ),
      ),
    ),
  ),
)

to_lower_plain :
    (c : Char)
    → is_upper (code c) ≡ true
    → (is_upper (code (to_lower c)) ≡ false) × (is_space (code (to_lower c)) ≡ false)
unfolding to_lower
to_lower_plain c up = rw up (upto-at IsPlain 26 (code c - 65) alphabet-IsPlain (in_range up))
  where
    in_range : is_upper (code c) ≡ true → code c - 65 < 26
    in_range h = unfold is_upper in ground arith

upper-no_space : (n : ℕ) → is_upper n ≡ true → is_space n ≡ false
unfolding is_upper is_space
upper-no_space n h = ground arith

to_lower_other : (c : Char) → is_upper (code c) ≡ false → to_lower c ≡ c
unfolding to_lower
to_lower_other c h = rw h refl

to_lower_idem : (c : Char) → to_lower (to_lower c) ≡ to_lower c
to_lower_idem c = elim (Bool-cases (is_upper (code c))) [
  | inl up ↦ to_lower_other (to_lower c) (to_lower_plain c up).0
  | inr low ↦ ap to_lower (to_lower_other c low)
]

is_space-to_lower : (c : Char) → is_space (code (to_lower c)) ≡ is_space (code c)
is_space-to_lower c = elim (Bool-cases (is_upper (code c))) [
  | inl up ↦ (to_lower_plain c up).1 ∙ sym (upper-no_space (code c) up)
  | inr low ↦ ap (λ d. is_space (code d)) (to_lower_other c low)
]

lower_case_idem : (s : String) → lower_case (lower_case s) ≡ lower_case s
unfolding lower_case
lower_case_idem String.[] = refl
lower_case_idem (String.◌∷◌ c s) = cc (to_lower_idem c, lower_case_idem s)

trim_start-lower_case : (s : String) → trim_start (lower_case s) ≡ lower_case (trim_start s)
unfolding lower_case trim_start
trim_start-lower_case String.[] = refl
trim_start-lower_case (String.◌∷◌ c s) =
    ground (arith, is_space-to_lower c, trim_start-lower_case s)

is_empty-lower_case : (s : String) → is_empty (lower_case s) ≡ is_empty s
unfolding lower_case
is_empty-lower_case String.[] = refl
is_empty-lower_case (String.◌∷◌ c s) = refl

trim_end-lower_case : (s : String) → trim_end (lower_case s) ≡ lower_case (trim_end s)
unfolding lower_case trim_end
trim_end-lower_case String.[] = refl
trim_end-lower_case (String.◌∷◌ c s) =
    ground (arith, is_space-to_lower c, trim_end-lower_case s, is_empty-lower_case (trim_end s))

trim_end_idem : (s : String) → trim_end (trim_end s) ≡ trim_end s
unfolding trim_end
trim_end_idem String.[] = refl
trim_end_idem (String.◌∷◌ c s) = ground (arith, trim_end_idem s)

trim_start_idem : (s : String) → trim_start (trim_start s) ≡ trim_start s
unfolding trim_start
trim_start_idem String.[] = refl
trim_start_idem (String.◌∷◌ c s) = ground (arith, trim_start_idem s)

nil_of_is_empty : (s : String) → is_empty s ≡ true → s ≡ ""
nil_of_is_empty String.[] h = refl
nil_of_is_empty (String.◌∷◌ c s) h = cc

trim_start-trim_end : (s : String) → trim_start (trim_end s) ≡ trim_end (trim_start s)
unfolding trim_start trim_end
trim_start-trim_end String.[] = refl
trim_start-trim_end (String.◌∷◌ c s) = ground (
  arith,
  trim_start-trim_end s,
  nil_of_is_empty (trim_end s),
  λ (h : trim_end s ≡ ""). ap trim_start h,
)

-- Storing a stored hash leaves it as it is, so that a hash is found again under its stored form.
pub normalize_tx_hash_idem :
    (hash : String) → normalize_tx_hash (normalize_tx_hash hash) ≡ normalize_tx_hash hash
unfolding normalize_tx_hash
normalize_tx_hash_idem hash =
    let s = trim_start hash in
    ap (λ t. lower_case (trim_end t)) (trim_start-lower_case (trim_end s))
    ∙ ap lower_case (trim_end-lower_case (trim_start (trim_end s)))
    ∙ lower_case_idem (trim_end (trim_start (trim_end s)))
    ∙ ap (λ t. lower_case (trim_end t)) (trim_start-trim_end s)
    ∙ ap lower_case (trim_end_idem (trim_start s))
    ∙ ap (λ t. lower_case (trim_end t)) (trim_start_idem hash)
