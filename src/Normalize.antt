-- ===== src/Normalize.antt =====
-- src/lib/tx-hash.ts: the stored form of a transaction's hash. `trim` and `toLowerCase` are those of
-- JavaScript on ASCII letters, and a hash is a hexadecimal text.
pub mod Idem
use Prim.Native.Char.{Char, code}
use Prim.Native.String.{char_at}
use substrata_backend.Prelude.{
  ℕ, zero, suc, ◌-◌, ◌<◌, ◌≡◌, refl, ap, ◌∙◌, sym, String, Bool, true, false, ◌&&◌, ◌||◌, leb, ◌==◌,
  arith, if◌then◌else◌, Bool-cases, inl, inr,
}
use substrata_backend.Prelude.Text.{Upto, upto-at}

-- WhiteSpace and LineTerminator of ECMA-262.
unfoldable pub is_space : ℕ → Bool
is_space c =
    (leb 9 c && leb c 13)
    || c == 32
    || c == 160
    || c == 5760
    || (leb 8192 c && leb c 8202)
    || c == 8232
    || c == 8233
    || c == 8239
    || c == 8287
    || c == 12288
    || c == 65279

unfoldable pub is_upper : ℕ → Bool
is_upper c = leb 65 c && leb c 90

abbrev pub alphabet : String
alphabet = "abcdefghijklmnopqrstuvwxyz"

unfoldable pub to_lower : Char → Char
unfolding is_upper
to_lower c = if is_upper (code c) then char_at alphabet (code c - 65) else c

unfoldable pub lower_case : String → String
lower_case String.[] = ""
lower_case (String.◌∷◌ c s) = String.◌∷◌ (to_lower c) (lower_case s)

unfoldable pub trim_start : String → String
trim_start String.[] = ""
trim_start (String.◌∷◌ c s) =
    let rest = trim_start s in if is_space (code c) then rest else String.◌∷◌ c s

abbrev pub is_empty : String → Bool
is_empty String.[] = true
is_empty (String.◌∷◌ c s) = false

unfoldable pub trim_end : String → String
trim_end String.[] = ""
trim_end (String.◌∷◌ c s) =
    let rest = trim_end s in if is_space (code c) && is_empty rest then "" else String.◌∷◌ c rest

unfoldable pub normalize_tx_hash : String → String
normalize_tx_hash hash = lower_case (trim_end (trim_start hash))

normalized_hash : normalize_tx_hash "  AbC9 \n" ≡ "abc9"
unfolding normalize_tx_hash lower_case trim_end trim_start to_lower is_space
normalized_hash = refl
