-- ===== src/Auth/Tokens/Padding.antt =====
-- The padding of `b64urlDecode` (middleware/gateway.go).
use core_wallet.Prelude.{ℕ, zero, suc, ◌+◌, ◌%◌, ◌<◌, ◌≡◌, refl, String, len, arith}
use package.text.Mathlib.TextPositions.{len-append}
use core_wallet.Auth.Tokens.{pad, padded}

pad-len : (r : ℕ) → r < 4 → (r + len (pad r)) % 4 ≡ 0
unfolding pad
pad-len zero h = refl
pad-len (suc zero) h = refl
pad-len (suc (suc zero)) h = refl
pad-len (suc (suc (suc zero))) h = refl
pad-len (suc (suc (suc (suc r)))) h = absurd (omega arith)

-- The text that is decoded has a length that is a multiple of four, whatever padding came with it.
padded-len : (s : String) → len (padded s) % 4 ≡ 0
unfolding padded
padded-len s =
    rw (len-append s (pad (len s % 4))) (omega (arith, pad-len (len s % 4) (omega arith)))
