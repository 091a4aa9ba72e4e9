-- ===== src/Base64/Tables.antt =====
-- The two tables of base64.c against each other, checked value by value.
use device_service_zigbee.Prelude.{
  ℕ, zero, suc, ◌<◌, ◌≡◌, refl, Bool, true, ◌&&◌, arith, get_or, ◌==◌, ==_iff,
}
use device_service_zigbee.Base64.{invalid, dec, enc_at}

module _ (p : ℕ → Bool) where
  all_below : ℕ → Bool
  all_below zero = true
  all_below (suc n) = p n && all_below n

  all_below-lt : (n x : ℕ) → all_below n ≡ true → x < n → p x ≡ true
  unfolding all_below
  all_below-lt zero x h lt = absurd (omega arith)
  all_below-lt (suc n) x h lt = ground (arith, all_below-lt n x)

inverse_table : all_below (λ n. get_or dec (enc_at n) invalid == n) 64 ≡ true
unfolding all_below dec enc_at get_or
inverse_table = refl

-- The decoder's table takes the character of a symbol back to the symbol.
pub dec-enc_at : (n : ℕ) → n < 64 → get_or dec (enc_at n) invalid ≡ n
dec-enc_at n h = (==_iff _ n).0 (all_below-lt _ 64 n inverse_table h)
