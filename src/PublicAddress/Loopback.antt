-- ===== src/PublicAddress/Loopback.antt =====
-- A loopback address is never a public one (src/server/public-address.ts).
use hack_the_north.Common.{
  ℕ, ◌≡◌, refl, true, false, arith, Text, codes, ◌==◌, Bool-cases, inl, inr,
}
use hack_the_north.PublicAddress.{
  in_range, ipv4_value, ipv6_value, is_public_v4, is_public_v6, public_address, loopback_address,
}

loopback_v4 :
    (value : ℕ)
    → in_range value (ipv4_value (codes "127.0.0.0")) 8 32 ≡ true
    → is_public_v4 value ≡ false
unfolding is_public_v4
loopback_v4 value h = ground arith

one_is_private : is_public_v6 1 ≡ false
unfolding is_public_v6 in_range ipv6_value
one_is_private = refl

-- Whatever `isIP` answers, an address that counts as loopback does not count as public.
pub loopback_private :
    (is_ip : Text → ℕ) (t : Text) → loopback_address is_ip t ≡ true → public_address is_ip t ≡ false
unfolding loopback_address public_address
loopback_private is_ip t h = elim (Bool-cases (is_ip t == 4)) [
  | inl four ↦ ground (arith, loopback_v4 (ipv4_value t))
  | inr other ↦ let one : ipv6_value t ≡ 1 = ground arith in ground (arith, one, one_is_private)
]
