-- ===== src/PublicAddress/Ranges.antt =====
-- The private ranges that `publicAddress` of src/server/public-address.ts keeps out, as numbers.
use hack_the_north.Common.{ℕ, ◌≡◌, ◌≤◌, ◌<◌, ◌⊎◌, true, false, arith, codes}
use hack_the_north.PublicAddress.{in_range, ipv4_value, is_public_v4, split, bytes_value, decimal}

-- Each range by its first number and the first number after it.
outside_ten :
    (v : ℕ)
    → in_range v (ipv4_value (codes "10.0.0.0")) 8 32 ≡ false
    → (v < 167772160) ⊎ (184549376 ≤ v)
unfolding in_range ipv4_value split bytes_value decimal
outside_ten v h = ground arith

outside_link_local :
    (v : ℕ)
    → in_range v (ipv4_value (codes "169.254.0.0")) 16 32 ≡ false
    → (v < 2851995648) ⊎ (2852061184 ≤ v)
unfolding in_range ipv4_value split bytes_value decimal
outside_link_local v h = ground arith

outside_172 :
    (v : ℕ)
    → in_range v (ipv4_value (codes "172.16.0.0")) 12 32 ≡ false
    → (v < 2886729728) ⊎ (2887778304 ≤ v)
unfolding in_range ipv4_value split bytes_value decimal
outside_172 v h = ground arith

outside_192 :
    (v : ℕ)
    → in_range v (ipv4_value (codes "192.168.0.0")) 16 32 ≡ false
    → (v < 3232235520) ⊎ (3232301056 ≤ v)
unfolding in_range ipv4_value split bytes_value decimal
outside_192 v h = ground arith

-- A number that counts as a public IPv4 address is in none of the private networks 10.0.0.0/8,
-- 169.254.0.0/16, 172.16.0.0/12 and 192.168.0.0/16.
pub public_v4_outside :
    (v : ℕ)
    → is_public_v4 v ≡ true
    → ((v < 167772160) ⊎ (184549376 ≤ v))
      × ((v < 2851995648) ⊎ (2852061184 ≤ v))
      × ((v < 2886729728) ⊎ (2887778304 ≤ v))
      × ((v < 3232235520) ⊎ (3232301056 ≤ v))
unfolding is_public_v4
public_v4_outside v h = (
  outside_ten v (ground arith),
  outside_link_local v (ground arith),
  outside_172 v (ground arith),
  outside_192 v (ground arith),
)
