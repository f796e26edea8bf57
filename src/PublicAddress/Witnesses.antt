-- ===== src/PublicAddress/Witnesses.antt =====
-- The loopback address in its two forms.
use hack_the_north.Common.{ℕ, ◌≡◌, ◌<◌, ◌≤◌, ◌⊎◌, refl, true, false, Text, codes, if◌then◌else◌}
use hack_the_north.PublicAddress.{
  is_public_v4, contains, public_address, loopback_address, in_range, ipv4_value, split,
  bytes_value, decimal,
}
use hack_the_north.PublicAddress.Ranges.{public_v4_outside}
use hack_the_north.PublicAddress.Loopback.{loopback_private}

abbrev family : Text → ℕ
family t = if contains b':' t then 6 else 4

is_loopback : loopback_address family (codes "127.0.0.9") ≡ true
unfolding loopback_address in_range ipv4_value split bytes_value decimal
is_loopback = refl

loopback_private_example : public_address family (codes "127.0.0.9") ≡ false
loopback_private_example = loopback_private family (codes "127.0.0.9") is_loopback

public_dns : is_public_v4 134744072 ≡ true
unfolding is_public_v4 in_range ipv4_value split bytes_value decimal
public_dns = refl

public_v4_outside_example :
    ((134744072 < 167772160) ⊎ (184549376 ≤ 134744072))
    × ((134744072 < 2851995648) ⊎ (2852061184 ≤ 134744072))
    × ((134744072 < 2886729728) ⊎ (2887778304 ≤ 134744072))
    × ((134744072 < 3232235520) ⊎ (3232301056 ≤ 134744072))
public_v4_outside_example = public_v4_outside 134744072 public_dns
