-- ===== src/PublicAddress.antt =====
-- src/server/public-address.ts: which addresses a browser may be sent to. `isIP` of node:net is the
-- argument `is_ip`; an address is the list of its code units.
pub mod Loopback
pub mod Ranges
mod Witnesses
use hack_the_north.Common.{
  ℕ, zero, suc, ◌+◌, ◌-◌, ◌*◌, ◌/◌, ◌^◌, Bool, true, false, not, ◌&&◌, ◌||◌, Option, none, some,
  List, [], ◌∷◌, ◌++◌, Text, codes, ◌==◌, leb, if◌then◌else◌, any, length,
}

-- `split` at a unit: never the empty list.
unfoldable pub split : ℕ → Text → List Text
split sep [] = [] ∷ []
split sep (c ∷ t) = let rest = split sep t in if c == sep then [] ∷ rest else joined c rest
  where
    joined : ℕ → List Text → List Text
    joined c [] = (c ∷ []) ∷ []
    joined c (s ∷ ss) = (c ∷ s) ∷ ss

unfoldable pub decimal : ℕ → Text → ℕ
decimal n [] = n
decimal n (c ∷ t) = decimal (n * 10 + (c - b'0')) t

hex_digit : ℕ → ℕ
hex_digit c = if leb c b'9' then c - b'0' else if leb c b'F' then c - b'A' + 10 else c - b'a' + 10

unfoldable pub hexadecimal : ℕ → Text → ℕ
unfolding hex_digit
hexadecimal n [] = n
hexadecimal n (c ∷ t) = hexadecimal (n * 16 + hex_digit c) t

-- The bytes of an address are below 256 and its groups below 65536, so the bitwise or is a sum.
unfoldable pub bytes_value : ℕ → List Text → ℕ
unfolding decimal
bytes_value value [] = value
bytes_value value (b ∷ rest) = bytes_value (value * 256 + decimal 0 b) rest

unfoldable pub ipv4_value : Text → ℕ
unfolding split bytes_value
ipv4_value t = bytes_value 0 (split b'.' t)

-- The two parts around the first `::`, if it occurs.
unfoldable pub split_double : Text → Text × Option Text
split_double [] = ([], none)
split_double (c ∷ []) = (c ∷ [], none)
split_double (c ∷ d ∷ t) =
    let rest = split_double (d ∷ t) in
    if c == b':' && d == b':' then ([], some t) else (c ∷ rest.0, rest.1)

abbrev groups_of : Text → List Text
groups_of [] = []
groups_of (c ∷ t) = split b':' (c ∷ t)

zeros : ℕ → List Text
zeros zero = []
zeros (suc n) = codes "0" ∷ zeros n

unfoldable pub groups_value : ℕ → List Text → ℕ
unfolding hexadecimal
groups_value value [] = value
groups_value value (g ∷ rest) = groups_value (value * 65536 + hexadecimal 0 g) rest

-- A valid address with `::` has at most seven groups.
unfoldable pub ipv6_groups : Text → List Text
unfolding split_double split zeros
ipv6_groups t =
    let head = groups_of (split_double t).0 in
    elim (split_double t).1 [
      | none ↦ head
      | some right ↦
          let tail = groups_of right in head ++ (zeros (8 - length head - length tail) ++ tail)
    ]

unfoldable pub ipv6_value : Text → ℕ
unfolding ipv6_groups groups_value
ipv6_value t = groups_value 0 (ipv6_groups t)

unfoldable pub in_range : (value base prefix bits : ℕ) → Bool
in_range value base prefix bits = value / 2 ^ (bits - prefix) == base / 2 ^ (bits - prefix)

abbrev pub blocked_v4 : List (Text × ℕ)
blocked_v4 =
    (codes "0.0.0.0", 8)
    ∷ (codes "10.0.0.0", 8)
    ∷ (codes "100.64.0.0", 10)
    ∷ (codes "127.0.0.0", 8)
    ∷ (codes "169.254.0.0", 16)
    ∷ (codes "172.16.0.0", 12)
    ∷ (codes "192.0.0.0", 24)
    ∷ (codes "192.0.2.0", 24)
    ∷ (codes "192.88.99.0", 24)
    ∷ (codes "192.168.0.0", 16)
    ∷ (codes "198.18.0.0", 15)
    ∷ (codes "198.51.100.0", 24)
    ∷ (codes "203.0.113.0", 24)
    ∷ (codes "224.0.0.0", 4)
    ∷ (codes "240.0.0.0", 4)
    ∷ (codes "168.63.129.16", 32)
    ∷ []

abbrev pub contains : ℕ → Text → Bool
contains c t = any (λ d. d == c) t

unfoldable pub is_public_v4 : ℕ → Bool
unfolding ipv4_value in_range
is_public_v4 value = not (any (λ b. in_range value (ipv4_value b.0) b.1 32) blocked_v4)

unfoldable pub is_public_v6 : ℕ → Bool
unfolding ipv6_value in_range
is_public_v6 value =
    in_range value (ipv6_value (codes "2000::")) 3 128
    && (not (in_range value (ipv6_value (codes "2001::")) 23 128)
        && (not (in_range value (ipv6_value (codes "2001:db8::")) 32 128)
            && (not (in_range value (ipv6_value (codes "2002::")) 16 128)
                && (not (in_range value (ipv6_value (codes "3ffe::")) 16 128)
                    && not (in_range value (ipv6_value (codes "3fff::")) 20 128)))))

module _ (is_ip : Text → ℕ) where
  unfoldable pub public_address : Text → Bool
  unfolding is_public_v4 is_public_v6
  public_address t =
      if is_ip t == 4
      then is_public_v4 (ipv4_value t)
      else if not (is_ip t == 6) || (contains b'.' t || contains b'%' t)
      then false
      else is_public_v6 (ipv6_value t)

  unfoldable pub loopback_address : Text → Bool
  unfolding in_range ipv4_value ipv6_value
  loopback_address t =
      is_ip t == 4 && in_range (ipv4_value t) (ipv4_value (codes "127.0.0.0")) 8 32
      || (is_ip t == 6 && (not (contains b'.' t || contains b'%' t) && ipv6_value t == 1))
