-- ===== src/Net/Route.antt =====
-- The routes of af_inet.h: the table, and the choice of the next hop.
use carrotos.Base.{
  ℕ, zero, suc, ◌+◌, ◌^◌, Bool, true, false, ◌&&◌, not, Option, none, some, List, [], ◌∷◌, ◌==◌,
  leb, if◌then◌else◌, bit_and,
}

-- `struct route_entry`; a free entry has zeros.
pub record RouteEntry : Type 0 where
  pub dest : ℕ
  pub netmask : ℕ
  pub gateway : ℕ
  pub nic_id : ℕ

unfoldable pub in_l2 : (ip_a ip_b netmask : ℕ) → Bool
in_l2 ip_a ip_b netmask = bit_and ip_a netmask == bit_and ip_b netmask

-- The test of a route in the loop of `find_route`.
unfoldable pub applies : ℕ → RouteEntry → Bool
unfolding in_l2
applies dest_ip r = not (r.dest == 0) && not (r.netmask == 0) && in_l2 dest_ip r.dest r.netmask

-- The best route so far, and its mask.
unfoldable pub route_loop :
    ℕ → List RouteEntry → Option RouteEntry → (best_mask : ℕ) → Option RouteEntry
unfolding applies
route_loop dest_ip [] best best_mask = best
route_loop dest_ip (r ∷ rs) best best_mask =
    let better = route_loop dest_ip rs (some r) r.netmask in
    let rest = route_loop dest_ip rs best best_mask in
    if applies dest_ip r then if leb best_mask r.netmask then better else rest else rest

unfoldable pub find_route : ℕ → List RouteEntry → Option RouteEntry
unfolding route_loop
find_route dest_ip route_table_v4 = route_loop dest_ip route_table_v4 none 0

-- The first entry of zeros, which a free entry is, too.
unfoldable pub default_route : List RouteEntry → Option RouteEntry
default_route [] = none
default_route (r ∷ rs) =
    let rest = default_route rs in if r.dest == 0 && r.netmask == 0 then some r else rest

unfoldable pub find_route_n_gate : ℕ → List RouteEntry → Option RouteEntry
unfolding find_route default_route
find_route_n_gate dest_ip route_table_v4 = elim (find_route dest_ip route_table_v4) [
  | some r ↦ some r
  | none ↦ default_route route_table_v4
]

abbrev pub no_route : RouteEntry
no_route = record { dest = 0; netmask = 0; gateway = 0; nic_id = 0 }

-- The first route with the destination and the mask is erased.
unfoldable pub del_route : (dest netmask : ℕ) → List RouteEntry → Bool × List RouteEntry
del_route dest netmask [] = (false, [])
del_route dest netmask (r ∷ rs) =
    let (found, rest) = del_route dest netmask rs in
    if r.dest == dest && r.netmask == netmask then (true, no_route ∷ rs) else (found, r ∷ rest)

-- The gateways of the network cards, none for a slot without a card.
unfoldable pub find_first_gateway : List (Option ℕ) → ℕ
find_first_gateway [] = 0
find_first_gateway (none ∷ nics) = find_first_gateway nics
find_first_gateway (some gateway ∷ nics) =
    let rest = find_first_gateway nics in if gateway == 0 then rest else gateway

unfoldable pub get_next_hop : (gateways : List (Option ℕ)) → ℕ → List RouteEntry → ℕ
unfolding find_route find_first_gateway
get_next_hop gateways dest_ip route_table_v4 = elim (find_route dest_ip route_table_v4) [
  | some r ↦ r.gateway
  | none ↦ if find_first_gateway gateways == 0 then dest_ip else find_first_gateway gateways
]

-- `n` ones from the lowest bit on: `tmp |= 1 << i` in 32 bits, for masks of 32 bits at most.
unfoldable pub char_to_netmask : ℕ → ℕ
char_to_netmask zero = 0
char_to_netmask (suc n) = char_to_netmask n + 2 ^ n
