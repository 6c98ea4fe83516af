-- ===== src/Net/Best.antt =====
-- What the choice of a route in af_inet.h finds.
use carrotos.Base.{
  ℕ, ◌≤◌, ◌<◌, ◌≡◌, inl, inr, true, false, Option, none, some, List, [], ◌∷◌, leb, arith,
  Bool-cases,
}
use carrotos.Net.Route.{RouteEntry, applies, route_loop, find_route}

pub data IsRouteOf (r : RouteEntry) : List RouteEntry → Type 0 where
  here : {rs : List RouteEntry} → IsRouteOf r (r ∷ rs)
  there : {q : RouteEntry} {rs : List RouteEntry} → IsRouteOf r rs → IsRouteOf r (q ∷ rs)

-- A result of the search: no route of the table applies, or it is one that applies and none that
-- applies has a greater mask.
pub data IsBest (dest_ip : ℕ) (rs : List RouteEntry) : Option RouteEntry → Type 0 where
  nowhere : ((q : RouteEntry) → IsRouteOf q rs → applies dest_ip q ≡ false) → IsBest dest_ip rs none
  best :
      (r : RouteEntry)
      → IsRouteOf r rs
      → applies dest_ip r ≡ true
      → ((q : RouteEntry) → IsRouteOf q rs → applies dest_ip q ≡ true → q.netmask ≤ r.netmask)
      → IsBest dest_ip rs (some r)

all_routes {ℓ} :
    (P : RouteEntry → Type ℓ) {q : RouteEntry} {rs : List RouteEntry}
    → P q
    → ((p : RouteEntry) → IsRouteOf p rs → P p)
    → (p : RouteEntry) → IsRouteOf p (q ∷ rs)
    → P p
all_routes P first rest p here = first
all_routes P first rest p (there i) = rest p i

abbrev IsBelow : ℕ → ℕ → RouteEntry → Type 0
IsBelow dest_ip mask q = applies dest_ip q ≡ true → q.netmask ≤ mask

-- What the loop makes of the best route so far: the same, where every route that applies has a
-- mask below that one's, or a route of the table that is the best from there on.
data IsBetter (dest_ip : ℕ) (rs : List RouteEntry) (before : Option RouteEntry) (mask : ℕ)
    : Option RouteEntry → Type 0 where
  kept :
      ((q : RouteEntry) → IsRouteOf q rs → applies dest_ip q ≡ true → q.netmask < mask)
      → IsBetter dest_ip rs before mask before
  found :
      (r : RouteEntry)
      → IsRouteOf r rs
      → applies dest_ip r ≡ true
      → mask ≤ r.netmask
      → ((q : RouteEntry) → IsRouteOf q rs → IsBelow dest_ip r.netmask q)
      → IsBetter dest_ip rs before mask (some r)

skipped :
    (dest_ip : ℕ) (q : RouteEntry) (rs : List RouteEntry) (before r : Option RouteEntry) (mask : ℕ)
    → (applies dest_ip q ≡ true → q.netmask < mask)
    → IsBetter dest_ip rs before mask r
    → IsBetter dest_ip (q ∷ rs) before mask r
skipped dest_ip q rs before _ mask low (kept all) =
    kept (all_routes (λ p. applies dest_ip p ≡ true → p.netmask < mask) low all)
skipped dest_ip q rs before _ mask low (found r i yes_r high all) =
    found r (there i) yes_r high
      (all_routes (IsBelow dest_ip r.netmask) (λ e. let h = low e in omega arith) all)

taken :
    (dest_ip : ℕ) (q : RouteEntry) (rs : List RouteEntry) (before r : Option RouteEntry) (mask : ℕ)
    → applies dest_ip q ≡ true
    → mask ≤ q.netmask
    → IsBetter dest_ip rs (some q) q.netmask r
    → IsBetter dest_ip (q ∷ rs) before mask r
taken dest_ip q rs before _ mask yes_q high (kept all) = found q here yes_q high (
    all_routes (IsBelow dest_ip q.netmask) (λ e. omega arith)
      (λ p i e. let h = all p i e in omega arith))
taken dest_ip q rs before _ mask yes_q high (found r i yes_r higher all) =
    found r (there i) yes_r (omega arith) (all_routes (IsBelow dest_ip r.netmask) (λ e. higher) all)

route_loop-IsBetter :
    (dest_ip : ℕ) (rs : List RouteEntry) (before : Option RouteEntry) (mask : ℕ)
    → IsBetter dest_ip rs before mask (route_loop dest_ip rs before mask)
unfolding route_loop
route_loop-IsBetter dest_ip [] before mask = kept (λ q i. elim i [ ])
route_loop-IsBetter dest_ip (q ∷ rs) before mask = elim (Bool-cases (applies dest_ip q)) [
  | inr no_q ↦
      rw (route_loop, no_q)
        (skipped dest_ip q rs before _ mask (λ e. absurd cc)
          (route_loop-IsBetter dest_ip rs before mask))
  | inl yes_q ↦ elim (Bool-cases (leb mask q.netmask)) [
    | inl high ↦
        rw (route_loop, yes_q, high)
          (taken dest_ip q rs before _ mask yes_q (ground arith)
            (route_loop-IsBetter dest_ip rs (some q) q.netmask))
    | inr low ↦
        rw (route_loop, yes_q, low)
          (skipped dest_ip q rs before _ mask (λ e. ground arith)
            (route_loop-IsBetter dest_ip rs before mask))
  ]
]

IsBest-of_better :
    (dest_ip : ℕ) (rs : List RouteEntry) (r : Option RouteEntry)
    → IsBetter dest_ip rs none 0 r
    → IsBest dest_ip rs r
IsBest-of_better dest_ip rs _ (kept all) = nowhere (λ q i. elim (Bool-cases (applies dest_ip q)) [
  | inl e ↦ let h = all q i e in absurd (omega arith)
  | inr e ↦ e
])
IsBest-of_better dest_ip rs _ (found r i yes_r high all) = best r i yes_r all

-- `find_route` returns no route only if none of the table applies to the address, and else one
-- that applies and whose mask is the greatest of those that do.
pub find_route-IsBest :
    (dest_ip : ℕ) (rs : List RouteEntry) → IsBest dest_ip rs (find_route dest_ip rs)
unfolding find_route
find_route-IsBest dest_ip rs = IsBest-of_better dest_ip rs _ (route_loop-IsBetter dest_ip rs none 0)
