-- ===== src/Net/Route.antt =====
-- src/route.c: the routing table.
pub mod Lookup
use hf_ip.Prelude.{Bool, List, Option, [], bit_and, if◌then◌else◌, none, some, ℕ, ◌++◌, ◌==◌, ◌∷◌}
use hf_ip.Net.{Net, NetDev, RtEntry}

abbrev pub rt_loopback : ℕ
rt_loopback = 0x01

abbrev pub rt_gateway : ℕ
rt_gateway = 0x02

abbrev pub rt_host : ℕ
rt_host = 0x04

unfoldable pub route_alloc : ℕ → ℕ → ℕ → ℕ → ℕ → NetDev → RtEntry
route_alloc dst gateway netmask flags metric dev = record {
  dst = dst;
  gateway = gateway;
  netmask = netmask;
  flags = flags;
  metric = metric;
  dev = dev;
}

unfoldable pub route_add : ℕ → ℕ → ℕ → ℕ → ℕ → NetDev → Net → Net
unfolding route_alloc
route_add dst gateway netmask flags metric dev n = record n {
  routes = n.routes ++ route_alloc dst gateway netmask flags metric dev ∷ [];
}

-- `tapaddr` is what `ip_parse` returns for the text of that name.
unfoldable pub route_init : ℕ → Net → Net
unfolding route_add
route_init tapaddr n =
    let n1 = route_add n.loop.addr 0 0xff000000 rt_loopback 0 n.loop n in
    let n2 = route_add n.netdev.addr 0 0xffffff00 rt_host 0 n.netdev n1 in
    route_add 0 tapaddr 0 rt_gateway 0 n.netdev n2

-- `(daddr & rt->netmask) == (rt->dst & rt->netmask)`
abbrev pub matches : ℕ → RtEntry → Bool
matches daddr rt = bit_and daddr rt.netmask == bit_and rt.dst rt.netmask

-- The loop of `route_lookup`; `rt` keeps the last entry seen.
unfoldable pub lookup_loop : ℕ → Option RtEntry → List RtEntry → Option RtEntry
lookup_loop daddr rt [] = rt
lookup_loop daddr rt (r ∷ rest) =
    let next = lookup_loop daddr (some r) rest in if matches daddr r then some r else next

unfoldable pub route_lookup : ℕ → Net → Option RtEntry
route_lookup daddr n = lookup_loop daddr none n.routes

unfoldable pub free_routes : Net → Net
free_routes n = record n { routes = [] }
