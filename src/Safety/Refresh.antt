-- ===== src/Safety/Refresh.antt =====
-- The start of the monitor and a removal in a safe state: process_init and
-- remove_timed_out_processes (src/process.cpp).
use nethogs.Base.{ℕ, suc, ◌<◌, ◌≡◌, refl, Bool, true, false, none, some, List, [], ◌∷◌, arith, ok}
use nethogs.LocalAddr.{LocalAddr}
use nethogs.Packet.{Timeval}
use nethogs.Store.{Store}
use nethogs.Store.Live.{IsLive}
use nethogs.Process.{Process, process}
use nethogs.ConnInode.{ConnTable}
use nethogs.World.{World, find_address}
use nethogs.Timeouts.{unknown_udp_name, unknown_tcp_name, process_init, remove_timed_out_processes}
use nethogs.Timeouts.Removal.{Drops}
use nethogs.Timeouts.Sweeps.{remove_timed_out_lem, Drops-EndsUnknown}
use nethogs.Safety.Invariant.{IsSafe, owned}
use nethogs.Safety.Sums.{Summed}
use nethogs.Safety.Removed.{
  owned-AllLive, Drops-owned, Drops-Distinct, Drops-Listed, tcp-unknown, udp-unknown,
  Drops-inhabited, again-Listed, again-EndsUnknown, again-inhabited,
}

pub Drops-IsSafe :
    (w : World) (r : List Process)
    → IsSafe w
    → Drops w w.processes r
    → IsSafe (record w { processes = r })
Drops-IsSafe w r s d = record {
  addressed = s.addressed;
  linked = s.linked;
  linked_below = s.linked_below;
  owned_live = Drops-owned (IsLive w.store.heap) w w.processes r d s.owned_live;
  owned_below = Drops-owned (λ i. i < w.store.next_object) w w.processes r d s.owned_below;
  owned_distinct = Drops-Distinct w w.processes r d s.owned_distinct;
  tcp = Drops-Listed (some w.unknowntcp) w w.processes r (tcp-unknown w) d s.tcp;
  udp = Drops-Listed w.unknownudp w w.processes r (udp-unknown w w.unknownudp refl) d s.udp;
  ends = Drops-EndsUnknown w w.processes r s.ends d;
  inhabited = Drops-inhabited w w.processes r d s.ends s.inhabited;
  catches = s.catches;
}

pub removed-IsSafe :
    (w : World)
    → IsSafe w
    → (r : List Process) × (remove_timed_out_processes w ≡ ok (record w { processes = r }))
      × IsSafe (record w { processes = r })
      × Drops w w.processes r
removed-IsSafe w s =
    let (r, e, d, _, _, _) =
      remove_timed_out_lem w (owned-AllLive w w.processes s.owned_live) s.ends in
    (r, e, Drops-IsSafe w r s d, d)

pub Summed-IsSafe :
    (w : World) (ps : List Process) (s : Store) (rs : List (ℕ × ℕ))
    → IsSafe w
    → Summed w.store w.processes s ps rs
    → IsSafe (record w { processes = ps; store = s })
Summed-IsSafe w ps s rs r m = record {
  addressed = r.addressed;
  linked = m.links r.linked;
  linked_below = rw m.next_same (m.linked_below w.store.next_object r.linked_below);
  owned_live = m.live;
  owned_below = rw m.next_same (m.owned_below w.store.next_object r.owned_below);
  owned_distinct = m.distinct;
  tcp = again-Listed (some w.unknowntcp) w.processes ps m.addresses r.tcp;
  udp = again-Listed w.unknownudp w.processes ps m.addresses r.udp;
  ends = again-EndsUnknown w w.processes ps m.addresses r.ends;
  inhabited = again-inhabited w.processes ps m.addresses r.inhabited;
  catches = r.catches;
}

pub tables-IsSafe : (w : World) (t : ConnTable) → IsSafe w → IsSafe (record w { conninode = t })
tables-IsSafe w t r = record {
  addressed = r.addressed;
  linked = r.linked;
  linked_below = r.linked_below;
  owned_live = r.owned_live;
  owned_below = r.owned_below;
  owned_distinct = r.owned_distinct;
  tcp = r.tcp;
  udp = r.udp;
  ends = r.ends;
  inhabited = r.inhabited;
  catches = r.catches;
}

pub clock-IsSafe : (w : World) (t : Timeval) → IsSafe w → IsSafe (record w { curtime = t })
clock-IsSafe w t r = record {
  addressed = r.addressed;
  linked = r.linked;
  linked_below = r.linked_below;
  owned_live = r.owned_live;
  owned_below = r.owned_below;
  owned_distinct = r.owned_distinct;
  tcp = r.tcp;
  udp = r.udp;
  ends = again-EndsUnknown w w.processes w.processes refl r.ends;
  inhabited = r.inhabited;
  catches = r.catches;
}

-- Before the first packet: once the machine has an address and nothing is in the lists, process_init
-- makes a safe state, with or without a process for unknown UDP.
pub process_init-IsSafe :
    (catchall : Bool) (w : World) (l : LocalAddr) (ls : List LocalAddr)
    → w.local_addrs ≡ l ∷ ls
    → w.store.connections ≡ []
    → w.unknownudp ≡ none
    → IsSafe (process_init (record w { catchall = catchall }))
unfolding process_init process owned find_address
process_init-IsSafe true w l ls a c u = record {
  addressed = (l, ls, a);
  linked = rw c tt;
  linked_below = rw c tt;
  owned_live = tt;
  owned_below = tt;
  owned_distinct = tt;
  tcp = (process w.next_process 0 [] (some unknown_tcp_name) none, ground arith);
  udp = (process (suc w.next_process) 0 [] (some unknown_udp_name) none, ground arith);
  ends = ground arith;
  inhabited = λ k. ground arith;
  catches = (suc w.next_process, refl);
}
process_init-IsSafe false w l ls a c u = record {
  addressed = (l, ls, a);
  linked = rw c tt;
  linked_below = rw c tt;
  owned_live = tt;
  owned_below = tt;
  owned_distinct = tt;
  tcp = (process w.next_process 0 [] (some unknown_tcp_name) none, ground arith);
  udp = rw u tt;
  ends = ground arith;
  inhabited = λ k. ground arith;
  catches = tt;
}
