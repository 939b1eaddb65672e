-- ===== src/Safety/Packets.antt =====
-- A captured packet in a safe state: process_tcp and process_udp (src/nethogs.cpp).
use nethogs.Base.{
  ℕ, ◌≡◌, refl, Option, none, some, List, inl, inr, Option-cases, Result, or_fault, dangling,
  null_pointer, Bool,
}
use nethogs.Packet.{Packet, Timeval, gethashstring, outgoing}
use nethogs.Connection.{Connection, add}
use nethogs.Store.{Store, assign, deref, new_connection, add_packet}
use nethogs.Store.Live.{IsLive}
use nethogs.World.{
  World, Host, ipproto_tcp, ipproto_udp, get_process, refreshed, process_or_none, named_process,
  find_connection, find_address,
}
use nethogs.Callbacks.{
  Bytes, DpHeader, DpArgs, make_packet, add_known, add_tcp, add_udp, found_or, receive_tcp,
  receive_udp, process_tcp, process_udp,
}
use nethogs.Safety.{Safely, Safely-bind, Anything}
use nethogs.Safety.Invariant.{IsSafe}
use nethogs.Safety.Lists.{IsReady, IsReady-assign, IsSafe-assign, IsSafe-link}
use nethogs.Safety.Searches.{find_connection-Safely, gethashstring-Safely, Found, HasUdp}
use nethogs.Safety.Processes.{
  Ready, new_connection-Safely, refreshed-Safely, process_or_none-Safely, named_process-IsReady,
}

get_process-Safely :
    (h : Host) (i : ℕ) (w : World) (devicename : List ℕ)
    → IsReady i w
    → Safely (λ (x : ℕ × World). IsSafe x.1) (get_process h w i devicename)
unfolding get_process deref
get_process-Safely h i w devicename r =
    let (c, e) = r.live in
    rw e (
      Safely-bind Anything (λ (x : ℕ × World). IsSafe x.1)
        (gethashstring h.net h.buf w.local_addrs c.refpacket) _
        (gethashstring-Safely h.net h.buf w c.refpacket r.safe)
        (λ k _.
          Safely-bind (Ready i) (λ (x : ℕ × World). IsSafe x.1)
            (refreshed h (record w { store = assign w.store i (record c { refpacket = k.1 }) }) k.0)
            _ (refreshed-Safely h i _ k.0 (IsReady-assign i _ w r))
            (λ x rx.
              Safely-bind (Ready i) (λ (y : ℕ × World). IsSafe y.1)
                (process_or_none h x.1 x.0 devicename) _
                (process_or_none-Safely h i x.1 x.0 devicename rx)
                (λ y ry.
                  IsSafe-link (named_process y.1 x.0 k.0 y.0).0 i (named_process y.1 x.0 k.0 y.0).1
                    (named_process-IsReady i y.1 x.0 k.0 y.0 ry)))))

add-Safely :
    (w : World) (c : Connection) (p : Packet) → IsSafe w → Safely Anything (add w.local_addrs c p)
unfolding add outgoing
add-Safely w c p r = let (l, ls, e) = r.addressed in rw e tt

add_packet-Safely :
    (w : World) (i : ℕ) (p : Packet)
    → IsSafe w
    → IsLive w.store.heap i
    → Safely
        (λ (x : Packet × Store). IsSafe (record w { store = x.1 }))
        (add_packet w.local_addrs w.store i p)
unfolding add_packet deref
add_packet-Safely w i p r (c, e) =
    let Q = λ (x : Packet × Store). IsSafe (record w { store = x.1 }) in
    Safely-bind Anything Q (deref w.store i) _ (rw e tt) (λ d _.
      Safely-bind Anything Q (add w.local_addrs d p) _ (add-Safely w d p r)
        (λ x _. IsSafe-assign i x.0 w r))

add_known-Safely :
    (w : World) (i : ℕ) (p : Packet)
    → IsSafe w
    → IsLive w.store.heap i
    → Safely IsSafe (add_known w i p)
unfolding add_known
add_known-Safely w i p r k =
    Safely-bind (λ (x : Packet × Store). IsSafe (record w { store = x.1 })) IsSafe
      (add_packet w.local_addrs w.store i p) _ (add_packet-Safely w i p r k) (λ x s. s)

add_tcp-Safely :
    (h : Host) (w : World) (device : List ℕ) (p : Packet)
    → IsSafe w
    → Safely IsSafe (add_tcp h w device p)
unfolding add_tcp
add_tcp-Safely h w device p r =
    Safely-bind (λ (x : ℕ × Packet × Store). IsReady x.0 (record w { store = x.2 })) IsSafe
      (new_connection w.local_addrs h.raw_packet w.store p) _
      (new_connection-Safely h.raw_packet w p r)
      (λ x rx.
        Safely-bind (λ (y : ℕ × World). IsSafe y.1) IsSafe
          (get_process h (record w { store = x.2 }) x.0 device) _
          (get_process-Safely h x.0 (record w { store = x.2 }) device rx) (λ y ry. ry))

udp_process-Safely :
    (w : World) (a : ℕ)
    → IsSafe w
    → HasUdp ipproto_udp w
    → w.unknownudp ≡ some a
    → Safely Anything (or_fault dangling (find_address a w.processes))
udp_process-Safely w a r u e = let (p, f) = rw e at r.udp in rw f tt

add_udp-Safely :
    (h : Host) (w : World) (p : Packet)
    → IsSafe w
    → HasUdp ipproto_udp w
    → Safely IsSafe (add_udp h w p)
unfolding add_udp
add_udp-Safely h w p r (a, e) =
    Safely-bind (λ (x : ℕ × Packet × Store). IsReady x.0 (record w { store = x.2 })) IsSafe
      (new_connection w.local_addrs h.raw_packet w.store p) _
      (new_connection-Safely h.raw_packet w p r)
      (λ x rx.
        Safely-bind (λ b. w.unknownudp ≡ some b) IsSafe (or_fault null_pointer w.unknownudp) _
          (rw e refl)
          (λ b f.
            Safely-bind Anything IsSafe (or_fault dangling (find_address b w.processes)) _
              (udp_process-Safely w b r (a, e) f)
              (λ q _. IsSafe-link b x.0 (record w { store = x.2 }) rx)))

found_or-Safely :
    (w : World) (p : Packet) (new : Result World) (o : Option ℕ)
    → IsSafe w
    → Found w.store.heap o
    → Safely IsSafe new
    → Safely IsSafe (found_or w p new o)
found_or-Safely w p new none r f k = k
found_or-Safely w p new (some i) r f k = add_known-Safely w i p r f

receive_tcp-Safely :
    (h : Host) (w : World) (device : List ℕ) (p : Packet)
    → IsSafe w
    → Safely IsSafe (receive_tcp h w device p)
unfolding receive_tcp
receive_tcp-Safely h w device p r =
    Safely-bind (λ (x : Option ℕ × Packet). Found w.store.heap x.0) IsSafe
      (find_connection h w p ipproto_tcp) _ (find_connection-Safely h w p ipproto_tcp r tt)
      (λ x f. found_or-Safely w x.1 _ x.0 r f (add_tcp-Safely h w device x.1 r))

receive_udp-Safely :
    (h : Host) (w : World) (p : Packet)
    → IsSafe w
    → HasUdp ipproto_udp w
    → Safely IsSafe (receive_udp h w p)
unfolding receive_udp
receive_udp-Safely h w p r u =
    Safely-bind (λ (x : Option ℕ × Packet). Found w.store.heap x.0) IsSafe
      (find_connection h w p ipproto_udp) _ (find_connection-Safely h w p ipproto_udp r u)
      (λ x f. found_or-Safely w x.1 _ x.0 r f (add_udp-Safely h w x.1 r u))

-- The clock is set to the time of the packet.
IsSafe-clock : (w : World) (t : Timeval) → IsSafe w → IsSafe (record w { curtime = t })
IsSafe-clock w t r = record {
  addressed = r.addressed;
  linked = r.linked;
  linked_below = r.linked_below;
  owned_live = r.owned_live;
  owned_below = r.owned_below;
  owned_distinct = r.owned_distinct;
  tcp = r.tcp;
  udp = r.udp;
  ends = r.ends;
  inhabited = r.inhabited;
  catches = r.catches;
}

abbrev pub SafeAfter : Bool × World → Type 0
SafeAfter x = IsSafe x.1

module _ (h : Host) (args : DpArgs) (header : DpHeader) (m_packet : Bytes) (w : World) where
  -- In a safe state, process_tcp follows no NULL and no deleted pointer and fails no assertion,
  -- whatever the packet, the files of /proc and the other parameters hold: it leaves a safe state,
  -- or the program ends by `exit` or by the read past the end of a command line.
  pub process_tcp-Safely : IsSafe w → Safely SafeAfter (process_tcp h args header m_packet w)
  unfolding process_tcp
  process_tcp-Safely r = elim (Option-cases (make_packet h args header m_packet)) [
    | inl dropped ↦ rw (dropped, process_tcp) (IsSafe-clock w header.ts r)
    | inr (p, made) ↦
        rw (made, process_tcp)
          (Safely-bind IsSafe SafeAfter
            (receive_tcp h (record w { curtime = header.ts }) args.device p) _
            (receive_tcp-Safely h _ args.device p (IsSafe-clock w header.ts r)) (λ v k. k))
  ]

  -- In a safe state with a process for unknown UDP, process_udp follows no NULL and no deleted
  -- pointer and fails no assertion, whatever the packet and the other parameters hold: it leaves a
  -- safe state, unless the program ends by exit or by a read out of bounds.
  pub process_udp-Safely :
      (a : ℕ)
      → w.unknownudp ≡ some a
      → IsSafe w
      → Safely SafeAfter (process_udp h args header m_packet w)
  unfolding process_udp
  process_udp-Safely a u r = elim (Option-cases (make_packet h args header m_packet)) [
    | inl dropped ↦ rw (dropped, process_udp) (IsSafe-clock w header.ts r)
    | inr (p, made) ↦
        rw (made, process_udp)
          (Safely-bind IsSafe SafeAfter (receive_udp h (record w { curtime = header.ts }) p) _
            (receive_udp-Safely h _ p (IsSafe-clock w header.ts r) (a, u)) (λ v k. k))
  ]
