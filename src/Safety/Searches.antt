-- ===== src/Safety/Searches.antt =====
-- The searches of findConnection (src/connection.cpp) and the key of a connection, in a safe state.
use nethogs.Base.{
  ℕ, ◌≡◌, refl, sym, Bool, Option, none, some, List, [], ◌∷◌, arith, All, inl, inr, Bool-cases,
  Option-cases, ok, ◌==◌, if◌then◌else◌,
}
use nethogs.LocalAddr.{LocalAddr, AddressText}
use nethogs.Packet.{
  Packet, RawPacket, outgoing, outgoing_by, gethashstring, new_inverted, packet, packet6, invert,
  match, match_source, dir_outgoing, dir_incoming, dir_unknown, Direction, islocal,
}
use nethogs.Connection.{Connection}
use nethogs.Store.{Store, deref}
use nethogs.Store.Live.{IsLive}
use nethogs.Process.{Process}
use nethogs.World.{
  World, Host, IpProto, ipproto_tcp, ipproto_udp, ipproto_other, find_address, find_by, conn_list,
  find_source, find_ref_or_source, find_connection,
}
use nethogs.Safety.{Safely, Safely-bind, Anything}
use nethogs.Safety.Invariant.{IsSafe, owned, All-left}

-- A connection that was found may be used.
abbrev pub Found : (ℕ → Option Connection) → Option ℕ → Type 0
Found heap none = Unit
Found heap (some i) = IsLive heap i

pub find_by-Safely :
    (test : Packet → Bool) (s : Store) (is : List ℕ)
    → All (IsLive s.heap) is
    → Safely (Found s.heap) (find_by test s is)
unfolding find_by deref
find_by-Safely test s [] h = tt
find_by-Safely test s (i ∷ is) h =
    let (c, e) = h.0 in
    rw e (elim (Bool-cases (test c.refpacket)) [
      | inl fits ↦ rw fits (c, e)
      | inr other ↦ rw other (find_by-Safely test s is h.1)
    ])

same : (q p : Process) → some q ≡ some p → q ≡ p
same q p h = cc

pub owned_here :
    (P : ℕ → Type 0) (a : ℕ) (ps : List Process) (p : Process)
    → find_address a ps ≡ some p
    → All P (owned ps)
    → All P p.connections
unfolding find_address owned
owned_here P a [] p e h = cc
owned_here P a (q ∷ ps) p e h =
    let (l, r) = All-left P q.connections (owned ps) h in
    elim (Bool-cases (q.address == a)) [
      | inl here ↦ rw (sym (same q p (rw here at e))) l
      | inr there ↦ owned_here P a ps p (rw there at e) r
    ]

-- UDP may be looked for when there is a process for it.
abbrev pub HasUdp : IpProto → World → Type 0
HasUdp ipproto_udp w = (a : ℕ) × (w.unknownudp ≡ some a)
HasUdp _ w = Unit

conn_list-Safely :
    (w : World) (t : IpProto)
    → IsSafe w
    → HasUdp t w
    → Safely (All (IsLive w.store.heap)) (conn_list w t)
unfolding conn_list
conn_list-Safely w ipproto_tcp r u = r.linked
conn_list-Safely w ipproto_other r u = tt
conn_list-Safely w ipproto_udp r (a, e) =
    let (p, f) = rw e at r.udp in
    rw (e, f) (owned_here (IsLive w.store.heap) a w.processes p f r.owned_live)

inverted_dir : (raw : RawPacket) (p : Packet) → (new_inverted raw p).dir ≡ invert p.dir
unfolding new_inverted packet packet6
inverted_dir raw p = ground arith

-- The packet of a known direction goes out.
abbrev IsOutgoing : Packet → Type 0
IsOutgoing p = p.dir ≡ dir_outgoing

find_source-Safely :
    (w : World) (p : Packet) (t : IpProto)
    → IsSafe w
    → HasUdp t w
    → IsOutgoing p
    → Safely (Found w.store.heap) (find_source w p t)
unfolding find_source outgoing outgoing_by
find_source-Safely w p t r u e =
    let (l, ls, f) = r.addressed in
    rw (f, e)
      (Safely-bind (All (IsLive w.store.heap)) (Found w.store.heap) (conn_list w t) _
        (conn_list-Safely w t r u) (λ is h. find_by-Safely (match_source p) w.store is h))

or_source :
    (w : World) (p : Packet) (t : IpProto) (o : Option ℕ)
    → Found w.store.heap o
    → Safely (Found w.store.heap) (find_source w p t)
    → Safely (Found w.store.heap) (elim o [ some i ↦ ok (some i) | none ↦ find_source w p t ])
or_source w p t none h k = k
or_source w p t (some i) h k = h

find_ref-Safely :
    (w : World) (p : Packet) (t : IpProto)
    → IsSafe w
    → HasUdp t w
    → IsOutgoing p
    → Safely (Found w.store.heap) (find_ref_or_source w p t)
unfolding find_ref_or_source
find_ref-Safely w p t r u e =
    Safely-bind (All (IsLive w.store.heap)) (Found w.store.heap) (conn_list w t) _
      (conn_list-Safely w t r u)
      (λ is h.
        Safely-bind (Found w.store.heap) (Found w.store.heap) (find_by (match p) w.store is) _
          (find_by-Safely (match p) w.store is h)
          (λ o k. or_source w p t o k (find_source-Safely w p t r u e)))

settled :
    (raw : RawPacket) (ls : List LocalAddr) (d : Direction) (p : Packet)
    → p.dir ≡ d
    → let (out, q) = outgoing_by d ls p in IsOutgoing (if out then q else new_inverted raw q)
unfolding outgoing_by invert
settled raw ls dir_outgoing p e = e
settled raw ls dir_incoming p e = rw (inverted_dir raw p, e) refl
settled raw ls dir_unknown p e = elim (Bool-cases (islocal ls p)) [
  | inl local ↦ rw local refl
  | inr remote ↦ rw (remote, inverted_dir raw (record p { dir = dir_incoming })) refl
]

-- What findConnection gives may be used, and a packet comes out unharmed.
pub find_connection-Safely :
    (h : Host) (w : World) (p : Packet) (t : IpProto)
    → IsSafe w
    → HasUdp t w
    → Safely (λ (x : Option ℕ × Packet). Found w.store.heap x.0) (find_connection h w p t)
unfolding find_connection outgoing
find_connection-Safely h w p t r u =
    let (l, ls, f) = r.addressed in
    let (out, q) = outgoing_by p.dir (l ∷ ls) p in
    rw f (
      Safely-bind (Found w.store.heap) (λ (x : Option ℕ × Packet). Found w.store.heap x.0) _ _
        (find_ref-Safely w _ t r u (settled h.raw_packet (l ∷ ls) p.dir p refl)) (λ o k. k))

pub gethashstring-Safely :
    (net : AddressText) (buf : List ℕ) (w : World) (p : Packet)
    → IsSafe w
    → Safely Anything (gethashstring net buf w.local_addrs p)
unfolding gethashstring outgoing
gethashstring-Safely net buf w p r =
    let (l, ls, f) = r.addressed in
    elim (Option-cases p.hashstring) [ inl new ↦ rw (new, f) tt | inr (key, old) ↦ rw old tt ]
