-- ===== src/World/Find.antt =====
-- Which connection a packet belongs to: findConnection (src/connection.cpp).
use nethogs.Base.{
  ℕ, ◌≡◌, ◌⊎◌, inl, inr, not, some, List, [], ◌∷◌, ◌++◌, arith, ok, if◌then◌else◌, All, Option,
  true, false, Bool-cases, refl, sym, ◌∙◌,
}
use nethogs.LocalAddr.{LocalAddr, Family, af_inet, af_inet6, af_unspec}
use nethogs.Packet.{Packet, RawPacket, new_inverted, outgoing, outgoing_by, copy, match}
use nethogs.Packet.Reverse.{IsInternet, SameAddresses, SameEnds, match-SameEnds_iff}
use nethogs.Connection.{Connection}
use nethogs.Connection.Accounting.{is_out, ref_of}
use nethogs.Store.{Store, deref}
use nethogs.World.{World, Host, IpProto, conn_list, find_by, find_ref_or_source, find_connection}

addresses_join :
    (f g : Family) (x y z : Packet)
    → f ≡ g
    → SameAddresses f x z
    → SameAddresses g y z
    → SameAddresses f x y
addresses_join af_inet g x y z e a a' = ground (arith, e, a, a')
addresses_join af_inet6 g x y z e a a' = ground (arith, e, a, a')
addresses_join af_unspec g x y z e a a' = ground (arith, e, a, a')

SameEnds-join : (x y z : Packet) → SameEnds x z → SameEnds y z → SameEnds x y
SameEnds-join x y z (f, s, d, a) (g, s', d', a') = (
  f ∙ sym g,
  s ∙ sym s',
  d ∙ sym d',
  addresses_join x.sa_family y.sa_family x y z (f ∙ sym g) a a',
)

not_match : (x y : Packet) → ¬ SameEnds x y → match x y ≡ false
not_match x y other = elim (Bool-cases (match x y)) [
  | inl same ↦ absurd (other ((match-SameEnds_iff x y).0 same))
  | inr apart ↦ apart
]

-- The object at the address, if its reference packet has other ends than those looked for.
abbrev pub IsOther : Packet → (ℕ → Option Connection) → ℕ → Type 0
IsOther looked_for heap i =
    (c : Connection) × (heap i ≡ some c) × (¬ SameEnds looked_for c.refpacket)

find_by-first :
    (x : Packet) (s : Store) (before behind : List ℕ) (i : ℕ) (c : Connection)
    → All (IsOther x s.heap) before
    → s.heap i ≡ some c
    → match x c.refpacket ≡ true
    → find_by (match x) s (before ++ i ∷ behind) ≡ ok (some i)
unfolding find_by deref
find_by-first x s [] behind i c others e fits = rw (e, fits) refl
find_by-first x s (j ∷ before) behind i c ((d, f, other), others) e fits =
    rw (f, not_match x d.refpacket other) (find_by-first x s before behind i c others e fits)

module _ (l : LocalAddr) (ls : List LocalAddr) (raw : RawPacket) where
  -- The packet goes the same way between the same ends, or the other way between them.
  abbrev pub Belongs : Packet → Packet → Type 0
  Belongs q p =
      (is_out raw l ls q ≡ is_out raw l ls p) × SameEnds q p
      ⊎ (is_out raw l ls q ≡ not (is_out raw l ls p)) × SameEnds q (new_inverted raw p)

  -- The packet that findConnection compares with the reference packets.
  abbrev pub compared : RawPacket → Packet → Packet
  compared raw' q =
      let q' = (outgoing_by q.dir (l ∷ ls) q).1 in
      if is_out raw l ls q then q' else new_inverted raw' q'

  resolved-SameEnds : (p : Packet) → SameEnds (outgoing_by p.dir (l ∷ ls) p).1 p
  unfolding outgoing_by
  resolved-SameEnds p = ground arith

  compared-SameEnds :
      (raw' : RawPacket) (p q : Packet)
      → IsInternet p
      → Belongs q p
      → SameEnds (compared raw' q) (ref_of raw l ls p)
  unfolding new_inverted copy
  compared-SameEnds raw' p q h (inl (o, e)) =
      ground (arith, resolved-SameEnds p, resolved-SameEnds q)
  compared-SameEnds raw' p q h (inr (o, e)) =
      ground (arith, resolved-SameEnds p, resolved-SameEnds q)

  -- findConnection finds the first connection of the list, anywhere in it, that was made for a packet
  -- of the exchange: one whose reference packet has the ends that the constructor takes from a packet
  -- `p`, where the connections before it are objects with other ends. This is so for every packet
  -- that goes the same way between the same ends as `p`, and for every reply, of TCP and of UDP, once
  -- the machine has an address.
  pub find_connection-first :
      (h : Host) (w : World) (t : IpProto) (p q : Packet) (before behind : List ℕ) (i : ℕ)
      (c : Connection)
      → IsInternet p
      → Belongs q p
      → w.local_addrs ≡ l ∷ ls
      → conn_list w t ≡ ok (before ++ i ∷ behind)
      → All (IsOther (compared h.raw_packet q) w.store.heap) before
      → w.store.heap i ≡ some c
      → SameEnds c.refpacket (ref_of raw l ls p)
      → find_connection h w q t ≡ ok (some i, (outgoing_by q.dir (l ∷ ls) q).1)
  unfolding find_connection find_ref_or_source outgoing
  find_connection-first h w t p q before behind i c net b la listed others at_i ends =
      let x = compared h.raw_packet q in
      let same = SameEnds-join x c.refpacket _ (compared-SameEnds h.raw_packet p q net b) ends in
      let found =
        find_by-first x w.store before behind i c others at_i
          ((match-SameEnds_iff x c.refpacket).1 same) in
      rw (la, listed, found) refl
