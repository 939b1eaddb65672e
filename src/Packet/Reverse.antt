-- ===== src/Packet/Reverse.antt =====
-- Direction and reversal of packets: Outgoing, newInverted and match (src/packet.cpp).
use nethogs.Base.{
  ◌≡◌, ◌≢◌, ◌↔◌, refl, Bool, true, not, List, ◌∷◌, arith, bytes_eq_sound, bytes_eq_refl, ok,
}
use nethogs.LocalAddr.{Family, af_unspec, af_inet, af_inet6, LocalAddr}
use nethogs.Packet.{
  Packet, RawPacket, new_inverted, outgoing, outgoing_by, match, same_family, same_addresses,
}

-- The constructors make no other packets.
abbrev pub IsInternet : Packet → Type 0
IsInternet p = p.sa_family ≢ af_unspec

-- Both ends of two packets agree: the family, the ports, and the addresses of that family.
abbrev pub SameAddresses : Family → Packet → Packet → Type 0
SameAddresses af_inet p q = (p.sip ≡ q.sip) × (p.dip ≡ q.dip)
SameAddresses af_inet6 p q = (p.sip6 ≡ q.sip6) × (p.dip6 ≡ q.dip6)
SameAddresses af_unspec p q = (p.sip6 ≡ q.sip6) × (p.dip6 ≡ q.dip6)

abbrev pub SameEnds : Packet → Packet → Type 0
SameEnds p q =
    (p.sa_family ≡ q.sa_family)
    × (p.sport ≡ q.sport)
    × (p.dport ≡ q.dport)
    × SameAddresses p.sa_family p q

same_family_iff : (f g : Family) → (same_family f g ≡ true) ↔ (f ≡ g)
same_family_iff f g = ground arith

same_addresses_iff :
    (f : Family) (p q : Packet) → (same_addresses f p q ≡ true) ↔ SameAddresses f p q
unfolding same_addresses
same_addresses_iff af_inet p q = ground arith
same_addresses_iff af_inet6 p q = ground (
  arith,
  bytes_eq_sound p.sip6 q.sip6,
  bytes_eq_sound p.dip6 q.dip6,
  bytes_eq_refl p.sip6,
  bytes_eq_refl p.dip6,
)
same_addresses_iff af_unspec p q = ground (
  arith,
  bytes_eq_sound p.sip6 q.sip6,
  bytes_eq_sound p.dip6 q.dip6,
  bytes_eq_refl p.sip6,
  bytes_eq_refl p.dip6,
)

-- Two packets match exactly if they have the same family, the same ports and, in that family, the
-- same addresses.
pub match-SameEnds_iff : (p q : Packet) → (match p q ≡ true) ↔ SameEnds p q
unfolding match
match-SameEnds_iff p q =
    ground (arith, same_family_iff p.sa_family q.sa_family, same_addresses_iff p.sa_family p q)

-- Turning both packets round changes nothing for match.
pub match-new_inverted :
    (raw raw' : RawPacket) (p q : Packet)
    → IsInternet p
    → IsInternet q
    → match (new_inverted raw p) (new_inverted raw' q) ≡ match p q
unfolding match new_inverted same_addresses
match-new_inverted raw raw' p q h k = ground arith

-- Turning a packet round twice gives back both ends, the length, the time and the direction.
pub new_inverted-new_inverted :
    (raw raw' : RawPacket) (p : Packet)
    → IsInternet p
    → let p' = new_inverted raw' (new_inverted raw p) in
      SameEnds p' p × (p'.len ≡ p.len) × (p'.time ≡ p.time) × (p'.dir ≡ p.dir)
unfolding new_inverted
new_inverted-new_inverted raw raw' p h = ground arith

-- Once the machine has an address, Outgoing answers without failing; the packet that it leaves
-- behind gives the same answer again, whatever the addresses are then, and its reversal the
-- opposite one.
pub outgoing_settled :
    (raw : RawPacket) (l l' : LocalAddr) (ls ls' : List LocalAddr) (p : Packet)
    → IsInternet p
    → (b : Bool) × (p' : Packet) × (outgoing (l ∷ ls) p ≡ ok (b, p'))
      × (outgoing (l' ∷ ls') p' ≡ ok (b, p'))
      × ((q : Packet) × (outgoing (l' ∷ ls') (new_inverted raw p') ≡ ok (not b, q)))
unfolding outgoing new_inverted
outgoing_settled raw l l' ls ls' p h =
    let (b, p') = outgoing_by p.dir (l ∷ ls) p in
    (b, p', refl, ground arith, (new_inverted raw p', ground arith))
