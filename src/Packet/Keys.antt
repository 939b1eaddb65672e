-- ===== src/Packet/Keys.antt =====
-- The key of a connection in the connection table: gethashstring (src/packet.cpp).
use nethogs.Base.{ℕ, ◌≡◌, ◌≢◌, ◌≤◌, Bool, true, false, none, some, List, ◌∷◌, arith, ok, length}
use nethogs.LocalAddr.{AddressText, LocalAddr, inet_ntop, or_raw}
use nethogs.Packet.{
  Packet, RawPacket, Direction, dir_unknown, dir_outgoing, new_inverted, gethashstring,
  hashstring_of, source_text, dest_text, by_family,
}
use nethogs.Packet.Reverse.{IsInternet}

-- The text of an address always fits the buffer of gethashstring.
pub inet_ntop_fits : (text buf : List ℕ) → length text ≤ 45 → or_raw (inet_ntop text 49) buf ≡ text
unfolding inet_ntop
inet_ntop_fits text buf h = ground arith

pub source_text_fits :
    (net : AddressText) (buf : List ℕ) (p : Packet)
    → source_text net buf p ≡ by_family p.sa_family (net.text p.sip) (net.text6 p.sip6)
source_text_fits net buf p = ground (
  arith,
  inet_ntop_fits (net.text p.sip) buf,
  inet_ntop_fits (net.text6 p.sip6) buf,
  net.text_length p.sip,
  net.text6_length p.sip6,
)

pub dest_text_fits :
    (net : AddressText) (buf : List ℕ) (p : Packet)
    → dest_text net buf p ≡ by_family p.sa_family (net.text p.dip) (net.text6 p.dip6)
dest_text_fits net buf p = ground (
  arith,
  inet_ntop_fits (net.text p.dip) buf,
  inet_ntop_fits (net.text6 p.dip6) buf,
  net.text_length p.dip,
  net.text6_length p.dip6,
)

abbrev pub is_outgoing : Direction → Bool
is_outgoing dir_outgoing = true
is_outgoing _ = false

module _ (net : AddressText) (buf buf' : List ℕ) where
  source_text-new_inverted :
      (raw : RawPacket) (p : Packet)
      → IsInternet p
      → source_text net buf (new_inverted raw p) ≡ dest_text net buf' p
  unfolding new_inverted
  source_text-new_inverted raw p h =
      rw (source_text_fits net buf (new_inverted raw p), dest_text_fits net buf' p) (ground arith)

  dest_text-new_inverted :
      (raw : RawPacket) (p : Packet)
      → IsInternet p
      → dest_text net buf (new_inverted raw p) ≡ source_text net buf' p
  unfolding new_inverted
  dest_text-new_inverted raw p h =
      rw (dest_text_fits net buf (new_inverted raw p), source_text_fits net buf' p) (ground arith)

  -- The key of a connection does not depend on which of its packets asks for it: a packet whose
  -- direction is known and its reversal have the same hash string, whatever the buffers held.
  pub gethashstring-new_inverted :
      (raw : RawPacket) (l : LocalAddr) (ls : List LocalAddr) (p : Packet)
      → IsInternet p
      → p.dir ≢ dir_unknown
      → p.hashstring ≡ none
      → (key : List ℕ) × (q r : Packet) × (gethashstring net buf' (l ∷ ls) p ≡ ok (key, q))
        × (gethashstring net buf (l ∷ ls) (new_inverted raw p) ≡ ok (key, r))
  unfolding gethashstring new_inverted
  gethashstring-new_inverted raw l ls p h k e =
      let key = hashstring_of net buf' (is_outgoing p.dir) p in
      (
        key,
        record p { hashstring = some key },
        record (new_inverted raw p) { hashstring = some key },
        ground arith,
        ground (arith, source_text-new_inverted raw p h, dest_text-new_inverted raw p h),
      )
