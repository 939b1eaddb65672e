-- ===== src/Packet.antt =====
-- class Packet (src/packet.h, src/packet.cpp). Outgoing and gethashstring write to the packet they
-- are called on, so they return it; the build has DEBUG 0.
pub mod Reverse
pub mod Keys
use nethogs.Base.{
  ℕ, ◌+◌, ◌-◌, ◌/◌, ◌%◌, ◌^◌, ◌≡◌, Bool, true, false, ◌&&◌, Option, none, some, List, [], ◌∷◌, ◌++◌,
  ◌==◌, leb, ltb, take, bytes_eq, if◌then◌else◌, Result, ok, fault, assertion, zero, suc,
}
use nethogs.LocalAddr.{
  Family, af_inet, af_inet6, af_unspec, In6Addr, AddressText, LocalAddr, contains, contains6,
  inet_ntop, or_raw,
}

pub data Direction : Type 0 where
  dir_unknown dir_incoming dir_outgoing : Direction

pub record Timeval : Type 0 where
  pub tv_sec : ℕ
  pub tv_usec : ℕ

pub record Packet : Type 0 where
  pub sip6 : In6Addr
  pub dip6 : In6Addr
  pub sip : ℕ
  pub dip : ℕ
  pub sport : ℕ
  pub dport : ℕ
  pub len : ℕ
  pub time : Timeval
  pub dir : Direction
  pub sa_family : Family
  pub hashstring : Option (List ℕ)

-- The address fields that a constructor leaves as the allocator hands them out.
pub record RawPacket : Type 0 where
  pub raw_sip6 : In6Addr
  pub raw_dip6 : In6Addr
  pub raw_sip : ℕ
  pub raw_dip : ℕ

-- Packet(in_addr, …): the IPv6 addresses are not set.
unfoldable pub packet : RawPacket → ℕ → ℕ → ℕ → ℕ → ℕ → Timeval → Direction → Packet
packet raw m_sip m_sport m_dip m_dport m_len m_time m_dir = record {
  sip6 = raw.raw_sip6;
  dip6 = raw.raw_dip6;
  sip = m_sip;
  dip = m_dip;
  sport = m_sport;
  dport = m_dport;
  len = m_len;
  time = m_time;
  dir = m_dir;
  sa_family = af_inet;
  hashstring = none;
}

-- Packet(in6_addr, …): the IPv4 addresses are not set.
unfoldable pub packet6 : RawPacket → In6Addr → ℕ → In6Addr → ℕ → ℕ → Timeval → Direction → Packet
packet6 raw m_sip m_sport m_dip m_dport m_len m_time m_dir = record {
  sip6 = m_sip;
  dip6 = m_dip;
  sip = raw.raw_sip;
  dip = raw.raw_dip;
  sport = m_sport;
  dport = m_dport;
  len = m_len;
  time = m_time;
  dir = m_dir;
  sa_family = af_inet6;
  hashstring = none;
}

unfoldable pub invert : Direction → Direction
invert dir_incoming = dir_outgoing
invert dir_outgoing = dir_incoming
invert dir_unknown = dir_unknown

abbrev pub by_family {ℓ} : {A : Type ℓ} → Family → A → A → A
by_family af_inet x y = x
by_family af_inet6 x y = y
by_family af_unspec x y = y

unfoldable pub new_inverted : RawPacket → Packet → Packet
unfolding packet packet6 invert
new_inverted raw p =
    by_family p.sa_family (packet raw p.dip p.dport p.sip p.sport p.len p.time (invert p.dir))
      (packet6 raw p.dip6 p.dport p.sip6 p.sport p.len p.time (invert p.dir))

-- Packet(const Packet &): every field; the hash string is duplicated.
unfoldable pub copy : Packet → Packet
copy old_packet = record {
  sip6 = old_packet.sip6;
  dip6 = old_packet.dip6;
  sip = old_packet.sip;
  dip = old_packet.dip;
  sport = old_packet.sport;
  dport = old_packet.dport;
  len = old_packet.len;
  time = old_packet.time;
  dir = old_packet.dir;
  sa_family = old_packet.sa_family;
  hashstring = old_packet.hashstring;
}

unfoldable pub sameinaddr : ℕ → ℕ → Bool
sameinaddr one other = one == other

unfoldable pub samein6addr : In6Addr → In6Addr → Bool
samein6addr one other = bytes_eq one other

unfoldable pub is_older_than : Packet → Timeval → Bool
is_older_than p t = leb p.time.tv_sec t.tv_sec

abbrev pub islocal : List LocalAddr → Packet → Bool
islocal local_addrs p =
    by_family p.sa_family (contains local_addrs p.sip) (contains6 local_addrs p.sip6)

-- The switch of Outgoing, once the addresses of the machine are known.
unfoldable pub outgoing_by : Direction → List LocalAddr → Packet → Bool × Packet
outgoing_by dir_outgoing local_addrs p = (true, p)
outgoing_by dir_incoming local_addrs p = (false, p)
outgoing_by dir_unknown local_addrs p =
    if islocal local_addrs p
    then (true, record p { dir = dir_outgoing })
    else (false, record p { dir = dir_incoming })

unfoldable pub outgoing : List LocalAddr → Packet → Result (Bool × Packet)
unfolding outgoing_by
outgoing [] p = fault assertion
outgoing (l ∷ ls) p = ok (outgoing_by p.dir (l ∷ ls) p)

-- The decimal digits of `%d` at a number that is not negative; a number below ten to the `fuel`
-- is printed whole.
unfoldable pub digits_of : ℕ → ℕ → List ℕ → List ℕ
digits_of zero n rest = rest
digits_of (suc fuel) n rest =
    let more = digits_of fuel (n / 10) ((b'0' + n % 10) ∷ rest) in
    if ltb n 10 then (b'0' + n) ∷ rest else more

unfoldable pub decimal : ℕ → List ℕ
unfolding digits_of
decimal n = digits_of 20 n []

-- HASHKEYSIZE
abbrev pub hashkeysize : ℕ
hashkeysize = 92

-- `%d` at an `int` that was stored through `%X`.
unfoldable pub decimal_int : ℕ → List ℕ
unfolding decimal
decimal_int n = if ltb n (2 ^ 31) then decimal n else b'-' ∷ decimal (2 ^ 32 - n)

-- snprintf (…, HASHKEYSIZE, "%s:%d-%s:%d", …): at most 91 characters are kept.
unfoldable pub hashkey : List ℕ → ℕ → List ℕ → ℕ → List ℕ
unfolding decimal_int
hashkey local_string local_port remote_string rem_port = take (hashkeysize - 1) (
    local_string
    ++ (b':' ∷ decimal_int local_port ++ (b'-' ∷ remote_string ++ (b':' ∷ decimal_int rem_port))))

-- What inet_ntop leaves in a buffer of 50 bytes that it is told has 49; `raw` if it fails.
abbrev pub source_text : AddressText → List ℕ → Packet → List ℕ
source_text net raw p =
    by_family p.sa_family (or_raw (inet_ntop (net.text p.sip) 49) raw)
      (or_raw (inet_ntop (net.text6 p.sip6) 49) raw)

abbrev pub dest_text : AddressText → List ℕ → Packet → List ℕ
dest_text net raw p =
    by_family p.sa_family (or_raw (inet_ntop (net.text p.dip) 49) raw)
      (or_raw (inet_ntop (net.text6 p.dip6) 49) raw)

-- The key for a packet of known direction.
unfoldable pub hashstring_of : AddressText → List ℕ → Bool → Packet → List ℕ
unfolding hashkey inet_ntop
hashstring_of net raw true p = hashkey (source_text net raw p) p.sport (dest_text net raw p) p.dport
hashstring_of net raw false p =
    hashkey (dest_text net raw p) p.dport (source_text net raw p) p.sport

abbrev store_hashstring : AddressText → List ℕ → Bool × Packet → List ℕ × Packet
store_hashstring net raw (out, p) =
    let key = hashstring_of net raw out p in (key, record p { hashstring = some key })

abbrev bind_hashstring : AddressText → List ℕ → Result (Bool × Packet) → Result (List ℕ × Packet)
bind_hashstring net raw (ok r) = ok (store_hashstring net raw r)
bind_hashstring net raw (fault e) = fault e

unfoldable pub gethashstring :
    AddressText → List ℕ → List LocalAddr → Packet → Result (List ℕ × Packet)
unfolding outgoing hashstring_of
gethashstring net raw local_addrs p = elim p.hashstring [
  | some key ↦ ok (key, p)
  | none ↦ bind_hashstring net raw (outgoing local_addrs p)
]

abbrev pub same_family : Family → Family → Bool
same_family af_unspec af_unspec = true
same_family af_inet af_inet = true
same_family af_inet6 af_inet6 = true
same_family _ _ = false

-- The last conjunct of match.
unfoldable pub same_addresses : Family → Packet → Packet → Bool
unfolding sameinaddr samein6addr
same_addresses f p other =
    by_family f (sameinaddr p.sip other.sip && sameinaddr p.dip other.dip)
      (samein6addr p.sip6 other.sip6 && samein6addr p.dip6 other.dip6)

unfoldable pub match : Packet → Packet → Bool
unfolding same_addresses
match p other =
    same_family p.sa_family other.sa_family
    && ((p.sport == other.sport)
        && ((p.dport == other.dport) && same_addresses p.sa_family p other))

unfoldable pub match_source : Packet → Packet → Bool
unfolding sameinaddr
match_source p other = (p.sport == other.sport) && sameinaddr p.sip other.sip
