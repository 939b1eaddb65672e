-- ===== src/LocalAddr.antt =====
-- The addresses of the machine: class local_addr (src/nethogs.h, src/nethogs.cpp) and getLocal
-- (src/packet.cpp). The text of an address comes from inet_ntop, which is a parameter.
pub mod Contains
use nethogs.Base.{
  ℕ, suc, ◌≤◌, ◌≡◌, Bool, true, false, ◌&&◌, Option, none, some, List, [], ◌∷◌, ◌==◌, leb, bytes_eq,
  length, if◌then◌else◌,
}

pub data Family : Type 0 where
  af_unspec af_inet af_inet6 : Family

-- The 16 bytes of an in6_addr. An in_addr is its s_addr, a number.
abbrev pub In6Addr : Type 0
In6Addr = List ℕ

-- What the C library makes of an address. An IPv4 text has at most 15 characters
-- (INET_ADDRSTRLEN - 1), an IPv6 text at most 45 (INET6_ADDRSTRLEN - 1).
pub record AddressText : Type 0 where
  pub text : ℕ → List ℕ
  pub text6 : In6Addr → List ℕ
  pub text_length : (a : ℕ) → length (text a) ≤ 15
  pub text6_length : (a : In6Addr) → length (text6 a) ≤ 45

-- inet_ntop writes the text and its null, or fails with ENOSPC.
unfoldable pub inet_ntop : List ℕ → ℕ → Option (List ℕ)
inet_ntop text size = if leb (suc (length text)) size then some text else none

-- Memory that is read before it is written: what malloc, new and the stack happen to hold.
pub record Raw : Type 0 where
  pub raw_addr : ℕ
  pub raw_addr6 : In6Addr
  pub raw_string : List ℕ
  pub raw_stack : In6Addr

pub record LocalAddr : Type 0 where
  pub string : List ℕ
  pub addr : ℕ
  pub addr6 : In6Addr
  pub sa_family : Family

abbrev pub or_raw : Option (List ℕ) → List ℕ → List ℕ
or_raw none old = old
or_raw (some s) old = s

-- local_addr(in_addr_t, local_addr *): the buffer has 16 bytes and inet_ntop is told 15.
unfoldable pub local_addr : AddressText → Raw → ℕ → LocalAddr
unfolding inet_ntop
local_addr net raw m_addr = record {
  string = or_raw (inet_ntop (net.text m_addr) 15) raw.raw_string;
  addr = m_addr;
  addr6 = raw.raw_addr6;
  sa_family = af_inet;
}

-- local_addr(struct in6_addr *, local_addr *): inet_ntop is given the address of the parameter
-- `m_addr` itself, so it prints the stack, not the address.
unfoldable pub local_addr6 : AddressText → Raw → In6Addr → LocalAddr
unfolding inet_ntop
local_addr6 net raw m_addr = record {
  string = or_raw (inet_ntop (net.text6 raw.raw_stack) 63) raw.raw_string;
  addr = raw.raw_addr;
  addr6 = m_addr;
  sa_family = af_inet6;
}

abbrev is_inet : Family → Bool
is_inet af_inet = true
is_inet _ = false

abbrev is_inet6 : Family → Bool
is_inet6 af_inet6 = true
is_inet6 _ = false

-- local_addr::contains(const in_addr_t &), on the node and those behind it.
unfoldable pub contains : List LocalAddr → ℕ → Bool
contains [] n_addr = false
contains (l ∷ next) n_addr =
    if is_inet l.sa_family && (n_addr == l.addr) then true else contains next n_addr

-- local_addr::contains(const struct in6_addr &).
unfoldable pub contains6 : List LocalAddr → In6Addr → Bool
contains6 [] n_addr = false
contains6 (l ∷ next) n_addr =
    if is_inet6 l.sa_family && bytes_eq l.addr6 n_addr then true else contains6 next n_addr

-- A sockaddr by its sa_family: AF_INET, AF_INET6, or one that getLocal passes over.
pub data SockAddr : Type 0 where
  sin : ℕ → SockAddr
  sin6 : In6Addr → SockAddr
  other : SockAddr

pub record IfAddr : Type 0 where
  pub ifa_name : List ℕ
  pub ifa_addr : Option SockAddr
  pub ifa_flags : ℕ

unfoldable pub add_sockaddr : AddressText → Raw → SockAddr → List LocalAddr → List LocalAddr
unfolding local_addr local_addr6
add_sockaddr net raw (sin a) local_addrs = local_addr net raw a ∷ local_addrs
add_sockaddr net raw (sin6 a) local_addrs = local_addr6 net raw a ∷ local_addrs
add_sockaddr net raw other local_addrs = local_addrs

-- One round of the loop of getLocal.
unfoldable pub get_local_step :
    AddressText → Raw → List ℕ → IfAddr → List LocalAddr → List LocalAddr
unfolding add_sockaddr
get_local_step net raw device ifa local_addrs = elim ifa.ifa_addr [
  | none ↦ local_addrs
  | some a ↦
      if bytes_eq ifa.ifa_name device then add_sockaddr net raw a local_addrs else local_addrs
]

unfoldable pub get_local_loop :
    AddressText → Raw → List ℕ → List IfAddr → List LocalAddr → List LocalAddr
get_local_loop net raw device [] local_addrs = local_addrs
get_local_loop net raw device (ifa ∷ ifas) local_addrs =
    get_local_loop net raw device ifas (get_local_step net raw device ifa local_addrs)

-- getLocal: `none` for getifaddrs stands for its failure.
unfoldable pub get_local :
    AddressText → Raw → List ℕ → Option (List IfAddr) → List LocalAddr → Bool × List LocalAddr
unfolding get_local_loop
get_local net raw device none local_addrs = (false, local_addrs)
get_local net raw device (some ifas) local_addrs =
    (true, get_local_loop net raw device ifas local_addrs)
