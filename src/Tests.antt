-- ===== src/Tests.antt =====
-- A machine with one address, two packets of an exchange, and a state with two processes: the data
-- on which the theorems are tried out in the modules below.
mod Start
mod Traffic
mod Tables
mod Sockets
mod Packets
mod Monitor
mod Course
mod Library
mod Mirroring
mod Screen
mod Rounds
use nethogs.Base.{
  ℕ, ◌+◌, ◌%◌, ◌≤◌, Bool, true, false, Option, none, some, List, [], ◌∷◌, arith, length, ℤ, pos,
  ◌==◌, if◌then◌else◌,
}
use nethogs.LocalAddr.{Family, af_inet, af_inet6, In6Addr, AddressText, LocalAddr}
use nethogs.Packet.{Direction, dir_unknown, dir_outgoing, Timeval, Packet, RawPacket}
use nethogs.Connection.{Connection}
use nethogs.Store.{Store}
use nethogs.Process.{Process}

-- Texts of one digit stand for the addresses.
abbrev pub net : AddressText
net = record {
  text = λ a. (b'0' + a % 10) ∷ [];
  text6 = λ a. b':' ∷ b':' ∷ [];
  text_length = λ a. omega arith;
  text6_length = λ a. omega arith;
}

abbrev pub raw_packet : RawPacket
raw_packet = record { raw_sip6 = []; raw_dip6 = []; raw_sip = 7; raw_dip = 7 }

abbrev pub home : LocalAddr
home = record { string = b'1' ∷ []; addr = 1; addr6 = []; sa_family = af_inet }

abbrev pub at_second : ℕ → Timeval
at_second s = record { tv_sec = s; tv_usec = 0 }

abbrev pub ipv4_packet : ℕ → ℕ → ℕ → ℕ → ℕ → ℕ → Packet
ipv4_packet sip sport dip dport len second = record {
  sip6 = [];
  dip6 = [];
  sip = sip;
  dip = dip;
  sport = sport;
  dport = dport;
  len = len;
  time = at_second second;
  dir = dir_unknown;
  sa_family = af_inet;
  hashstring = none;
}

-- A request to address 2 and its reply.
abbrev pub request : Packet
request = ipv4_packet 1 1000 2 80 100 5

abbrev pub reply : Packet
reply = ipv4_packet 2 80 1 1000 60 6

abbrev pub connection_at : ℕ → ℕ → ℕ → Connection
connection_at second sent received = record {
  refpacket = record request { dir = dir_outgoing };
  sum_sent = sent;
  sum_recv = received;
  sent_packets = [];
  recv_packets = [];
  lastpacket = pos second;
}

-- Connections 1, long silent, and 2, of late.
abbrev pub two_connections : Store
two_connections = record {
  heap = λ i.
      if i == 1
      then some (connection_at 5 100 60)
      else (if i == 2 then some (connection_at 300 40 20) else none);
  next_object = 3;
  connections = 2 ∷ 1 ∷ [];
}

abbrev pub process_at : ℕ → List ℕ → Process
process_at address connections = record {
  address = address;
  name = none;
  cmdline = none;
  devicename = [];
  pid = 0;
  sent_by_closed_bytes = 1;
  rcvd_by_closed_bytes = 2;
  connections = connections;
  inode = 0;
  uid = 0;
}
