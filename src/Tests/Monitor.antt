-- ===== src/Tests/Monitor.antt =====
-- Trials: the callbacks, the searches and the removal of processes, in a state with two connections.
use nethogs.Base.{
  ◌≡◌, ◌<◌, ◌⊎◌, inr, refl, true, List, [], ◌∷◌, All, some, none, ok, arith, ◌==◌, if◌then◌else◌,
  length,
}
use nethogs.LocalAddr.{af_inet, contains}
use nethogs.Packet.{dir_outgoing, outgoing_by, new_inverted, copy}
use nethogs.Store.{update}
use nethogs.Process.{Process}
use nethogs.World.{World, Host, ipproto_tcp, conn_list, find_connection, find_address}
use nethogs.World.Find.{Belongs, IsOther, compared, find_connection-first}
use nethogs.Packet.Reverse.{SameEnds}
use nethogs.Connection.Accounting.{ref_of}
use nethogs.Callbacks.{Bytes, DpHeader, DpArgs, process_tcp}
use nethogs.Decpcap.{dlt_en10mb, dp_pcap_callback}
use nethogs.Capture.{open_handle}
use nethogs.Capture.Delivery.{delivered, framed, dp_pcap_callback-delivered}
use nethogs.Timeouts.{remove_timed_out_processes}
use nethogs.Timeouts.Removal.{AllLive, Drops, EndsUnknown, NoneSilent}
use nethogs.Timeouts.Sweeps.{remove_timed_out_lem, removals, removals-NoneSilent}
use nethogs.Safety.{Safely}
use nethogs.Safety.Invariant.{IsSafe, owned}
use nethogs.Safety.Packets.{SafeAfter, process_tcp-Safely}
use nethogs.Tests.{
  request, reply, raw_packet, home, net, two_connections, connection_at, process_at, at_second,
}

-- A program with connection 1, then the processes of unknown UDP and TCP, of which the first has
-- connection 2.
abbrev pub busy : World
busy = record {
  catchall = true;
  local_addrs = home ∷ [];
  store = two_connections;
  processes = process_at 2 (1 ∷ []) ∷ process_at 1 (2 ∷ []) ∷ process_at 0 [] ∷ [];
  unknowntcp = 0;
  unknownudp = some 1;
  next_process = 3;
  curtime = at_second 310;
  conninode = λ key. 0;
  inodeproc = λ inode. none;
}

abbrev pub host : Host
host = record {
  net = net;
  buf = [];
  raw_words = record { word0 = 0; word1 = 0; word2 = 0; word3 = 0 };
  raw_packet = raw_packet;
  proc = record { entries = some []; cmdline_file = λ pid. none };
  files = record { tcp = some ([] ∷ []); tcp6 = none };
  owner = λ pid. none;
}

pub busy-IsSafe : IsSafe busy
unfolding owned find_address
busy-IsSafe = record {
  addressed = (home, [], refl);
  linked = ((_, refl), ((_, refl), tt));
  linked_below = (omega arith, (omega arith, tt));
  owned_live = ((_, refl), ((_, refl), tt));
  owned_below = (omega arith, (omega arith, tt));
  owned_distinct = ((ground arith, tt), (tt, tt));
  tcp = (_, refl);
  udp = (_, refl);
  ends = refl;
  inhabited = λ e. ground arith;
  catches = (1, refl);
}

-- A frame with an IPv4 datagram from address 1 to 2 that holds a TCP segment from port 1000 to 80.
abbrev segment : Bytes
segment i = if i == 0 then 3 else (if i == 1 then 232 else (if i == 3 then 80 else 0))

abbrev pub frame : Bytes
frame i =
    if i == 12
    then 8
    else (if i == 23
        then 6
        else (if i == 26
            then 1
            else (if i == 30
                then 2
                else (if i == 34
                    then 3
                    else (if i == 35 then 232 else (if i == 37 then 80 else 0))))))

abbrev pub header : DpHeader
header = record { ts = at_second 311; len = 114 }

abbrev pub args : DpArgs
args = record {
  device = b'e' ∷ [];
  sa_family = af_inet;
  ip_src = 1;
  ip_dst = 2;
  ip6_src = [];
  ip6_dst = [];
}

process_tcp-Safely_example : Safely SafeAfter (process_tcp host args header segment busy)
process_tcp-Safely_example = process_tcp-Safely host args header segment busy busy-IsSafe

dp_pcap_callback-delivered_example :
    dp_pcap_callback (open_handle host dlt_en10mb) true header frame (args, busy)
    ≡ delivered host true header (framed dlt_en10mb frame) frame args busy
dp_pcap_callback-delivered_example =
    dp_pcap_callback-delivered host true header dlt_en10mb frame args busy

-- A connection of another port at the front, and behind it one that was made for the request.
abbrev mixed : World
mixed = record busy {
  store = record two_connections {
    heap = update two_connections.heap 3 (
        some (record (connection_at 5 100 0) {
          refpacket = record request { dir = dir_outgoing; sport = 2000 };
        }));
    connections = 3 ∷ 2 ∷ 1 ∷ [];
  };
}

reply-Belongs : Belongs home [] raw_packet reply request
unfolding outgoing_by new_inverted contains
reply-Belongs = inr (refl, (refl, refl, refl, (refl, refl)))

tcp_list : conn_list mixed ipproto_tcp ≡ ok (3 ∷ 2 ∷ 1 ∷ [])
unfolding conn_list
tcp_list = refl

others : All (IsOther (compared home [] raw_packet raw_packet reply) mixed.store.heap) (3 ∷ [])
unfolding outgoing_by new_inverted contains
others = ((_, refl, λ same. ground (arith, same)), tt)

request_ends : SameEnds (record request { dir = dir_outgoing }) (ref_of raw_packet home [] request)
unfolding outgoing_by contains copy
request_ends = (refl, refl, refl, (refl, refl))

-- The reply belongs to the second connection of the list.
find_connection-first_example :
    find_connection host mixed reply ipproto_tcp
    ≡ ok (some 2, (outgoing_by reply.dir (home ∷ []) reply).1)
find_connection-first_example =
    find_connection-first home [] raw_packet host mixed ipproto_tcp request reply (3 ∷ []) (1 ∷ [])
      2 (connection_at 300 40 20) (λ e. ground arith) reply-Belongs refl tcp_list others refl
      request_ends

remove_timed_out_lem_example :
    (r : List Process) × (remove_timed_out_processes busy ≡ ok (record busy { processes = r }))
    × Drops busy busy.processes r
    × AllLive busy r
    × EndsUnknown busy r
    × (NoneSilent busy busy.processes ⊎ (length r < length busy.processes))
remove_timed_out_lem_example =
    remove_timed_out_lem busy (((_, refl), tt), (((_, refl), tt), (tt, tt))) refl

removals-NoneSilent_example :
    (r : List Process) × (removals 3 busy ≡ ok (record busy { processes = r })) × NoneSilent busy r
removals-NoneSilent_example =
    removals-NoneSilent 3 busy (((_, refl), tt), (((_, refl), tt), (tt, tt))) refl (omega arith)
