-- ===== src/Capture.antt =====
-- The handle that both front ends set up for a device (src/main.cpp, src/libnethogs.cpp): the
-- callbacks process_ip, process_ip6, process_tcp and process_udp, over the user data and the state
-- of the monitor.
pub mod Delivery
pub mod Keeping
use nethogs.Base.{Bool, true, false, Result, ok, fault, ◌>>=◌, List, [], ◌∷◌, ℕ}
use nethogs.LocalAddr.{af_unspec}
use nethogs.World.{World, Host}
use nethogs.Callbacks.{Bytes, DpHeader, DpArgs, process_ip, process_ip6, process_tcp, process_udp}
use nethogs.Decpcap.{
  PacketType, dp_packet_ip, dp_packet_ip6, dp_packet_tcp, dp_packet_udp, Callback, LinkType,
  DpHandle, dp_fillhandle, dp_addcb, dp_pcap_callback,
}

-- The user data behind the pointer `userdata`, and all that is global.
abbrev pub Monitored : Type 0
Monitored = DpArgs × World

abbrev pub ip_callback : (DpArgs → DpHeader → Bytes → Bool × DpArgs) → Callback Monitored
ip_callback process header m_packet (args, w) =
    let (done, args') = process args header m_packet in ok (done, (args', w))

abbrev pub transport_callback :
    (DpArgs → DpHeader → Bytes → World → Result (Bool × World)) → Callback Monitored
transport_callback process header m_packet (args, w) = do
  (done, w') ← process args header m_packet w
  ok (done, (args, w'))

-- dp_open_live, then the four calls of dp_addcb.
unfoldable pub open_handle : Host → LinkType → DpHandle Monitored
unfolding dp_fillhandle dp_addcb process_ip process_ip6 process_tcp process_udp
open_handle h linktype =
    let newhandle = dp_fillhandle linktype in
    let ip = dp_addcb newhandle dp_packet_ip (ip_callback process_ip) in
    let ip6 = dp_addcb ip dp_packet_ip6 (ip_callback process_ip6) in
    let tcp = dp_addcb ip6 dp_packet_tcp (transport_callback (process_tcp h)) in
    dp_addcb tcp dp_packet_udp (transport_callback (process_udp h))

-- One packet that pcap_dispatch hands over, for a device: the user data is set anew for each call
-- of dp_dispatch, and the packets of one call share it.
unfoldable pub dispatch : Host → LinkType → List (DpHeader × Bytes) → Monitored → Result Monitored
unfolding open_handle dp_pcap_callback
dispatch h linktype [] s = ok s
dispatch h linktype (frame ∷ rest) s = do
  s' ← dp_pcap_callback (open_handle h linktype) s.1.catchall frame.0 frame.1 s
  dispatch h linktype rest s'

unfoldable pub dp_dispatch :
    Host → LinkType → List ℕ → List (DpHeader × Bytes) → Monitored → Result Monitored
unfolding dispatch
dp_dispatch h linktype devicename packets (args, w) =
    dispatch h linktype packets (record args { device = devicename; sa_family = af_unspec }, w)
