-- ===== src/Decpcap.antt =====
-- decpcap (src/decpcap.h, src/decpcap.c): the headers of a captured packet are taken off one by
-- one, and the callbacks of a handle are called on the way. The user data and all that callbacks
-- change are one state `S`.
use nethogs.Base.{ℕ, Bool, Option, none, some, ◌==◌, if◌then◌else◌, Result, ok, ◌>>=◌}
use nethogs.Callbacks.{Bytes, advance, ntohs_at, DpHeader}

pub data PacketType : Type 0 where
  dp_packet_ethernet dp_packet_ppp dp_packet_sll dp_packet_ip dp_packet_ip6 dp_packet_tcp
        dp_packet_udp :
      PacketType

abbrev pub Callback : Type 0 → Type 0
Callback S = DpHeader → Bytes → S → Result (Bool × S)

-- The link types of libpcap that the code names: DLT_EN10MB, DLT_PPP, DLT_LINUX_SLL, DLT_RAW and
-- DLT_NULL; every other is `dlt_other`.
pub data LinkType : Type 0 where
  dlt_en10mb dlt_ppp dlt_linux_sll dlt_raw dlt_null dlt_other : LinkType

pub record DpHandle (S : Type 0) : Type 0 where
  pub callback : PacketType → Option (Callback S)
  pub linktype : LinkType

-- dp_fillhandle: no callbacks; the link type is what pcap_datalink gives.
unfoldable pub dp_fillhandle : {S : Type 0} → LinkType → DpHandle S
dp_fillhandle linktype = record { callback = λ _. none; linktype = linktype }

abbrev pub type_index : PacketType → ℕ
type_index dp_packet_ethernet = 0
type_index dp_packet_ppp = 1
type_index dp_packet_sll = 2
type_index dp_packet_ip = 3
type_index dp_packet_ip6 = 4
type_index dp_packet_tcp = 5
type_index dp_packet_udp = 6

-- dp_addcb
unfoldable pub dp_addcb : {S : Type 0} → DpHandle S → PacketType → Callback S → DpHandle S
dp_addcb handle type callback = record handle {
  callback = λ t. if type_index t == type_index type then some callback else handle.callback t;
}

module _ {S : Type 0} (handle : DpHandle S) (catchall : Bool) (header : DpHeader) where
  -- The callback of a type, if there is one; `next` is what follows if it is not done.
  unfoldable pub call : PacketType → Bytes → (S → Result S) → S → Result S
  call type packet next s = elim (handle.callback type) [
    | none ↦ next s
    | some callback ↦ do
      (done, s') ← callback header packet s
      let rest = next s'
      if done then ok s' else rest
  ]

  unfoldable pub dp_parse_tcp : Bytes → S → Result S
  unfolding call
  dp_parse_tcp packet = call dp_packet_tcp packet ok

  unfoldable pub dp_parse_udp : Bytes → S → Result S
  unfolding call
  dp_parse_udp packet = call dp_packet_udp packet ok

  -- The switch on the protocol: IPPROTO_TCP is 6, IPPROTO_UDP 17.
  unfoldable pub dp_parse_transport : ℕ → Bytes → S → Result S
  unfolding dp_parse_tcp dp_parse_udp
  dp_parse_transport protocol payload s =
      if protocol == 6
      then dp_parse_tcp payload s
      else (if protocol == 17 then (if catchall then dp_parse_udp payload s else ok s) else ok s)

  -- dp_parse_ip: the protocol stands at 9; struct ip has 20 bytes, whatever ip_hl says.
  unfoldable pub dp_parse_ip : Bytes → S → Result S
  unfolding call dp_parse_transport
  dp_parse_ip packet = call dp_packet_ip packet (dp_parse_transport (packet 9) (advance 20 packet))

  -- dp_parse_ip6: the next header stands at 6; struct ip6_hdr has 40 bytes.
  unfoldable pub dp_parse_ip6 : Bytes → S → Result S
  unfolding call dp_parse_transport
  dp_parse_ip6 packet =
      call dp_packet_ip6 packet (dp_parse_transport (packet 6) (advance 40 packet))

  -- The switch on the protocol of a link layer: ETHERTYPE_IP, ETHERTYPE_IPV6.
  unfoldable pub dp_parse_network : ℕ → Bytes → S → Result S
  unfolding dp_parse_ip dp_parse_ip6
  dp_parse_network protocol payload s =
      if protocol == 0x0800
      then dp_parse_ip payload s
      else (if protocol == 0x86dd then dp_parse_ip6 payload s else ok s)

  -- struct ether_header has 14 bytes, its type at 12.
  unfoldable pub dp_parse_ethernet : Bytes → S → Result S
  unfolding call dp_parse_network
  dp_parse_ethernet packet =
      call dp_packet_ethernet packet (dp_parse_network (ntohs_at packet 12) (advance 14 packet))

  -- struct ppp_header has 16 bytes, its type at 14.
  unfoldable pub dp_parse_ppp : Bytes → S → Result S
  unfolding call dp_parse_network
  dp_parse_ppp packet =
      call dp_packet_ppp packet (dp_parse_network (ntohs_at packet 14) (advance 16 packet))

  -- struct sll_header has 16 bytes, its protocol at 14.
  unfoldable pub dp_parse_linux_cooked : Bytes → S → Result S
  unfolding call dp_parse_network
  dp_parse_linux_cooked packet =
      call dp_packet_sll packet (dp_parse_network (ntohs_at packet 14) (advance 16 packet))

  -- The switch of dp_pcap_callback. The copy of the user data that it makes is not used.
  unfoldable pub dp_pcap_callback : Bytes → S → Result S
  unfolding dp_parse_ethernet dp_parse_ppp dp_parse_linux_cooked dp_parse_ip
  dp_pcap_callback packet s = elim handle.linktype [
    | dlt_en10mb ↦ dp_parse_ethernet packet s
    | dlt_ppp ↦ dp_parse_ppp packet s
    | dlt_linux_sll ↦ dp_parse_linux_cooked packet s
    | dlt_raw ↦ dp_parse_ip packet s
    | dlt_null ↦ dp_parse_ip packet s
    | dlt_other ↦ ok s
  ]
