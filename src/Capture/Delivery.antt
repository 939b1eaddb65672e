-- ===== src/Capture/Delivery.antt =====
-- What the parser and the callbacks together make of a captured frame (src/decpcap.c,
-- src/nethogs.cpp).
use nethogs.Base.{
  ℕ, ◌≡◌, refl, Bool, true, false, Option, none, some, ◌==◌, if◌then◌else◌, Result, ok, fault,
  ◌>>=◌, Bool-cases, inl, inr,
}
use nethogs.World.{World, Host}
use nethogs.Callbacks.{
  Bytes, advance, ntohs_at, DpHeader, DpArgs, process_ip, process_ip6, process_tcp, process_udp,
}
use nethogs.Decpcap.{
  LinkType, dlt_en10mb, dlt_ppp, dlt_linux_sll, dlt_raw, dlt_null, dlt_other, dp_pcap_callback,
  call, dp_parse_tcp, dp_parse_udp, dp_parse_transport, dp_parse_ip, dp_parse_ip6, dp_parse_network,
  dp_parse_ethernet, dp_parse_ppp, dp_parse_linux_cooked, dp_addcb, dp_fillhandle,
}
use nethogs.Capture.{Monitored, open_handle}

-- The type of network protocol that a frame carries, and where its datagram starts.
unfoldable pub framed : LinkType → Bytes → Option (ℕ × ℕ)
framed dlt_en10mb m = some (ntohs_at m 12, 14)
framed dlt_ppp m = some (ntohs_at m 14, 16)
framed dlt_linux_sll m = some (ntohs_at m 14, 16)
framed dlt_raw m = some (0x0800, 0)
framed dlt_null m = some (0x0800, 0)
framed dlt_other m = none

abbrev keep_args : DpArgs → Bool × World → Result Monitored
keep_args args x = ok (args, x.1)

-- TCP is received, UDP only with `catchall`, and nothing else.
unfoldable pub received : Host → Bool → DpHeader → ℕ → Bytes → DpArgs → World → Result Monitored
received h catchall header protocol segment args w =
    if protocol == 6
    then process_tcp h args header segment w >>= keep_args args
    else (if protocol == 17
        then (if catchall
            then process_udp h args header segment w >>= keep_args args
            else ok (args, w))
        else ok (args, w))

-- The whole of a frame: an IPv4 datagram with a header of 20 bytes, an IPv6 datagram with one of
-- 40, or nothing.
unfoldable pub delivered :
    Host → Bool → DpHeader → Option (ℕ × ℕ) → Bytes → DpArgs → World → Result Monitored
delivered h catchall header none m args w = ok (args, w)
delivered h catchall header (some (type, at)) m args w =
    let ip = advance at m in
    if type == 0x0800
    then received h catchall header (ip 9) (advance 20 ip) (process_ip args header ip).1 w
    else (if type == 0x86dd
        then received h catchall header (ip 6) (advance 40 ip) (process_ip6 args header ip).1 w
        else ok (args, w))

module _ (h : Host) (catchall : Bool) (header : DpHeader) (linktype : LinkType) where
  -- The answer of the last callback is not looked at.
  last_answer :
      (m : Result (Bool × World)) (args : DpArgs)
      → ◌>>=◌ {A = Bool × Monitored}
          (◌>>=◌ {A = Bool × World} m (λ x. ok (x.0, (args, x.1))))
          (λ y. if y.0 then ok y.1 else ok y.1)
        ≡ ◌>>=◌ {A = Bool × World} m (λ x. ok (args, x.1))
  last_answer (ok (true, w)) args = refl
  last_answer (ok (false, w)) args = refl
  last_answer (fault e) args = refl

  transport :
      (protocol : ℕ) (m : Bytes) (args : DpArgs) (w : World)
      → dp_parse_transport (open_handle h linktype) catchall header protocol m (args, w)
        ≡ received h catchall header protocol m args w
  unfolding dp_parse_transport dp_parse_tcp dp_parse_udp call open_handle dp_addcb dp_fillhandle
      received
  transport protocol m args w = elim (Bool-cases (protocol == 6)) [
    | inl tcp ↦ rw tcp (last_answer (process_tcp h args header m w) args)
    | inr other ↦ elim (Bool-cases (protocol == 17)) [
      | inl udp ↦ elim (Bool-cases catchall) [
        | inl all ↦ rw (other, udp, all) (last_answer (process_udp h args header m w) args)
        | inr tcp_only ↦ rw (other, udp, tcp_only) refl
      ]
      | inr unknown ↦ rw (other, unknown) refl
    ]
  ]

  network :
      (type : ℕ) (at : ℕ) (m : Bytes) (args : DpArgs) (w : World)
      → dp_parse_network (open_handle h linktype) catchall header type (advance at m) (args, w)
        ≡ delivered h catchall header (some (type, at)) m args w
  unfolding dp_parse_network dp_parse_ip dp_parse_ip6 call open_handle dp_addcb dp_fillhandle
      delivered
  network type at m args w = elim (Bool-cases (type == 0x0800)) [
    | inl v4 ↦ rw v4 (transport _ _ _ w)
    | inr other ↦ elim (Bool-cases (type == 0x86dd)) [
      | inl v6 ↦ rw (other, v6) (transport _ _ _ w)
      | inr unknown ↦ rw (other, unknown) refl
    ]
  ]

  raw_ip :
      (m : Bytes) (args : DpArgs) (w : World)
      → dp_parse_ip (open_handle h linktype) catchall header m (args, w)
        ≡ delivered h catchall header (some (0x0800, 0)) m args w
  unfolding dp_parse_ip call open_handle dp_addcb dp_fillhandle delivered received
  raw_ip m args w = transport (m 9) (advance 20 m) (process_ip args header m).1 w

  ethernet :
      (m : Bytes) (args : DpArgs) (w : World)
      → dp_parse_ethernet (open_handle h linktype) catchall header m (args, w)
        ≡ delivered h catchall header (some (ntohs_at m 12, 14)) m args w
  unfolding dp_parse_ethernet call open_handle dp_addcb dp_fillhandle
  ethernet m args w = network (ntohs_at m 12) 14 m args w

  ppp :
      (m : Bytes) (args : DpArgs) (w : World)
      → dp_parse_ppp (open_handle h linktype) catchall header m (args, w)
        ≡ delivered h catchall header (some (ntohs_at m 14, 16)) m args w
  unfolding dp_parse_ppp call open_handle dp_addcb dp_fillhandle
  ppp m args w = network (ntohs_at m 14) 16 m args w

  linux_cooked :
      (m : Bytes) (args : DpArgs) (w : World)
      → dp_parse_linux_cooked (open_handle h linktype) catchall header m (args, w)
        ≡ delivered h catchall header (some (ntohs_at m 14, 16)) m args w
  unfolding dp_parse_linux_cooked call open_handle dp_addcb dp_fillhandle
  linux_cooked m args w = network (ntohs_at m 14) 16 m args w

-- What comes of a frame is read off a table: where its datagram starts, by the link type; which
-- addresses are noted, by the version; and which segment process_tcp or process_udp gets.
pub dp_pcap_callback-delivered :
    (h : Host) (catchall : Bool) (header : DpHeader) (linktype : LinkType) (m : Bytes)
    (args : DpArgs) (w : World)
    → dp_pcap_callback (open_handle h linktype) catchall header m (args, w)
      ≡ delivered h catchall header (framed linktype m) m args w
unfolding dp_pcap_callback delivered framed open_handle
dp_pcap_callback-delivered h catchall header dlt_en10mb m args w =
    ethernet h catchall header dlt_en10mb m args w
dp_pcap_callback-delivered h catchall header dlt_ppp m args w =
    ppp h catchall header dlt_ppp m args w
dp_pcap_callback-delivered h catchall header dlt_linux_sll m args w =
    linux_cooked h catchall header dlt_linux_sll m args w
dp_pcap_callback-delivered h catchall header dlt_raw m args w =
    raw_ip h catchall header dlt_raw m args w
dp_pcap_callback-delivered h catchall header dlt_null m args w =
    raw_ip h catchall header dlt_null m args w
dp_pcap_callback-delivered h catchall header dlt_other m args w = refl
