-- ===== src/Process.antt =====
-- class Process (src/process.h, src/process.cpp): a program with its connections. Text is a list of
-- bytes, and NULL is `none`; the process has an address, by which lists and pointers know it.
pub mod Totals
pub mod Sweeping
pub mod Closing
use nethogs.Base.{
  fault, null_pointer, ◌+◌, ℕ, ◌≡◌, Bool, true, false, Option, none, some, List, [], ◌∷◌,
  if◌then◌else◌, Result, ok, ◌>>=◌, ℤ, pos, leb_ℤ, ltb_ℤ, sub_ℕ, add64,
}
use nethogs.Packet.{Timeval}
use nethogs.Connection.{Connection}
use nethogs.Connection
use nethogs.Store.{Store, deref, assign, delete_connection}

pub record Process : Type 0 where
  pub address : ℕ
  pub name : Option (List ℕ)
  pub cmdline : Option (List ℕ)
  pub devicename : List ℕ
  pub pid : ℕ
  pub sent_by_closed_bytes : ℕ
  pub rcvd_by_closed_bytes : ℕ
  pub connections : List ℕ
  pub inode : ℕ
  pub uid : ℕ

-- Process(inode, devicename, name, cmdline), at an address that `new` gives.
unfoldable pub process : ℕ → ℕ → List ℕ → Option (List ℕ) → Option (List ℕ) → Process
process address m_inode m_devicename m_name m_cmdline = record {
  address = address;
  name = m_name;
  cmdline = m_cmdline;
  devicename = m_devicename;
  pid = 0;
  sent_by_closed_bytes = 0;
  rcvd_by_closed_bytes = 0;
  connections = [];
  inode = m_inode;
  uid = 0;
}

-- The loop of Process::getLastPacket.
unfoldable pub last_packet_loop : Store → List ℕ → ℤ → Result ℤ
unfolding deref
last_packet_loop s [] lastpacket = ok lastpacket
last_packet_loop s (i ∷ next) lastpacket = do
  c ← deref s i
  last_packet_loop s next (if ltb_ℤ lastpacket c.lastpacket then c.lastpacket else lastpacket)

unfoldable pub get_last_packet : Store → Process → Result ℤ
unfolding last_packet_loop
get_last_packet s p = last_packet_loop s p.connections (pos 0)

-- CONNTIMEOUT
abbrev pub conntimeout : ℕ
conntimeout = 50

-- The test by which getkbps takes a connection for stalled.
abbrev pub is_stalled : Timeval → Connection → Bool
is_stalled curtime c = leb_ℤ c.lastpacket (sub_ℕ curtime.tv_sec conntimeout)

-- What the loop of getkbps has to hand at its end.
pub record Sweep : Type 0 where
  pub store : Store
  pub kept : List ℕ
  pub sent_closed : ℕ
  pub rcvd_closed : ℕ
  pub sum_sent : ℕ
  pub sum_recv : ℕ

abbrev keep : ℕ → Result Sweep → Result Sweep
keep i r = do w ← r; ok (record w { kept = i ∷ w.kept })

-- The loop of Process::getkbps, over the nodes that are left.
unfoldable pub getkbps_loop : Timeval → List ℕ → Store → ℕ → ℕ → ℕ → ℕ → Result Sweep
unfolding deref delete_connection Connection.sumanddel
getkbps_loop curtime [] s sent_closed rcvd_closed sum_sent sum_recv = ok (record {
  store = s;
  kept = [];
  sent_closed = sent_closed;
  rcvd_closed = rcvd_closed;
  sum_sent = sum_sent;
  sum_recv = sum_recv;
})
getkbps_loop curtime (i ∷ next) s sent_closed rcvd_closed sum_sent sum_recv = do
  c ← deref s i
  elim (is_stalled curtime c) [
    | true ↦
        getkbps_loop curtime next (delete_connection s i) (add64 sent_closed c.sum_sent)
          (add64 rcvd_closed c.sum_recv) sum_sent sum_recv
    | false ↦
        let ((recv, sent), c') = Connection.sumanddel c curtime in
        keep i (
          getkbps_loop curtime next (assign s i c') sent_closed rcvd_closed (add64 sum_sent sent)
            (add64 sum_recv recv))
  ]

abbrev pub after_sweep : Process → Sweep → (ℕ × ℕ) × Process × Store
after_sweep p w = (
  (w.sum_recv, w.sum_sent),
  record p {
    sent_by_closed_bytes = w.sent_closed;
    rcvd_by_closed_bytes = w.rcvd_closed;
    connections = w.kept;
  },
  w.store,
)

-- Process::getkbps: the bytes received and sent in the last period, which tokbps then divides.
unfoldable pub getkbps : Timeval → Store → Process → Result ((ℕ × ℕ) × Process × Store)
unfolding getkbps_loop
getkbps curtime s p = do
  w ← getkbps_loop curtime p.connections s p.sent_by_closed_bytes p.rcvd_by_closed_bytes 0 0
  ok (after_sweep p w)

-- The loop of Process::gettotal.
unfoldable pub gettotal_loop : Store → List ℕ → ℕ → ℕ → Result (ℕ × ℕ)
unfolding deref
gettotal_loop s [] sum_sent sum_recv = ok (sum_recv, sum_sent)
gettotal_loop s (i ∷ next) sum_sent sum_recv = do
  conn ← deref s i
  gettotal_loop s next (add64 sum_sent conn.sum_sent) (add64 sum_recv conn.sum_recv)

-- Process::gettotal: the bytes received and sent.
unfoldable pub gettotal : Store → Process → Result (ℕ × ℕ)
unfolding gettotal_loop
gettotal s p = do
  (sum_recv, sum_sent) ← gettotal_loop s p.connections 0 0
  ok (add64 sum_recv p.rcvd_by_closed_bytes, add64 sum_sent p.sent_by_closed_bytes)

-- ProcList::size; the list is a pointer to its first node.
unfoldable pub size : List Process → Result ℕ
size [] = fault null_pointer
size (p ∷ []) = ok 1
size (p ∷ q ∷ next) = do i ← size (q ∷ next); ok (1 + i)
