-- ===== src/Store.antt =====
-- The connection objects and the lists that point to them: ConnList, the global `connections` and
-- the constructor and destructor of Connection (src/connection.cpp, src/process.h). An object is
-- known by its address; `heap` gives no object for one that was never made or has been deleted.
pub mod Live
use nethogs.Base.{
  ℕ, suc, ◌≡◌, Bool, true, false, Option, none, some, List, [], ◌∷◌, ◌==◌, if◌then◌else◌, Result,
  ok, fault, dangling, ◌>>=◌, or_fault,
}
use nethogs.LocalAddr.{LocalAddr}
use nethogs.Packet.{Packet, RawPacket}
use nethogs.Connection
use nethogs.Connection.{Connection}

pub record Store : Type 0 where
  pub heap : ℕ → Option Connection
  pub next_object : ℕ
  pub connections : List ℕ

abbrev pub update : (ℕ → Option Connection) → ℕ → Option Connection → ℕ → Option Connection
update heap i v j = if i == j then v else heap j

-- A pointer is followed.
unfoldable pub deref : Store → ℕ → Result Connection
deref s i = or_fault dangling (s.heap i)

abbrev pub assign : Store → ℕ → Connection → Store
assign s i c = record s { heap = update s.heap i (some c) }

-- new Connection(packet): the object puts itself at the front of `connections`.
unfoldable pub new_connection :
    List LocalAddr → RawPacket → Store → Packet → Result (ℕ × Packet × Store)
unfolding Connection.connection
new_connection local_addrs raw s packet = do
  (c, packet') ← Connection.connection local_addrs raw packet
  ok (
    s.next_object,
    packet',
    record {
      heap = update s.heap s.next_object (some c);
      next_object = suc s.next_object;
      connections = s.next_object ∷ s.connections;
    },
  )

-- The loop of ~Connection: every node that points to the object is taken out.
unfoldable pub unlink : ℕ → List ℕ → List ℕ
unlink i [] = []
unlink i (curr_conn ∷ next) =
    let rest = unlink i next in if curr_conn == i then rest else curr_conn ∷ rest

-- delete conn
unfoldable pub delete_connection : Store → ℕ → Store
unfolding unlink
delete_connection s i = record s {
  heap = update s.heap i none;
  connections = unlink i s.connections;
}

-- conn->add(packet)
unfoldable pub add_packet : List LocalAddr → Store → ℕ → Packet → Result (Packet × Store)
unfolding deref Connection.add
add_packet local_addrs s i packet = do
  c ← deref s i
  (c', packet') ← Connection.add local_addrs c packet
  ok (packet', assign s i c')
