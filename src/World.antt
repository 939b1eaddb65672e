-- ===== src/World.antt =====
-- The state of the monitor, the searches for a connection (src/connection.cpp) and both getProcess
-- (src/process.cpp). REVERSEHACK and DEBUG are 0.
pub mod Find
use nethogs.Base.{
  ℕ, suc, ◌+◌, ◌≡◌, Bool, true, false, not, Option, none, some, List, [], ◌∷◌, ◌==◌, if◌then◌else◌,
  Result, ok, fault, Fault, assertion, null_pointer, dangling, out_of_bounds, ◌>>=◌, ◌>>◌, guard,
  or_fault,
}
use nethogs.LocalAddr.{AddressText, LocalAddr, Family, af_unspec, af_inet, af_inet6, In6Addr}
use nethogs.Packet.{
  Packet, RawPacket, Timeval, packet, packet6, dir_unknown, new_inverted, outgoing, match,
  match_source, gethashstring,
}
use nethogs.Connection.{Connection}
use nethogs.Store.{Store, deref, assign, new_connection, add_packet}
use nethogs.Process.{Process, process}
use nethogs.Inode2Prog.{ProcFs, PrgNode, InodeProc, find_pid, reread_mapping}
use nethogs.ConnInode.{ConnTable, Words, ProcNet, refreshconninode}

pub record World : Type 0 where
  pub catchall : Bool
  pub local_addrs : List LocalAddr
  pub store : Store
  pub processes : List Process
  pub unknowntcp : ℕ
  pub unknownudp : Option ℕ
  pub next_process : ℕ
  pub curtime : Timeval
  pub conninode : ConnTable
  pub inodeproc : InodeProc

-- The globals before the program has begun: the lists and tables are empty, and the pointers NULL.
abbrev pub initial_world : World
initial_world = record {
  catchall = false;
  local_addrs = [];
  store = record { heap = λ i. none; next_object = 0; connections = [] };
  processes = [];
  unknowntcp = 0;
  unknownudp = none;
  next_process = 0;
  curtime = record { tv_sec = 0; tv_usec = 0 };
  conninode = λ key. 0;
  inodeproc = λ inode. none;
}

-- What a call finds outside the program: the C library's texts, the files of /proc, the owner that
-- stat gives for /proc/<pid>, and what memory holds before it is written.
pub record Host : Type 0 where
  pub net : AddressText
  pub buf : List ℕ
  pub raw_words : Words
  pub raw_packet : RawPacket
  pub proc : ProcFs
  pub files : ProcNet
  pub owner : ℕ → Option ℕ

-- The protocol numbers that findConnection tells apart.
pub data IpProto : Type 0 where
  ipproto_tcp ipproto_udp ipproto_other : IpProto

unfoldable pub find_address : ℕ → List Process → Option Process
find_address a [] = none
find_address a (p ∷ ps) = if p.address == a then some p else find_address a ps

-- The list that a search walks: of TCP all connections, of UDP those of the process unknownudp.
unfoldable pub conn_list : World → IpProto → Result (List ℕ)
conn_list w ipproto_tcp = ok w.store.connections
conn_list w ipproto_udp = do
  a ← or_fault null_pointer w.unknownudp
  p ← or_fault dangling (find_address a w.processes)
  ok p.connections
conn_list w ipproto_other = ok []

-- The first connection whose reference packet passes the test.
unfoldable pub find_by : (Packet → Bool) → Store → List ℕ → Result (Option ℕ)
unfolding deref
find_by test s [] = ok none
find_by test s (i ∷ next) = do
  c ← deref s i
  let rest = find_by test s next
  if test c.refpacket then ok (some i) else rest

-- findConnectionWithMatchingSource
unfoldable pub find_source : World → Packet → IpProto → Result (Option ℕ)
unfolding conn_list find_by outgoing match_source
find_source w packet packettype = do
  (out, packet') ← outgoing w.local_addrs packet
  guard out assertion
  current ← conn_list w packettype
  find_by (match_source packet') w.store current

-- findConnectionWithMatchingRefpacketOrSource
unfoldable pub find_ref_or_source : World → Packet → IpProto → Result (Option ℕ)
unfolding conn_list find_by find_source match
find_ref_or_source w packet packettype = do
  current ← conn_list w packettype
  found ← find_by (match packet) w.store current
  elim found [ some i ↦ ok (some i) | none ↦ find_source w packet packettype ]

-- findConnection, and the packet with its direction.
unfoldable pub find_connection : Host → World → Packet → IpProto → Result (Option ℕ × Packet)
unfolding find_ref_or_source new_inverted
find_connection h w packet packettype = do
  (out, packet') ← outgoing w.local_addrs packet
  found ←
      find_ref_or_source w (if out then packet' else new_inverted h.raw_packet packet') packettype
  ok (found, packet')

-- findProcess(prg_node *): the first process with the pid.
unfoldable pub find_process : ℕ → List Process → Option ℕ
find_process pid [] = none
find_process pid (p ∷ ps) = if pid == p.pid then some p.address else find_process pid ps

-- The text at the start of a buffer, up to its null.
unfoldable pub c_string : List ℕ → List ℕ
c_string [] = []
c_string (c ∷ s) = let rest = c ∷ c_string s in if c == 0 then [] else rest

-- The text one past the null of the first: prgname + strlen(prgname) + 1. Without a null in the
-- string that is past its terminator.
unfoldable pub after_string : List ℕ → Option (List ℕ)
unfolding c_string
after_string [] = none
after_string (c ∷ s) = let rest = after_string s in if c == 0 then some (c_string s) else rest

-- setUid with the owner of /proc/<pid>, or 0.
abbrev pub or_root : Option ℕ → ℕ
or_root none = 0
or_root (some uid) = uid

abbrev pub push_process : World → Process → World
push_process w p = record w { processes = p ∷ w.processes; next_process = suc w.next_process }

-- The last part of getProcess(inode, devicename): the process for a program that has none yet.
unfoldable pub add_process : Host → World → ℕ → List ℕ → PrgNode → Result (ℕ × World)
unfolding c_string after_string process
add_process h w inode devicename node = do
  cmdline ← or_fault out_of_bounds (after_string node.cmdline)
  let made = process w.next_process inode devicename (some (c_string node.cmdline)) (some cmdline)
  let newproc = record made { pid = node.pid; uid = or_root (h.owner node.pid) }
  ok (w.next_process, push_process w newproc)

abbrev pub process_of : Host → World → ℕ → List ℕ → PrgNode → Result (Option ℕ × World)
process_of h w inode devicename node = elim (find_process node.pid w.processes) [
  | some a ↦ ok (some a, w)
  | none ↦ do (a, w') ← add_process h w inode devicename node; ok (some a, w')
]

-- getProcess(unsigned long inode, const char *devicename)
unfoldable pub get_process_inode : Host → World → ℕ → List ℕ → Result (Option ℕ × World)
unfolding find_pid find_process add_process
get_process_inode h w inode devicename = do
  (found, inodeproc') ← find_pid h.proc w.inodeproc inode
  let w' = record w { inodeproc = inodeproc' }
  elim found [ none ↦ ok (none, w') | some node ↦ process_of h w' inode devicename node ]

-- proc->connections = new ConnList(connection, proc->connections)
unfoldable pub link_connection : ℕ → ℕ → List Process → List Process
link_connection a i [] = []
link_connection a i (p ∷ ps) =
    if p.address == a
    then record p { connections = i ∷ p.connections } ∷ ps
    else p ∷ link_connection a i ps

-- The tables as getProcess has them after its first look at the connection table.
abbrev pub refreshed : Host → World → List ℕ → Result (ℕ × World)
refreshed h w key =
    if w.conninode key == 0
    then (do
      inodeproc' ← reread_mapping h.proc w.inodeproc
      conninode' ← refreshconninode h.net h.buf h.raw_words w.local_addrs h.files w.conninode
      ok (conninode' key, record w { inodeproc = inodeproc'; conninode = conninode' }))
    else ok (w.conninode key, w)

abbrev pub process_or_none : Host → World → ℕ → List ℕ → Result (Option ℕ × World)
process_or_none h w inode devicename =
    if inode == 0 then ok (none, w) else get_process_inode h w inode devicename

-- The process that a connection without a program gets: one of its own, named by its key.
abbrev pub named_process : World → ℕ → List ℕ → Option ℕ → ℕ × World
named_process w inode key (some a) = (a, w)
named_process w inode key none =
    (w.next_process, push_process w (process w.next_process inode [] (some key) none))

-- getProcess(Connection *connection, const char *devicename)
unfoldable pub get_process : Host → World → ℕ → List ℕ → Result (ℕ × World)
unfolding deref gethashstring get_process_inode link_connection reread_mapping refreshconninode
    process
get_process h w connection devicename = do
  c ← deref w.store connection
  (key, refpacket') ← gethashstring h.net h.buf w.local_addrs c.refpacket
  let w0 = record w { store = assign w.store connection (record c { refpacket = refpacket' }) }
  (inode, w1) ← refreshed h w0 key
  (proc, w2) ← process_or_none h w1 inode devicename
  let (a, w3) = named_process w2 inode key proc
  ok (a, record w3 { processes = link_connection a connection w3.processes })
