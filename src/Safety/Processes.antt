-- ===== src/Safety/Processes.antt =====
-- A new connection and the process it gets: new Connection and the parts of getProcess
-- (src/connection.cpp, src/process.cpp).
use nethogs.Base.{
  ℕ, suc, refl, Option, none, some, List, [], ◌∷◌, arith, inl, inr, Bool-cases, Option-cases, ◌==◌,
  ok, or_fault, out_of_bounds,
}
use nethogs.Packet.{Packet, RawPacket, outgoing}
use nethogs.Connection.{Connection, connection}
use nethogs.Store.{Store, update, new_connection}
use nethogs.Store.Live.{Apart, IsLive-elsewhere}
use nethogs.Process.{process}
use nethogs.ConnInode.{refreshconninode}
use nethogs.Inode2Prog.{PrgNode, reread_mapping, find_pid}
use nethogs.World.{
  World, Host, get_process_inode, refreshed, find_process, process_of, process_or_none,
  named_process, add_process, after_string,
}
use nethogs.Safety.{
  Safely, Safely-bind, Anything, reread_mapping-Safely, find_pid-Safely, refreshconninode-Safely,
}
use nethogs.Safety.Invariant.{IsSafe, Below, owned}
use nethogs.Safety.Lists.{IsReady, IsReady-tables, IsReady-push}

-- Connections below the counter are apart from the next one.
Below-Apart : (n : ℕ) (is : List ℕ) → Below n is → Apart n is
Below-Apart n [] h = tt
Below-Apart n (i ∷ is) h = (omega arith, Below-Apart n is h.1)

Below-more : (n : ℕ) (is : List ℕ) → Below n is → Below (suc n) is
Below-more n [] h = tt
Below-more n (i ∷ is) h = (omega arith, Below-more n is h.1)

-- The state around a new object.
pub made-IsReady :
    (w : World) (c : Connection)
    → IsSafe w
    → IsReady w.store.next_object (record w {
      store = record {
        heap = update w.store.heap w.store.next_object (some c);
        next_object = suc w.store.next_object;
        connections = w.store.next_object ∷ w.store.connections;
      };
    })
made-IsReady w c r =
    let n = w.store.next_object in
    let free = Below-Apart n w.store.connections r.linked_below in
    let own_free = Below-Apart n (owned w.processes) r.owned_below in
    record {
      safe = record {
        addressed = r.addressed;
        linked = (
          (c, ground arith),
          IsLive-elsewhere w.store.heap n (some c) w.store.connections free r.linked,
        );
        linked_below = (omega arith, Below-more n w.store.connections r.linked_below);
        owned_live =
            IsLive-elsewhere w.store.heap n (some c) (owned w.processes) own_free r.owned_live;
        owned_below = Below-more n (owned w.processes) r.owned_below;
        owned_distinct = r.owned_distinct;
        tcp = r.tcp;
        udp = r.udp;
        ends = r.ends;
        inhabited = r.inhabited;
        catches = r.catches;
      };
      live = (c, ground arith);
      below = omega arith;
      unowned = own_free;
    }

connection-Safely :
    (raw : RawPacket) (w : World) (p : Packet)
    → IsSafe w
    → Safely Anything (connection w.local_addrs raw p)
unfolding connection outgoing
connection-Safely raw w p r = let (l, ls, e) = r.addressed in rw e tt

pub new_connection-Safely :
    (raw : RawPacket) (w : World) (p : Packet)
    → IsSafe w
    → Safely
        (λ (x : ℕ × Packet × Store). IsReady x.0 (record w { store = x.2 }))
        (new_connection w.local_addrs raw w.store p)
unfolding new_connection
new_connection-Safely raw w p r =
    Safely-bind Anything (λ (x : ℕ × Packet × Store). IsReady x.0 (record w { store = x.2 }))
      (connection w.local_addrs raw p) _ (connection-Safely raw w p r) (λ x _. made-IsReady w x.0 r)

abbrev pub Ready : {A : Type 0} → ℕ → A × World → Type 0
Ready i x = IsReady i x.1

pub refreshed-Safely :
    (h : Host) (i : ℕ) (w : World) (key : List ℕ)
    → IsReady i w
    → Safely (Ready i) (refreshed h w key)
refreshed-Safely h i w key r = elim (Bool-cases (w.conninode key == 0)) [
  | inl new ↦ rw new (
      Safely-bind Anything (Ready i) (reread_mapping h.proc w.inodeproc) _
        (reread_mapping-Safely h.proc w.inodeproc)
        (λ u _.
          Safely-bind Anything (Ready i)
            (refreshconninode h.net h.buf h.raw_words w.local_addrs h.files w.conninode) _
            (refreshconninode-Safely h.net h.buf h.raw_words w.local_addrs h.files w.conninode)
            (λ t _. IsReady-tables i w t u r)))
  | inr old ↦ rw old r
]

or_text-Safely : (o : Option (List ℕ)) → Safely Anything (or_fault out_of_bounds o)
or_text-Safely none = tt
or_text-Safely (some s) = tt

add_process-Safely :
    (h : Host) (i : ℕ) (w : World) (inode : ℕ) (devicename : List ℕ) (node : PrgNode)
    → IsReady i w
    → Safely (Ready i) (add_process h w inode devicename node)
unfolding add_process process
add_process-Safely h i w inode devicename node r =
    Safely-bind Anything (Ready i) (or_fault out_of_bounds (after_string node.cmdline)) _
      (or_text-Safely (after_string node.cmdline)) (λ text _. IsReady-push i _ w refl r)

process_of-Safely :
    (h : Host) (i : ℕ) (w : World) (inode : ℕ) (devicename : List ℕ) (node : PrgNode)
    → IsReady i w
    → Safely (Ready i) (process_of h w inode devicename node)
process_of-Safely h i w inode devicename node r =
    elim (Option-cases (find_process node.pid w.processes)) [
      | inl new ↦
          rw (new, process_of)
            (Safely-bind (Ready i) (Ready i) (add_process h w inode devicename node) _
              (add_process-Safely h i w inode devicename node r) (λ x k. k))
      | inr (a, old) ↦ rw (old, process_of) r
    ]

by_node-Safely :
    (h : Host) (i : ℕ) (w : World) (inode : ℕ) (devicename : List ℕ) (o : Option PrgNode)
    → IsReady i w
    → Safely
        (Ready i)
        (elim o [ none ↦ ok (none, w) | some node ↦ process_of h w inode devicename node ])
by_node-Safely h i w inode devicename none r = r
by_node-Safely h i w inode devicename (some node) r =
    process_of-Safely h i w inode devicename node r

get_process_inode-Safely :
    (h : Host) (i : ℕ) (w : World) (inode : ℕ) (devicename : List ℕ)
    → IsReady i w
    → Safely (Ready i) (get_process_inode h w inode devicename)
unfolding get_process_inode
get_process_inode-Safely h i w inode devicename r =
    Safely-bind Anything (Ready i) (find_pid h.proc w.inodeproc inode) _
      (find_pid-Safely h.proc w.inodeproc inode)
      (λ x _.
        by_node-Safely h i (record w { inodeproc = x.1 }) inode devicename x.0
          (IsReady-tables i w w.conninode x.1 r))

pub process_or_none-Safely :
    (h : Host) (i : ℕ) (w : World) (inode : ℕ) (devicename : List ℕ)
    → IsReady i w
    → Safely (Ready i) (process_or_none h w inode devicename)
process_or_none-Safely h i w inode devicename r = elim (Bool-cases (inode == 0)) [
  | inl unknown ↦ rw unknown r
  | inr found ↦ rw found (get_process_inode-Safely h i w inode devicename r)
]

pub named_process-IsReady :
    (i : ℕ) (w : World) (inode : ℕ) (key : List ℕ) (o : Option ℕ)
    → IsReady i w
    → IsReady i (named_process w inode key o).1
unfolding process
named_process-IsReady i w inode key (some a) r = r
named_process-IsReady i w inode key none r = IsReady-push i _ w refl r
