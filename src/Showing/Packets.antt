-- ===== src/Showing/Packets.antt =====
-- A captured packet leaves every process with a name and a process id up to PID_MAX: getProcess
-- (src/process.cpp), process_tcp and process_udp (src/nethogs.cpp).
use nethogs.Base.{
  ℕ, ◌≡◌, refl, Option, none, some, List, [], ◌∷◌, All, ◌==◌, Result, ok, out_of_bounds,
  null_pointer, dangling, or_fault, Leaves, Leaves-bind, Leaves-then, Bool-cases, Option-cases, inl,
  inr,
}
use nethogs.Packet.{Packet, gethashstring}
use nethogs.Store.{deref, assign, new_connection, add_packet}
use nethogs.Process.{Process, process}
use nethogs.Inode2Prog.{PrgNode, find_pid, reread_mapping}
use nethogs.ConnInode.{refreshconninode}
use nethogs.World.{
  World, Host, ipproto_tcp, ipproto_udp, after_string, c_string, find_process, add_process,
  process_of, get_process_inode, link_connection, refreshed, process_or_none, named_process,
  get_process, find_connection, find_address,
}
use nethogs.Callbacks.{
  Bytes, DpHeader, DpArgs, make_packet, add_known, add_tcp, add_udp, found_or, receive_tcp,
  receive_udp, process_tcp, process_udp,
}
use nethogs.Cui.Line.{Fits}
use nethogs.Showing.{PidsFit, Showable, IsShowable}
use nethogs.Showing.Pids.{reread_mapping-Numbered, find_pid-Numbered}

link-Showable :
    (a i : ℕ) (ps : List Process) → All Showable ps → All Showable (link_connection a i ps)
unfolding link_connection
link-Showable a i [] s = tt
link-Showable a i (p ∷ ps) s = elim (Bool-cases (p.address == a)) [
  | inl here ↦ rw here s
  | inr there ↦ rw there (s.0, link-Showable a i ps s.1)
]

abbrev Kept : {A : Type 0} → A × World → Type 0
Kept x = IsShowable x.1

module _ (h : Host) where
  -- A process is added for a node of the table.
  add_process-Kept :
      (w : World) (inode : ℕ) (devicename : List ℕ) (node : PrgNode)
      → Fits node.pid
      → IsShowable w
      → Leaves Kept (add_process h w inode devicename node)
  unfolding add_process process
  add_process-Kept w inode devicename node f (s, n) =
      Leaves-then Kept (or_fault out_of_bounds (after_string node.cmdline)) _
        (λ text. (((c_string node.cmdline, refl, f), s), n))

  process_of-Kept :
      (w : World) (inode : ℕ) (devicename : List ℕ) (node : PrgNode)
      → Fits node.pid
      → IsShowable w
      → Leaves Kept (process_of h w inode devicename node)
  process_of-Kept w inode devicename node f s =
      elim (Option-cases (find_process node.pid w.processes)) [
        | inl new ↦
            rw (new, process_of)
              (Leaves-bind Kept Kept (add_process h w inode devicename node) _
                (add_process-Kept w inode devicename node f s) (λ x k. k))
        | inr (a, old) ↦ rw (old, process_of) s
      ]

  by_node-Kept :
      (w : World) (inode : ℕ) (devicename : List ℕ) (o : Option PrgNode)
      → ((node : PrgNode) → o ≡ some node → Fits node.pid)
      → IsShowable w
      → Leaves Kept
          (elim o [ none ↦ ok (none, w) | some node ↦ process_of h w inode devicename node ])
  by_node-Kept w inode devicename none f s = s
  by_node-Kept w inode devicename (some node) f s =
      process_of-Kept w inode devicename node (f node refl) s

  module _ (fit : PidsFit h.proc) where
    process_or_none-Kept :
        (w : World) (inode : ℕ) (devicename : List ℕ)
        → IsShowable w
        → Leaves Kept (process_or_none h w inode devicename)
    unfolding get_process_inode
    process_or_none-Kept w inode devicename (s, n) = elim (Bool-cases (inode == 0)) [
      | inl unknown ↦ rw unknown (s, n)
      | inr found ↦
          rw (found, get_process_inode)
            (Leaves-bind _ Kept (find_pid h.proc w.inodeproc inode) _
              (find_pid-Numbered h.proc w.inodeproc inode fit n)
              (λ x k.
                by_node-Kept (record w { inodeproc = x.1 }) inode devicename x.0 k.1 (s, k.0)))
    ]

    refreshed-Kept : (w : World) (key : List ℕ) → IsShowable w → Leaves Kept (refreshed h w key)
    refreshed-Kept w key (s, n) = elim (Bool-cases (w.conninode key == 0)) [
      | inl new ↦ rw new (
          Leaves-bind _ Kept (reread_mapping h.proc w.inodeproc) _
            (reread_mapping-Numbered h.proc w.inodeproc fit n)
            (λ u k.
              Leaves-then Kept
                (refreshconninode h.net h.buf h.raw_words w.local_addrs h.files w.conninode) _
                (λ t. (s, k))))
      | inr old ↦ rw old (s, n)
    ]

    -- The process of a connection without a program is named by the key, and has the id 0.
    named_process-Kept :
        (w : World) (inode : ℕ) (key : List ℕ) (o : Option ℕ)
        → IsShowable w
        → IsShowable (named_process w inode key o).1
    unfolding process
    named_process-Kept w inode key (some a) s = s
    named_process-Kept w inode key none (s, n) = (((key, refl, refl), s), n)

    get_process-Kept :
        (w : World) (connection : ℕ) (devicename : List ℕ)
        → IsShowable w
        → Leaves Kept (get_process h w connection devicename)
    unfolding get_process
    get_process-Kept w connection devicename s = Leaves-then Kept (deref w.store connection) _ (λ c.
        Leaves-then Kept (gethashstring h.net h.buf w.local_addrs c.refpacket) _ (λ k.
          let store = assign w.store connection (record c { refpacket = k.1 }) in
          Leaves-bind Kept Kept (refreshed h (record w { store = store }) k.0) _
            (refreshed-Kept (record w { store = store }) k.0 s)
            (λ x kx.
              Leaves-bind Kept Kept (process_or_none h x.1 x.0 devicename) _
                (process_or_none-Kept x.1 x.0 devicename kx)
                (λ y ky.
                  let (a, w3) = named_process y.1 x.0 k.0 y.0 in
                  let (s', n') = named_process-Kept y.1 x.0 k.0 y.0 ky in
                  (link-Showable a connection w3.processes s', n')))))

    add_known-Kept :
        (w : World) (i : ℕ) (p : Packet) → IsShowable w → Leaves IsShowable (add_known w i p)
    unfolding add_known
    add_known-Kept w i p s =
        Leaves-then IsShowable (add_packet w.local_addrs w.store i p) _ (λ x. s)

    add_tcp-Kept :
        (w : World) (device : List ℕ) (p : Packet)
        → IsShowable w
        → Leaves IsShowable (add_tcp h w device p)
    unfolding add_tcp
    add_tcp-Kept w device p s =
        Leaves-then IsShowable (new_connection w.local_addrs h.raw_packet w.store p) _ (λ x.
          Leaves-bind Kept IsShowable (get_process h (record w { store = x.2 }) x.0 device) _
            (get_process-Kept (record w { store = x.2 }) x.0 device s) (λ y k. k))

    add_udp-Kept : (w : World) (p : Packet) → IsShowable w → Leaves IsShowable (add_udp h w p)
    unfolding add_udp
    add_udp-Kept w p (s, n) =
        Leaves-then IsShowable (new_connection w.local_addrs h.raw_packet w.store p) _ (λ x.
          Leaves-then IsShowable (or_fault null_pointer w.unknownudp) _ (λ a.
            Leaves-then IsShowable (or_fault dangling (find_address a w.processes)) _
              (λ q. (link-Showable a x.0 w.processes s, n))))

    found_or-Kept :
        (w : World) (p : Packet) (new : Result World) (o : Option ℕ)
        → IsShowable w
        → Leaves IsShowable new
        → Leaves IsShowable (found_or w p new o)
    found_or-Kept w p new none s k = k
    found_or-Kept w p new (some i) s k = add_known-Kept w i p s

    pub process_tcp-Kept :
        (args : DpArgs) (header : DpHeader) (m : Bytes) (w : World)
        → IsShowable w
        → Leaves Kept (process_tcp h args header m w)
    unfolding process_tcp receive_tcp
    process_tcp-Kept args header m w s = elim (Option-cases (make_packet h args header m)) [
      | inl dropped ↦ rw (dropped, process_tcp) s
      | inr (p, made) ↦
          let w0 = record w { curtime = header.ts } in
          rw (made, process_tcp)
            (Leaves-bind IsShowable Kept (receive_tcp h w0 args.device p) _
              (Leaves-then IsShowable (find_connection h w0 p ipproto_tcp) _
                (λ x. found_or-Kept w0 x.1 _ x.0 s (add_tcp-Kept w0 args.device x.1 s)))
              (λ v k. k))
    ]

    pub process_udp-Kept :
        (args : DpArgs) (header : DpHeader) (m : Bytes) (w : World)
        → IsShowable w
        → Leaves Kept (process_udp h args header m w)
    unfolding process_udp receive_udp
    process_udp-Kept args header m w s = elim (Option-cases (make_packet h args header m)) [
      | inl dropped ↦ rw (dropped, process_udp) s
      | inr (p, made) ↦
          let w0 = record w { curtime = header.ts } in
          rw (made, process_udp)
            (Leaves-bind IsShowable Kept (receive_udp h w0 p) _
              (Leaves-then IsShowable (find_connection h w0 p ipproto_udp) _
                (λ x. found_or-Kept w0 x.1 _ x.0 s (add_udp-Kept w0 x.1 s)))
              (λ v k. k))
    ]
