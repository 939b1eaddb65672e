-- ===== src/Safety/Lists.antt =====
-- The invariant when the list of processes gets a process or a process gets a connection
-- (getProcess in src/process.cpp).
use nethogs.Base.{
  ℕ, ◌<◌, ◌≡◌, ◌≢◌, refl, Option, none, some, List, [], ◌∷◌, arith, inl, inr, Bool-cases, ◌==◌,
}
use nethogs.Connection.{Connection}
use nethogs.Store.{assign}
use nethogs.Store.Live.{IsLive, Apart, IsLive-assigned}
use nethogs.Process.{Process}
use nethogs.ConnInode.{ConnTable}
use nethogs.Inode2Prog.{InodeProc}
use nethogs.World.{World, find_address, link_connection, push_process}
use nethogs.Timeouts.Removal.{EndsUnknown}
use nethogs.Safety.Invariant.{IsSafe, Listed, owned, owned-link, Distinct-link}

-- The state is safe, and the connection at the address is live and in no process yet.
pub record IsReady (i : ℕ) (w : World) : Type 0 where
  pub safe : IsSafe w
  pub live : IsLive w.store.heap i
  pub below : i < w.store.next_object
  pub unowned : Apart i (owned w.processes)

pub IsReady-tables :
    (i : ℕ) (w : World) (t : ConnTable) (u : InodeProc)
    → IsReady i w
    → IsReady i (record w { conninode = t; inodeproc = u })
IsReady-tables i w t u r = record {
  safe = record {
    addressed = r.safe.addressed;
    linked = r.safe.linked;
    linked_below = r.safe.linked_below;
    owned_live = r.safe.owned_live;
    owned_below = r.safe.owned_below;
    owned_distinct = r.safe.owned_distinct;
    tcp = r.safe.tcp;
    udp = r.safe.udp;
    ends = r.safe.ends;
    inhabited = r.safe.inhabited;
    catches = r.safe.catches;
  };
  live = r.live;
  below = r.below;
  unowned = r.unowned;
}

pub IsSafe-assign :
    (i : ℕ) (c : Connection) (w : World)
    → IsSafe w
    → IsSafe (record w { store = assign w.store i c })
IsSafe-assign i c w r = record {
  addressed = r.addressed;
  linked = IsLive-assigned w.store.heap i c w.store.connections r.linked;
  linked_below = r.linked_below;
  owned_live = IsLive-assigned w.store.heap i c (owned w.processes) r.owned_live;
  owned_below = r.owned_below;
  owned_distinct = r.owned_distinct;
  tcp = r.tcp;
  udp = r.udp;
  ends = r.ends;
  inhabited = r.inhabited;
  catches = r.catches;
}

pub IsReady-assign :
    (i : ℕ) (c : Connection) (w : World)
    → IsReady i w
    → IsReady i (record w { store = assign w.store i c })
IsReady-assign i c w r = record {
  safe = IsSafe-assign i c w r.safe;
  live = (c, ground arith);
  below = r.below;
  unowned = r.unowned;
}

Listed-push : (o : Option ℕ) (p : Process) (ps : List Process) → Listed o ps → Listed o (p ∷ ps)
unfolding find_address
Listed-push none p ps h = tt
Listed-push (some a) p ps h = elim (Bool-cases (p.address == a)) [
  | inl here ↦ (p, rw here)
  | inr there ↦ (h.0, rw there h.1)
]

ends-push :
    (w : World) (p : Process) (ps : List Process)
    → ps ≢ []
    → EndsUnknown w ps
    → EndsUnknown w (p ∷ ps)
ends-push w p [] n e = absurd (n refl)
ends-push w p (q ∷ ps) n e = e

pub IsReady-push :
    (i : ℕ) (p : Process) (w : World)
    → p.connections ≡ []
    → IsReady i w
    → IsReady i (push_process w p)
unfolding owned
IsReady-push i p w e r = record {
  safe = record {
    addressed = r.safe.addressed;
    linked = r.safe.linked;
    linked_below = r.safe.linked_below;
    owned_live = rw e r.safe.owned_live;
    owned_below = rw e r.safe.owned_below;
    owned_distinct = rw e r.safe.owned_distinct;
    tcp = Listed-push (some w.unknowntcp) p w.processes r.safe.tcp;
    udp = Listed-push w.unknownudp p w.processes r.safe.udp;
    ends = ends-push w p w.processes r.safe.inhabited r.safe.ends;
    inhabited = λ h. cc;
    catches = r.safe.catches;
  };
  live = r.live;
  below = r.below;
  unowned = rw e r.unowned;
}

address_link :
    (b a i : ℕ) (ps : List Process)
    → (p : Process) × (find_address b ps ≡ some p)
    → (p : Process) × (find_address b (link_connection a i ps) ≡ some p)
unfolding find_address link_connection
address_link b a i [] h = h
address_link b a i (p ∷ ps) h = elim (Bool-cases (p.address == a)) [
  | inl fits ↦ elim (Bool-cases (p.address == b)) [
    | inl here ↦ (record p { connections = i ∷ p.connections }, rw (fits, here))
    | inr there ↦ (h.0, rw (fits, there) (rw there at h.1))
  ]
  | inr other ↦ elim (Bool-cases (p.address == b)) [
    | inl here ↦ (p, rw (other, here))
    | inr there ↦
        let (q, e) = address_link b a i ps (h.0, rw there at h.1) in (q, rw (other, there) e)
  ]
]

Listed-link :
    (o : Option ℕ) (a i : ℕ) (ps : List Process) → Listed o ps → Listed o (link_connection a i ps)
Listed-link none a i ps h = tt
Listed-link (some b) a i ps h = address_link b a i ps h

ends-link :
    (w : World) (a i : ℕ) (ps : List Process)
    → EndsUnknown w ps
    → EndsUnknown w (link_connection a i ps)
unfolding link_connection
ends-link w a i [] e = tt
ends-link w a i (p ∷ []) e = ground arith
ends-link w a i (p ∷ q ∷ ps) e =
    let ih = ends-link w a i (q ∷ ps) e in
    elim (Bool-cases (p.address == a)) [
      | inl here ↦ rw here e
      | inr there ↦ elim (Bool-cases (q.address == a)) [
        | inl next ↦ rw (there, next) (rw next at ih)
        | inr later ↦ rw (there, later) (rw later at ih)
      ]
    ]

link-inhabited : (a i : ℕ) (ps : List Process) → ps ≢ [] → link_connection a i ps ≢ []
unfolding link_connection
link-inhabited a i [] n = n
link-inhabited a i (p ∷ ps) n = λ h. ground arith

pub IsSafe-link :
    (a i : ℕ) (w : World)
    → IsReady i w
    → IsSafe (record w { processes = link_connection a i w.processes })
IsSafe-link a i w r = record {
  addressed = r.safe.addressed;
  linked = r.safe.linked;
  linked_below = r.safe.linked_below;
  owned_live = owned-link (IsLive w.store.heap) a i w.processes r.live r.safe.owned_live;
  owned_below =
      owned-link (λ j. j < w.store.next_object) a i w.processes r.below r.safe.owned_below;
  owned_distinct = Distinct-link a i w.processes r.unowned r.safe.owned_distinct;
  tcp = Listed-link (some w.unknowntcp) a i w.processes r.safe.tcp;
  udp = Listed-link w.unknownudp a i w.processes r.safe.udp;
  ends = ends-link w a i w.processes r.safe.ends;
  inhabited = link-inhabited a i w.processes r.safe.inhabited;
  catches = r.safe.catches;
}
