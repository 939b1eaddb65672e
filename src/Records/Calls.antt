-- ===== src/Records/Calls.antt =====
-- The calls of a refresh, heard by a client (nethogsmonitor_handle_update, src/libnethogs.cpp).
use nethogs.Base.{
  ℕ, ◌+◌, ◌≤◌, ◌<◌, ◌^◌, ◌≡◌, false, none, some, List, [], ◌∷◌, ◌++◌, arith, ok, length,
  length-append, inl, inr, Bool-cases, Option-cases, refl, Option,
}
use nethogs.Store.{Store}
use nethogs.Process.{Process}
use nethogs.ConnInode.{ConnTable}
use nethogs.World.{Host}
use nethogs.Safety.Invariant.{IsSafe}
use nethogs.Records.{
  Library, NethogsMonitorRecord, NethogsRecordMap, put, Action, notify, new_record, update_fields,
  is_changed, update_record, handle_update,
}
use nethogs.Records.Visits.{Visit, gone, seen, visit, visits, Covers}
use nethogs.Records.Refresh.{TableRead, handle_update-Walked}
use nethogs.Records.Client.{
  Client, listen, listen_all, reported, Mirrors, absent, made, erased, changed, unchanged,
}

pub listen_all-append :
    (calls more : List Action) (c : Client)
    → listen_all (calls ++ more) c ≡ listen_all more (listen_all calls c)
unfolding listen_all
listen_all-append [] more c = refl
listen_all-append (a ∷ calls) more c = listen_all-append calls more (listen a c)

not_changed :
    (p : Process) (total kbs : ℕ × ℕ) (e : NethogsMonitorRecord)
    → is_changed e (update_fields p total kbs e) ≡ false
    → reported e ≡ reported (update_fields p total kbs e)
unfolding is_changed update_fields
not_changed p total kbs e h = ground arith

seen-Mirrors :
    (p : Process) (total kbs : ℕ × ℕ) (m : NethogsRecordMap) (n : ℕ) (c : Client)
    (o : Option NethogsMonitorRecord)
    → m p.address ≡ o
    → Mirrors m n c
    → let (e, n', data_change) = update_record p total kbs n o in
      n + length (notify data_change e) < 2 ^ 31
      → Mirrors (put m p.address (some e)) n' (listen_all (notify data_change e) c)
        × (n' ≤ n + length (notify data_change e))
unfolding update_record new_record update_fields listen_all
seen-Mirrors p total kbs m n c none f r below =
    let e = (update_record p total kbs n none).0 in
    (made m n p.address c e r f (omega arith), omega arith)
seen-Mirrors p total kbs m n c (some old) f r below =
    let e = update_fields p total kbs old in
    elim (Bool-cases (is_changed old e)) [
      | inl yes' ↦ (rw yes' (changed m n p.address c old e r f refl), rw yes' (omega arith))
      | inr no' ↦ (
        rw no' (unchanged m n p.address c old e r f refl (not_changed p total kbs old no')),
        rw no' (omega arith),
      )
    ]

visit-Mirrors :
    (v : Visit) (m : NethogsRecordMap) (n : ℕ) (c : Client)
    → Mirrors m n c
    → let (m', n', calls) = visit v m n in
      n + length calls < 2 ^ 31 → Mirrors m' n' (listen_all calls c) × (n' ≤ n + length calls)
unfolding listen_all
visit-Mirrors (gone a) m n c r below = elim (Option-cases (m a)) [
  | inl nothing ↦ (rw nothing (absent m n a c r nothing), omega arith)
  | inr (e, found) ↦ (rw found (erased m n a c e found r), omega arith)
]
visit-Mirrors (seen p total kbs) m n c r below =
    seen-Mirrors p total kbs m n c (m p.address) refl r below

-- A round makes one call at most.
visit_calls : (v : Visit) (m : NethogsRecordMap) (n : ℕ) → length (visit v m n).2 ≤ 1
visit_calls (gone a) m n = ground arith
visit_calls (seen p total kbs) m n =
    elim (Bool-cases (update_record p total kbs n (m p.address)).2) [
      | inl told ↦ rw told (omega arith)
      | inr silent ↦ rw silent (omega arith)
    ]

visits_calls :
    (vs : List Visit) (m : NethogsRecordMap) (n : ℕ) → length (visits vs m n).2 ≤ length vs
unfolding visits
visits_calls [] m n = omega arith
visits_calls (v ∷ vs) m n =
    let (m', n', calls) = visit v m n in
    let more = (visits vs m' n').2 in
    omega (arith, length-append calls more, visit_calls v m n, visits_calls vs m' n')

pub visits-Mirrors :
    (vs : List Visit) (m : NethogsRecordMap) (n : ℕ) (c : Client)
    → Mirrors m n c
    → let (m', n', calls) = visits vs m n in
      n + length calls < 2 ^ 31 → Mirrors m' n' (listen_all calls c) × (n' ≤ n + length calls)
unfolding visits listen_all
visits-Mirrors [] m n c r below = (r, omega arith)
visits-Mirrors (v ∷ vs) m n c r below =
    let (m', n', calls) = visit v m n in
    let more = (visits vs m' n').2 in
    let total = length-append calls more in
    let (r', near) = visit-Mirrors v m n c r (omega arith) in
    let (r'', far) = visits-Mirrors vs m' n' (listen_all calls c) r' (omega arith) in
    (rw (listen_all-append calls more c) r'', omega arith)

length-Covers :
    (s : Store) (ps qs : List Process) (vs : List Visit) → Covers s ps qs vs → length vs ≡ length ps
length-Covers s [] qs vs (f, e) = rw e refl
length-Covers s (p ∷ ps) qs vs (inl (vs', e, c)) = rw e (omega (arith, length-Covers s ps qs vs' c))
length-Covers s (p ∷ ps) qs vs (inr (q, qs', vs', total, kbs, f, e, g, t, c)) =
    rw e (omega (arith, length-Covers s ps qs' vs' c))

-- A client that only listens to the calls keeps the map of the library: where it has the records of
-- the map before a refresh, each under an id of its own, and no others, it has those of the map
-- after it, but for the names of devices, which are not reported. This is so in a safe state that
-- can read /proc/net/tcp, while the ids do not overflow.
pub handle_update-Mirrors :
    (tokbps : ℕ → ℕ) (h : Host) (l : Library) (t : ConnTable) (c : Client)
    → IsSafe l.world
    → TableRead h l t
    → Mirrors l.monitor_record_map l.last_record_id c
    → l.last_record_id + length l.world.processes < 2 ^ 31
    → (l' : Library) × (calls : List Action) × (handle_update tokbps h l ≡ ok (l', calls))
      × Mirrors l'.monitor_record_map l'.last_record_id (listen_all calls c)
handle_update-Mirrors tokbps h l t c s r mirrors below =
    let (x, e) = handle_update-Walked tokbps h l t s r in
    let same = length-Covers x.store l.world.processes x.after x.rounds x.covers in
    let few = visits_calls x.rounds l.monitor_record_map l.last_record_id in
    let (r', _) =
      visits-Mirrors x.rounds l.monitor_record_map l.last_record_id c mirrors (omega arith) in
    (_, _, e, r')
