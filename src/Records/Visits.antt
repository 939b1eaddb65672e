-- ===== src/Records/Visits.antt =====
-- The rounds of the loop of nethogsmonitor_handle_update as the record map sees them
-- (src/libnethogs.cpp), and ProcList::size (src/process.cpp).
use nethogs.Base.{
  ℕ, suc, ◌+◌, ◌≡◌, ◌⊎◌, inl, inr, refl, none, some, ◌≢◌, Option, Option-cases, List, [], ◌∷◌, ◌++◌,
  arith, All, ok, length,
}
use nethogs.Store.{Store, deref}
use nethogs.Process.{Process, gettotal, gettotal_loop}
use nethogs.Records.{
  NethogsMonitorRecord, NethogsRecordMap, put, Action, update_record, notify, farewell, behind,
}
use nethogs.Process.{size}

pub put-here : (m : NethogsRecordMap) (a : ℕ) (v : Option NethogsMonitorRecord) → put m a v a ≡ v
put-here m a v = ground arith

pub put-elsewhere :
    (m : NethogsRecordMap) (a b : ℕ) (v : Option NethogsMonitorRecord) → a ≢ b → put m a v b ≡ m b
put-elsewhere m a b v n = ground arith

-- A process is removed, or it stays with its totals and its rates.
pub data Visit : Type 0 where
  gone : ℕ → Visit
  seen : Process → ℕ × ℕ → ℕ × ℕ → Visit

-- What a round makes of the map and of the last record_id, and whom it tells.
abbrev pub visit : Visit → NethogsRecordMap → ℕ → NethogsRecordMap × ℕ × List Action
visit (gone a) m id = (put m a none, id, farewell (m a))
visit (seen p total kbs) m id =
    let (entry, id', data_change) = update_record p total kbs id (m p.address) in
    (put m p.address (some entry), id', notify data_change entry)

unfoldable pub visits : List Visit → NethogsRecordMap → ℕ → NethogsRecordMap × ℕ × List Action
visits [] m id = (m, id, [])
visits (v ∷ vs) m id =
    let (m', id', calls) = visit v m id in
    let (m'', id'', more) = visits vs m' id' in (m'', id'', calls ++ more)

-- The rounds take the first list to the second: each process is removed, or stays at its address
-- with the totals that gettotal gives for it in the store.
abbrev pub Covers : Store → List Process → List Process → List Visit → Type 0
Covers s [] qs vs = (qs ≡ []) × (vs ≡ [])
Covers s (p ∷ ps) qs vs =
    ((vs' : List Visit) × (vs ≡ gone p.address ∷ vs') × Covers s ps qs vs')
    ⊎ ((q : Process) × (qs' : List Process) × (vs' : List Visit) × (total : ℕ × ℕ) × (kbs : ℕ × ℕ)
        × (qs ≡ q ∷ qs')
        × (vs ≡ seen q total kbs ∷ vs')
        × (q.address ≡ p.address)
        × (gettotal s q ≡ ok total)
        × Covers s ps qs' vs')

pub size-behind :
    (previous : List Process) (p : Process) (ps : List Process)
    → size (behind previous (p ∷ ps)) ≡ ok (length previous + suc (length ps))
unfolding size
size-behind [] p [] = refl
size-behind [] p (q ∷ ps) = ground (arith, size-behind [] q ps)
size-behind (q ∷ previous) p ps = ground (arith, size-behind previous q (p ∷ ps))

-- The two stores have the same objects at these places.
abbrev pub Agree : Store → Store → List ℕ → Type 0
Agree s t = All (λ i. t.heap i ≡ s.heap i)

loop-Agree :
    (s t : Store) (is : List ℕ) (sent recv : ℕ)
    → Agree s t is
    → gettotal_loop t is sent recv ≡ gettotal_loop s is sent recv
unfolding gettotal_loop deref
loop-Agree s t [] sent recv a = refl
loop-Agree s t (i ∷ is) sent recv a = elim (Option-cases (s.heap i)) [
  | inl dead ↦ rw (a.0, dead) refl
  | inr (c, live) ↦ rw (a.0, live) (loop-Agree s t is _ _ a.1)
]

pub gettotal-Agree :
    (s t : Store) (p : Process) → Agree s t p.connections → gettotal t p ≡ gettotal s p
unfolding gettotal
gettotal-Agree s t p a = rw (loop-Agree s t p.connections 0 0 a) refl
