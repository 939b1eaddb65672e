-- ===== src/Records/Contents.antt =====
-- The map of records after a refresh (src/libnethogs.cpp).
use nethogs.Base.{
  ℕ, ◌≡◌, ◌≢◌, sym, ◌∙◌, ◌⊎◌, inl, inr, refl, none, some, Option, List, [], ◌∷◌, arith, All, In, ok,
  ◌==◌, Bool-cases,
}
use nethogs.Store.{Store}
use nethogs.Store.Live.{Apart, Distinct}
use nethogs.Process.{Process, gettotal}
use nethogs.ConnInode.{ConnTable}
use nethogs.World.{Host}
use nethogs.Safety.Invariant.{IsSafe}
use nethogs.Safety.Removed.{addresses}
use nethogs.Records.{
  Library, Action, NethogsRecordMap, NethogsMonitorRecord, handle_update, update_record,
  update_fields,
}
use nethogs.Records.Visits.{put-here, put-elsewhere, Visit, gone, seen, visit, visits, Covers}
use nethogs.Records.Refresh.{TableRead, handle_update-Walked}

-- The process has a record, with its owner, its device and the totals that gettotal gives.
abbrev pub Recorded : Store → NethogsRecordMap → Process → Type 0
Recorded s m q =
    (e : NethogsMonitorRecord) × (m q.address ≡ some e)
    × (e.uid ≡ q.uid)
    × (e.device_name ≡ q.devicename)
    × (gettotal s q ≡ ok (e.recv_bytes, e.sent_bytes))

-- Only processes of the list have records.
abbrev pub Listed : NethogsRecordMap → List Process → Type 0
Listed m ps = (a : ℕ) (e : NethogsMonitorRecord) → m a ≡ some e → In a (addresses ps)

visits-elsewhere :
    (vs : List Visit) (s : Store) (ps qs : List Process) (m : NethogsRecordMap) (id a : ℕ)
    → Covers s ps qs vs
    → Apart a (addresses ps)
    → (visits vs m id).0 a ≡ m a
unfolding visits
visits-elsewhere vs s [] qs m id a (_, e) h = rw e refl
visits-elsewhere vs s (p ∷ ps) qs m id a (inl (vs', e, c)) h =
    let v = visit (gone p.address) m id in
    let k = visits-elsewhere vs' s ps qs v.0 v.1 a c h.1 in
    rw (e, k) (put-elsewhere m p.address a none (λ x. h.0 (sym x)))
visits-elsewhere vs s (p ∷ ps) qs m id a (inr (q, qs', vs', total, kbs, f, e, g, _, c)) h =
    let v = visit (seen q total kbs) m id in
    let k = visits-elsewhere vs' s ps qs' v.0 v.1 a c h.1 in
    rw (e, k)
      (put-elsewhere m q.address a (some (update_record q total kbs id (m q.address)).0)
        (λ x. h.0 (sym x ∙ g)))

updated-fields :
    (p : Process) (total kbs : ℕ × ℕ) (id : ℕ) (o : Option NethogsMonitorRecord)
    → let e = (update_record p total kbs id o).0 in
      (e.uid ≡ p.uid) × (e.device_name ≡ p.devicename) × ((e.recv_bytes, e.sent_bytes) ≡ total)
unfolding update_record update_fields
updated-fields p total kbs id none = (refl, refl, refl)
updated-fields p total kbs id (some e) = (refl, refl, refl)

visits-Recorded :
    (vs : List Visit) (s : Store) (ps qs : List Process) (m : NethogsRecordMap) (id : ℕ)
    → Covers s ps qs vs
    → Distinct (addresses ps)
    → All (Recorded s (visits vs m id).0) qs
unfolding visits
visits-Recorded vs s [] qs m id (f, e) d = rw f tt
visits-Recorded vs s (p ∷ ps) qs m id (inl (vs', e, c)) d =
    let v = visit (gone p.address) m id in rw e (visits-Recorded vs' s ps qs v.0 v.1 c d.1)
visits-Recorded vs s (p ∷ ps) qs m id (inr (q, qs', vs', total, kbs, f, e, g, t, c)) d =
    let v = visit (seen q total kbs) m id in
    let entry = (update_record q total kbs id (m q.address)).0 in
    let there : (visits vs' v.0 v.1).0 q.address ≡ some entry =
      visits-elsewhere vs' s ps qs' v.0 v.1 q.address c (rw g d.0)
      ∙ put-here m q.address (some entry) in
    let (uid, device, sums) = updated-fields q total kbs id (m q.address) in
    rw (e, f) ((entry, there, uid, device, rw sums t), visits-Recorded vs' s ps qs' v.0 v.1 c d.1)

-- A record after the rounds is that of a process of the second list, or was there before and is that
-- of no process of the first.
visits-Listed :
    (vs : List Visit) (s : Store) (ps qs : List Process) (m : NethogsRecordMap) (id a : ℕ)
    (entry : NethogsMonitorRecord)
    → Covers s ps qs vs
    → (visits vs m id).0 a ≡ some entry
    → In a (addresses qs) ⊎ ((m a ≡ some entry) × Apart a (addresses ps))
unfolding visits
visits-Listed vs s [] qs m id a entry (f, e) h = inr (rw e at h, tt)
visits-Listed vs s (p ∷ ps) qs m id a entry (inl (vs', e, c)) h =
    let v = visit (gone p.address) m id in
    elim (visits-Listed vs' s ps qs v.0 v.1 a entry c (rw e at h)) [
      | inl now ↦ inl now
      | inr (old, apart) ↦ elim (Bool-cases (p.address == a)) [
        | inl here ↦ absurd (ground arith)
        | inr there ↦ inr (rw there at old, (ground arith, apart))
      ]
    ]
visits-Listed vs s (p ∷ ps) qs m id a entry (inr (q, qs', vs', total, kbs, f, e, g, t, c)) h =
    let v = visit (seen q total kbs) m id in
    rw f (elim (visits-Listed vs' s ps qs' v.0 v.1 a entry c (rw e at h)) [
      | inl now ↦ inl (inr now)
      | inr (old, apart) ↦ elim (Bool-cases (q.address == a)) [
        | inl here ↦ inl (inl (ground arith))
        | inr there ↦ inr (rw there at old, (ground arith, apart))
      ]
    ])

Apart-not-In : (a : ℕ) (is : List ℕ) → Apart a is → In a is → ⊥
Apart-not-In a [] h k = k
Apart-not-In a (i ∷ is) h (inl e) = h.0 (sym e)
Apart-not-In a (i ∷ is) h (inr k) = Apart-not-In a is h.1 k

Covers-addresses :
    (P : ℕ → Type 0) (vs : List Visit) (s : Store) (ps qs : List Process)
    → Covers s ps qs vs
    → All P (addresses ps)
    → All P (addresses qs)
Covers-addresses P vs s [] qs (f, e) h = rw f tt
Covers-addresses P vs s (p ∷ ps) qs (inl (vs', e, c)) h = Covers-addresses P vs' s ps qs c h.1
Covers-addresses P vs s (p ∷ ps) qs (inr (q, qs', vs', total, kbs, f, e, g, t, c)) h =
    rw f (rw g h.0, Covers-addresses P vs' s ps qs' c h.1)

Covers-Distinct :
    (vs : List Visit) (s : Store) (ps qs : List Process)
    → Covers s ps qs vs
    → Distinct (addresses ps)
    → Distinct (addresses qs)
Covers-Distinct vs s [] qs (f, e) d = rw f tt
Covers-Distinct vs s (p ∷ ps) qs (inl (vs', e, c)) d = Covers-Distinct vs' s ps qs c d.1
Covers-Distinct vs s (p ∷ ps) qs (inr (q, qs', vs', total, kbs, f, e, g, t, c)) d = rw f (
  rw g (Covers-addresses (λ j. p.address ≢ j) vs' s ps qs' c d.0),
  Covers-Distinct vs' s ps qs' c d.1,
)

-- A refresh of the library in a safe state that can read /proc/net/tcp ends, where the processes
-- have different addresses and only they have records, with a record for each process that stays
-- and for no other: its owner, its device and its totals. The addresses are again different.
pub handle_update-Recorded :
    (tokbps : ℕ → ℕ) (h : Host) (l : Library) (t : ConnTable)
    → IsSafe l.world
    → TableRead h l t
    → Distinct (addresses l.world.processes)
    → Listed l.monitor_record_map l.world.processes
    → (l' : Library) × (calls : List Action) × (handle_update tokbps h l ≡ ok (l', calls))
      × All (Recorded l'.world.store l'.monitor_record_map) l'.world.processes
      × Listed l'.monitor_record_map l'.world.processes
      × Distinct (addresses l'.world.processes)
handle_update-Recorded tokbps h l t s r d listed =
    let (x, e) = handle_update-Walked tokbps h l t s r in
    let ps = l.world.processes in
    let m = l.monitor_record_map in
    (
      _,
      _,
      e,
      visits-Recorded x.rounds x.store ps x.after m l.last_record_id x.covers d,
      λ a entry f.
          elim (visits-Listed x.rounds x.store ps x.after m l.last_record_id a entry x.covers f) [
            | inl now ↦ now
            | inr (old, apart) ↦ absurd (Apart-not-In a (addresses ps) apart (listed a entry old))
          ],
      Covers-Distinct x.rounds x.store ps x.after x.covers d,
    )
