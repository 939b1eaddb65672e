-- ===== src/Records.antt =====
-- What a client of the library is told: the map of records and its update
-- (src/libnethogs.h, nethogsmonitor_handle_update of src/libnethogs.cpp) and ProcList::size
-- (src/process.cpp). The list node of a process is known by the address of the process. A float is
-- its bits, which tokbps, a parameter, makes of a number of bytes; 0 is the bits of the number 0.
pub mod Visits
pub mod Walk
pub mod Refresh
pub mod Contents
pub mod Client
pub mod Calls
use nethogs.Base.{
  ℕ, suc, ◌+◌, ◌-◌, ◌%◌, ◌^◌, Bool, true, false, not, ◌&&◌, Option, none, some, List, [], ◌∷◌, ◌++◌,
  ◌==◌, if◌then◌else◌, Result, ok, fault, null_pointer, assertion, guard, ◌>>◌, ◌>>=◌,
}
use nethogs.Store.{Store}
use nethogs.Process.{size, Process, getkbps, gettotal}
use nethogs.ConnInode.{refreshconninode}
use nethogs.World.{Host, World}
use nethogs.Timeouts.{is_timed_out}

pub record NethogsMonitorRecord : Type 0 where
  pub record_id : ℕ
  pub name : Option (List ℕ)
  pub pid : ℕ
  pub uid : ℕ
  pub device_name : List ℕ
  pub sent_bytes : ℕ
  pub recv_bytes : ℕ
  pub sent_kbs : ℕ
  pub recv_kbs : ℕ

-- NethogsRecordMap
abbrev pub NethogsRecordMap : Type 0
NethogsRecordMap = ℕ → Option NethogsMonitorRecord

abbrev pub put : NethogsRecordMap → ℕ → Option NethogsMonitorRecord → NethogsRecordMap
put m a v b = if a == b then v else m b

-- A call of the client: NETHOGS_APP_ACTION_SET or NETHOGS_APP_ACTION_REMOVE, with the record.
pub data Action : Type 0 where
  action_set action_remove : NethogsMonitorRecord → Action

-- The record of a process that had none. Its id is exact here; in the source it is an `int`, so what
-- is said of ids holds of it up to INT_MAX.
unfoldable pub new_record : ℕ → Process → NethogsMonitorRecord
new_record record_id p = record {
  record_id = record_id + 1;
  name = p.name;
  pid = p.pid;
  uid = 0;
  device_name = [];
  sent_bytes = 0;
  recv_bytes = 0;
  sent_kbs = 0;
  recv_kbs = 0;
}

-- The device and the five fields that NHM_UPDATE_ONE_FIELD writes, from what gettotal and getkbps
-- give: first what was received.
unfoldable pub update_fields : Process → ℕ × ℕ → ℕ × ℕ → NethogsMonitorRecord → NethogsMonitorRecord
update_fields p (recv_bytes, sent_bytes) (recv_kbs, sent_kbs) entry = record entry {
  device_name = p.devicename;
  uid = p.uid;
  sent_bytes = sent_bytes;
  recv_bytes = recv_bytes;
  sent_kbs = sent_kbs;
  recv_kbs = recv_kbs;
}

-- One of the five fields has changed.
unfoldable pub is_changed : NethogsMonitorRecord → NethogsMonitorRecord → Bool
is_changed a b = not (
    (a.uid == b.uid)
    && ((a.sent_bytes == b.sent_bytes)
        && ((a.recv_bytes == b.recv_bytes)
            && ((a.sent_kbs == b.sent_kbs) && (a.recv_kbs == b.recv_kbs)))))

-- The record of a process after the round of the loop, the last record_id, and data_change.
unfoldable pub update_record :
    Process → ℕ × ℕ → ℕ × ℕ → ℕ → Option NethogsMonitorRecord → NethogsMonitorRecord × ℕ × Bool
unfolding new_record update_fields is_changed
update_record p total kbs record_id none =
    (update_fields p total kbs (new_record record_id p), record_id + 1, true)
update_record p total kbs record_id (some entry) =
    let entry' = update_fields p total kbs entry in (entry', record_id, is_changed entry entry')

-- The call for a record that changed, and that for a record that is erased.
abbrev pub notify : Bool → NethogsMonitorRecord → List Action
notify true entry = action_set entry ∷ []
notify false entry = []

abbrev pub farewell : Option NethogsMonitorRecord → List Action
farewell none = []
farewell (some entry) = action_remove entry ∷ []

-- The whole list, from the nodes before the present one, the nearest first, and the rest.
abbrev pub behind : List Process → List Process → List Process
behind [] ps = ps
behind (p ∷ previous) ps = behind previous (p ∷ ps)

-- The state of the library: monitor_record_map, record_id and what is global.
pub record Library : Type 0 where
  pub world : World
  pub monitor_record_map : NethogsRecordMap
  pub last_record_id : ℕ

abbrev pub tell : List Action → Result (Library × List Action) → Result (Library × List Action)
tell calls r = do (l, more) ← r; ok (l, calls ++ more)

-- The loop of nethogsmonitor_handle_update.
unfoldable pub update_loop :
    (ℕ → ℕ) → List Process → ℕ → Library → List Process → Result (Library × List Action)
unfolding size is_timed_out getkbps gettotal update_record
update_loop tokbps previous nproc l [] =
    ok (record l { world = record l.world { processes = behind previous [] } }, [])
update_loop tokbps previous nproc l (curproc ∷ next) = do
  n ← size (behind previous (curproc ∷ next))
  guard (nproc == n) assertion
  out ← is_timed_out l.world curproc
  elim out [
    | true ↦ tell (farewell (l.monitor_record_map curproc.address)) (
        update_loop tokbps previous (nproc - 1)
          (record l { monitor_record_map = put l.monitor_record_map curproc.address none }) next)
    | false ↦ do
      ((recv, sent), p, s) ← getkbps l.world.curtime l.world.store curproc
      total ← gettotal s p
      let (entry, id, data_change) =
          update_record p total (tokbps recv, tokbps sent) l.last_record_id
            (l.monitor_record_map p.address)
      tell (notify data_change entry) (
          update_loop tokbps (p ∷ previous) nproc
            (record {
              world = record l.world { store = s };
              monitor_record_map = put l.monitor_record_map p.address (some entry);
              last_record_id = id;
            })
            next)
  ]

-- nethogsmonitor_handle_update, with the calls of the client in their order.
unfoldable pub handle_update : (ℕ → ℕ) → Host → Library → Result (Library × List Action)
unfolding refreshconninode size update_loop
handle_update tokbps h l = do
  let w = l.world
  conninode' ← refreshconninode h.net h.buf h.raw_words w.local_addrs h.files w.conninode
  nproc ← size w.processes
  update_loop tokbps [] nproc (record l { world = record w { conninode = conninode' } }) w.processes
