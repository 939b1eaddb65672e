-- ===== src/Tests/Traffic.antt =====
-- Trials: the lists of packets, the connections and the processes.
use nethogs.Base.{ℕ, ◌≡◌, refl, List, [], ◌∷◌, arith, ok, All, ◌⊎◌, none}
use nethogs.PackList.History.{second}
use nethogs.PackList.Window.{adds, sums, reports, window_reports, Event, reports-window_reports}
use nethogs.Connection.{Connection}
use nethogs.Connection.Accounting.{
  feed, Accounts, bytes_out, bytes_in, last_second, ref_of, feed-Accounts,
}
use nethogs.Store.{Store, update}
use nethogs.Store.Live.{IsLive, Distinct}
use nethogs.Process.{Process, getkbps, gettotal}
use nethogs.Process.Sweeping.{IsFresh}
use nethogs.Process.Closing.{getkbps_closes}
use nethogs.Tests.{request, reply, at_second, raw_packet, home, two_connections, process_at}

-- Two packets, a sum, a packet six seconds later, a sum that sees only that one.
abbrev some_events : List Event
some_events =
    adds request
    ∷ adds reply
    ∷ sums (at_second 7)
    ∷ adds (record reply { time = at_second 12 })
    ∷ sums (at_second 13)
    ∷ []

reports-window_reports_example : reports some_events [] ≡ window_reports some_events []
unfolding second
reports-window_reports_example =
    reports-window_reports some_events
      (omega arith, (omega arith, (omega arith, (omega arith, (omega arith, tt)))))
      (ground arith, (ground arith, (ground arith, tt)))

feed-Accounts_example :
    (c : Connection) × (feed raw_packet home [] request (reply ∷ []) ≡ ok c)
    × Accounts raw_packet home [] c
        (bytes_out raw_packet home [] (request ∷ reply ∷ []))
        (bytes_in raw_packet home [] (request ∷ reply ∷ []))
        (last_second raw_packet home [] 0 (request ∷ reply ∷ []))
        (ref_of raw_packet home [] request)
feed-Accounts_example = feed-Accounts raw_packet home [] request (reply ∷ [])

abbrev both : Process
both = process_at 9 (1 ∷ 2 ∷ [])

both-IsLive : All (IsLive two_connections.heap) (1 ∷ 2 ∷ [])
both-IsLive = ((_, refl), ((_, refl), tt))

every-IsLive : All (IsLive two_connections.heap) (2 ∷ 1 ∷ [])
every-IsLive = ((_, refl), ((_, refl), tt))

both-Distinct : Distinct (1 ∷ 2 ∷ [])
both-Distinct = ((ground arith, tt), (tt, tt))

-- Fifty seconds on, connection 1 is closed and connection 2 stays.
getkbps_closes_example :
    (r : ℕ × ℕ) × (p' : Process) × (s' : Store) × (getkbps (at_second 310) two_connections both
      ≡ ok (r, p', s'))
    × (gettotal s' p' ≡ gettotal two_connections both)
    × All (IsFresh (at_second 310) s'.heap) p'.connections
    × Distinct p'.connections
    × All (λ j. IsFresh (at_second 310) s'.heap j ⊎ (s'.heap j ≡ none)) both.connections
    × All (IsLive s'.heap) s'.connections
getkbps_closes_example =
    getkbps_closes (at_second 310) two_connections both both-IsLive both-Distinct every-IsLive

-- Connection 2 is not one of this process, whose own connection is closed.
abbrev first : Process
first = process_at 8 (1 ∷ [])

abbrev first_swept : (ℕ × ℕ) × Process × Store
first_swept = (
  (0, 0),
  record first { sent_by_closed_bytes = 101; rcvd_by_closed_bytes = 62; connections = [] },
  record two_connections { heap = update two_connections.heap 1 none; connections = 2 ∷ [] },
)

first_sweep : getkbps (at_second 310) two_connections first ≡ ok first_swept
unfolding getkbps
first_sweep = refl
