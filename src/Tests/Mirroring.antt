-- ===== src/Tests/Mirroring.antt =====
-- Trials: a client of the library during its main loop.
use nethogs.Base.{◌≡◌, refl, none, Option, List, [], Result, ok, fault, arith}
use nethogs.LocalAddr.{contains}
use nethogs.Callbacks.{DpArgs}
use nethogs.Records.{Action}
use nethogs.Records.Client.{listen_all}
use nethogs.Monitor.{Status, Monitor}
use nethogs.Monitor.Rounds.{main_loop}
use nethogs.Monitor.Mirroring.{Hears, main_loop-Mirrors}
use nethogs.Tests.Monitor.{busy-IsSafe, args}
use nethogs.Tests.Library.{tokbps, client, client-Mirrors, course, open_monitor}

abbrev Outcome : Type 0
Outcome = Option Status × (Monitor × DpArgs) × List Action

abbrev or_start : Result Outcome → Outcome
or_start (ok outcome) = outcome
or_start (fault stop) = (none, (open_monitor, args), [])

abbrev outcome : Outcome
outcome = or_start (main_loop tokbps course (open_monitor, args))

looped : main_loop tokbps course (open_monitor, args) ≡ ok outcome
unfolding main_loop contains
looped = refl

main_loop-Mirrors_example : Hears outcome.1.0.library (listen_all outcome.2 client)
unfolding main_loop contains
main_loop-Mirrors_example =
    main_loop-Mirrors tokbps course (open_monitor, args) outcome.1 outcome.0 outcome.2 client
      (busy-IsSafe, (refl, tt)) client-Mirrors looped (omega arith)
