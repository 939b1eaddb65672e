-- ===== src/Safety/Run.antt =====
-- What a handle dispatches, in a safe state (src/decpcap.c, src/packet.cpp and their callers).
use nethogs.Base.{ℕ, ◌≡◌, true, List}
use nethogs.World.{World, Host}
use nethogs.Callbacks.{Bytes, DpHeader, DpArgs, process_udp}
use nethogs.Decpcap.{LinkType}
use nethogs.Capture.{Monitored, dp_dispatch}
use nethogs.Capture.Keeping.{CallLogic, dp_dispatch-Keeps}
use nethogs.Safety.{Safely, Safely-bind}
use nethogs.Safety.Invariant.{IsSafe}
use nethogs.Safety.Packets.{SafeAfter, process_tcp-Safely, process_udp-Safely}

abbrev pub MonitorSafe : Monitored → Type 0
MonitorSafe x = IsSafe x.1

udp-Safely :
    (h : Host) (header : DpHeader) (m : Bytes) (args : DpArgs) (w : World)
    → w.catchall ≡ true
    → IsSafe w
    → Safely SafeAfter (process_udp h args header m w)
udp-Safely h header m args w e s =
    let (a, u) = rw e at s.catches in process_udp-Safely h args header m w a u s

pub Safely-CallLogic : CallLogic (λ A P m. Safely P m)
Safely-CallLogic = record { value = λ P a k. k; bind = λ P Q m f k l. Safely-bind P Q m f k l }

pub dp_dispatch-Safely :
    (h : Host) (linktype : LinkType) (device : List ℕ) (frames : List (DpHeader × Bytes))
    (x : Monitored)
    → IsSafe x.1
    → Safely MonitorSafe (dp_dispatch h linktype device frames x)
dp_dispatch-Safely h linktype device frames x s =
    dp_dispatch-Keeps (λ A P m. Safely P m) Safely-CallLogic IsSafe h
      (λ args header m w k. process_tcp-Safely h args header m w k)
      (λ args header m w e k. udp-Safely h header m args w e k) linktype device frames x s
