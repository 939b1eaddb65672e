-- ===== src/Tests/Packets.antt =====
-- Trials: packets, addresses and devices.
use nethogs.Base.{ℕ, ◌≡◌, ◌↔◌, ◌⊎◌, refl, Bool, true, false, not, List, [], ◌∷◌, some, ok, arith}
use nethogs.LocalAddr.{Raw, sin, sin6, IfAddr, get_local}
use nethogs.LocalAddr.Contains.{Owns, is_local, get_local-is_local}
use nethogs.Packet.{Packet, dir_incoming, match, new_inverted, outgoing, gethashstring}
use nethogs.Packet.Reverse.{SameEnds, match-SameEnds_iff, outgoing_settled}
use nethogs.Packet.Keys.{gethashstring-new_inverted}
use nethogs.Devices.{already_seen, get_devices}
use nethogs.Devices.Choice.{offered, NoRepeats, get_devices-offered}
use nethogs.Tests.{request, reply, raw_packet, home, net}

match-SameEnds_iff_example : (match request reply ≡ true) ↔ SameEnds request reply
match-SameEnds_iff_example = match-SameEnds_iff request reply

outgoing_settled_example :
    (b : Bool) × (p' : Packet) × (outgoing (home ∷ []) reply ≡ ok (b, p'))
    × (outgoing (home ∷ []) p' ≡ ok (b, p'))
    × ((q : Packet) × (outgoing (home ∷ []) (new_inverted raw_packet p') ≡ ok (not b, q)))
outgoing_settled_example = outgoing_settled raw_packet home home [] [] reply (λ e. ground arith)

-- The reply, once it is known to come in.
abbrev incoming : Packet
incoming = record reply { dir = dir_incoming }

gethashstring-new_inverted_example :
    (key : List ℕ) × (q r : Packet) × (gethashstring net [] (home ∷ []) incoming ≡ ok (key, q))
    × (gethashstring net [] (home ∷ []) (new_inverted raw_packet incoming) ≡ ok (key, r))
gethashstring-new_inverted_example =
    gethashstring-new_inverted net [] [] raw_packet home [] incoming (λ e. ground arith)
      (λ e. ground arith) refl

abbrev eth : List ℕ
eth = b'e' ∷ []

abbrev loopback : List ℕ
loopback = b'l' ∷ []

abbrev interfaces : List IfAddr
interfaces =
    record { ifa_name = loopback; ifa_addr = some (sin 127); ifa_flags = 73 }
    ∷ record { ifa_name = eth; ifa_addr = some (sin 1); ifa_flags = 65 }
    ∷ record { ifa_name = eth; ifa_addr = some (sin6 []); ifa_flags = 65 }
    ∷ []

abbrev raw : Raw
raw = record { raw_addr = 0; raw_addr6 = []; raw_string = []; raw_stack = [] }

get_local-is_local_example :
    (is_local (sin 1) (get_local net raw eth (some interfaces) []).1 ≡ true)
    ↔ (Owns eth (sin 1) interfaces ⊎ (is_local (sin 1) [] ≡ true))
get_local-is_local_example = get_local-is_local net raw eth (sin 1) interfaces [] tt

get_devices-offered_example :
    let devices = get_devices [] false (some interfaces) in
    (already_seen devices eth ≡ offered [] false interfaces eth) × NoRepeats devices
get_devices-offered_example = get_devices-offered [] false interfaces eth
