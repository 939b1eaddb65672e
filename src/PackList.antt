-- ===== src/PackList.antt =====
-- class PackList (src/connection.h, src/connection.cpp): the packets of one direction of a
-- connection, newest first. A NULL content is the empty list; a node holds its own packet.
pub mod History
pub mod Window
use nethogs.Base.{ℕ, ◌+◌, Bool, List, [], ◌∷◌, ◌==◌, leb, if◌then◌else◌, add32, add64}
use nethogs.Packet.{Packet, Timeval, copy}

-- PERIOD: the average is taken over the last 5 seconds.
abbrev pub period : ℕ
period = 5

-- PackList::add. Packets of one second share a node, whose `len` is a u_int32_t.
unfoldable pub add : List Packet → Packet → List Packet
unfolding copy
add [] p = copy p ∷ []
add (q ∷ next) p =
    if q.time.tv_sec == p.time.tv_sec
    then record q { len = add32 q.len p.len } ∷ next
    else copy p ∷ q ∷ next

-- The test of sumanddel, `time.tv_sec <= t.tv_sec - PERIOD` between signed numbers.
abbrev pub is_old : Timeval → Packet → Bool
is_old t p = leb (p.time.tv_sec + period) t.tv_sec

-- The loop of PackList::sumanddel: the first old node is cut off, with all behind it.
unfoldable pub sumanddel_loop : Timeval → ℕ → List Packet → ℕ × List Packet
sumanddel_loop t retval [] = (retval, [])
sumanddel_loop t retval (current ∷ next) =
    let (sum, kept) = sumanddel_loop t (add64 retval current.len) next in
    if is_old t current then (retval, []) else (sum, current ∷ kept)

unfoldable pub sumanddel : Timeval → List Packet → ℕ × List Packet
unfolding sumanddel_loop
sumanddel t content = sumanddel_loop t 0 content
