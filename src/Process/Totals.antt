-- ===== src/Process/Totals.antt =====
-- The totals of a process over its live connections: gettotal (src/process.cpp).
use nethogs.Base.{
  ℕ, ◌+◌, ◌<◌, ◌%◌, ◌^◌, ◌≡◌, refl, Option, none, some, List, [], ◌∷◌, arith, All, ok,
}
use nethogs.Connection.{Connection}
use nethogs.Store.{Store, update}
use nethogs.Store.Live.{IsLive, Apart}
use nethogs.Process.{Process, gettotal, gettotal_loop}

abbrev pub part : (Connection → ℕ) → Option Connection → ℕ
part f none = 0
part f (some c) = f c

-- The sum of a field over the objects that the pointers lead to.
unfoldable pub total : (Connection → ℕ) → (ℕ → Option Connection) → List ℕ → ℕ
total f heap [] = 0
total f heap (i ∷ is) = part f (heap i) + total f heap is

-- An object that no pointer of the list leads to does not count.
pub total-update :
    (f : Connection → ℕ) (heap : ℕ → Option Connection) (i : ℕ) (v : Option Connection)
    (is : List ℕ)
    → Apart i is
    → total f (update heap i v) is ≡ total f heap is
unfolding total
total-update f heap i v [] a = refl
total-update f heap i v (j ∷ is) a = ground (arith, total-update f heap i v is a.1)

abbrev pub sent_of : Connection → ℕ
sent_of c = c.sum_sent

abbrev pub recv_of : Connection → ℕ
recv_of c = c.sum_recv

gettotal_loop_lem :
    (is : List ℕ) (s : Store) (sent recv : ℕ)
    → All (IsLive s.heap) is
    → sent < 2 ^ 64
    → recv < 2 ^ 64
    → gettotal_loop s is sent recv
      ≡ ok ((recv + total recv_of s.heap is) % 2 ^ 64, (sent + total sent_of s.heap is) % 2 ^ 64)
unfolding gettotal_loop total
gettotal_loop_lem [] s sent recv h p q = ground arith
gettotal_loop_lem (i ∷ is) s sent recv h p q = ground (
  arith,
  gettotal_loop_lem is s ((sent + h.0.0.sum_sent) % 2 ^ 64) ((recv + h.0.0.sum_recv) % 2 ^ 64) h.1,
)

-- Where all its connections are live, gettotal gives the bytes of the closed connections and of the
-- open ones, modulo 2^64.
pub gettotal-total :
    (s : Store) (p : Process)
    → All (IsLive s.heap) p.connections
    → gettotal s p
      ≡ ok (
        (p.rcvd_by_closed_bytes + total recv_of s.heap p.connections) % 2 ^ 64,
        (p.sent_by_closed_bytes + total sent_of s.heap p.connections) % 2 ^ 64,
      )
unfolding gettotal
gettotal-total s p h = ground (arith, gettotal_loop_lem p.connections s 0 0 h)
