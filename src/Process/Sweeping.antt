-- ===== src/Process/Sweeping.antt =====
-- The loop of getkbps over the connections of a process (src/process.cpp).
use nethogs.Base.{
  ℕ, ◌+◌, ◌%◌, ◌^◌, ◌≡◌, ◌<◌, ◌⊎◌, inl, inr, refl, false, Option, none, some, List, [], ◌∷◌, arith,
  All, All-mono, ok, Bool-cases, add64,
}
use nethogs.Packet.{Timeval}
use nethogs.Connection
use nethogs.Connection.{Connection}
use nethogs.Store.{Store, assign, delete_connection}
use nethogs.Store.Live.{
  IsLive, Apart, Distinct, IsLive-elsewhere, IsLive-assigned, IsLive-unlinked, All-unlink,
}
use nethogs.Process.{Process, Sweep, is_stalled, after_sweep, getkbps, getkbps_loop}
use nethogs.Process.Totals.{total, total-update, sent_of, recv_of}

-- The live connection at an address is not stalled.
abbrev pub IsFresh : Timeval → (ℕ → Option Connection) → ℕ → Type 0
IsFresh curtime heap i = (c : Connection) × (heap i ≡ some c) × (is_stalled curtime c ≡ false)

-- What holds after the loop over `is` from the store `s`.
pub record Swept (curtime : Timeval) (is : List ℕ) (s : Store) (sent recv : ℕ) (w : Sweep)
    : Type 0 where
  pub sent_same :
      (w.sent_closed + total sent_of w.store.heap w.kept) % 2 ^ 64
      ≡ (sent + total sent_of s.heap is) % 2 ^ 64
  pub recv_same :
      (w.rcvd_closed + total recv_of w.store.heap w.kept) % 2 ^ 64
      ≡ (recv + total recv_of s.heap is) % 2 ^ 64
  pub fresh : All (IsFresh curtime w.store.heap) w.kept
  pub distinct : Distinct w.kept
  pub apart : (j : ℕ) → Apart j is → Apart j w.kept
  pub links : All (IsLive s.heap) s.connections → All (IsLive w.store.heap) w.store.connections
  pub gone : All (λ j. IsFresh curtime w.store.heap j ⊎ (w.store.heap j ≡ none)) is
  pub frame : (j : ℕ) → Apart j is → w.store.heap j ≡ s.heap j
  pub kept_below : (n : ℕ) → All (λ j. j < n) is → All (λ j. j < n) w.kept
  pub linked_below : (n : ℕ) → All (λ j. j < n) s.connections → All (λ j. j < n) w.store.connections
  pub next_same : w.store.next_object ≡ s.next_object

module _ (curtime : Timeval) where
  close_one :
      (i : ℕ) (is : List ℕ) (s : Store) (c : Connection) (sent recv : ℕ) (w : Sweep)
      → Apart i is
      → s.heap i ≡ some c
      → Swept curtime is (delete_connection s i) (add64 sent c.sum_sent) (add64 recv c.sum_recv) w
      → Swept curtime (i ∷ is) s sent recv w
  unfolding delete_connection total
  close_one i is s c sent recv w a e sw = record {
    sent_same = ground (arith, sw.sent_same, total-update sent_of s.heap i none is a);
    recv_same = ground (arith, sw.recv_same, total-update recv_of s.heap i none is a);
    fresh = sw.fresh;
    distinct = sw.distinct;
    apart = λ j h. sw.apart j h.1;
    links = λ h. sw.links (IsLive-unlinked s.heap i s.connections h);
    gone = (inr (ground (arith, sw.frame i a)), sw.gone);
    frame = λ j h. ground (arith, sw.frame j h.1, h.0);
    kept_below = λ n h. sw.kept_below n h.1;
    linked_below = λ n h. sw.linked_below n (All-unlink (λ j. j < n) i s.connections h);
    next_same = sw.next_same;
  }

  keep_one :
      (i : ℕ) (is : List ℕ) (s : Store) (c c' : Connection) (sent recv : ℕ) (w : Sweep)
      → Apart i is
      → s.heap i ≡ some c
      → c'.sum_sent ≡ c.sum_sent
      → c'.sum_recv ≡ c.sum_recv
      → is_stalled curtime c' ≡ false
      → Swept curtime is (assign s i c') sent recv w
      → Swept curtime (i ∷ is) s sent recv (record w { kept = i ∷ w.kept })
  unfolding total
  keep_one i is s c c' sent recv w a e es er f sw =
      let here : w.store.heap i ≡ some c' = ground (arith, sw.frame i a) in
      record {
        sent_same = ground (arith, sw.sent_same, total-update sent_of s.heap i (some c') is a);
        recv_same = ground (arith, sw.recv_same, total-update recv_of s.heap i (some c') is a);
        fresh = ((c', here, f), sw.fresh);
        distinct = (sw.apart i a, sw.distinct);
        apart = λ j h. (h.0, sw.apart j h.1);
        links = λ h. sw.links (IsLive-assigned s.heap i c' s.connections h);
        gone = (inl (c', here, f), sw.gone);
        frame = λ j h. ground (arith, sw.frame j h.1, h.0);
        kept_below = λ n h. (h.0, sw.kept_below n h.1);
        linked_below = sw.linked_below;
        next_same = sw.next_same;
      }

  loop-Swept :
      (is : List ℕ) (s : Store) (sent recv sum_sent sum_recv : ℕ)
      → All (IsLive s.heap) is
      → Distinct is
      → (w : Sweep) × (getkbps_loop curtime is s sent recv sum_sent sum_recv ≡ ok w)
        × Swept curtime is s sent recv w
  unfolding getkbps_loop delete_connection Connection.sumanddel total
  loop-Swept [] s sent recv sum_sent sum_recv l d = (
    record {
      store = s;
      kept = [];
      sent_closed = sent;
      rcvd_closed = recv;
      sum_sent = sum_sent;
      sum_recv = sum_recv;
    },
    refl,
    record {
      sent_same = refl;
      recv_same = refl;
      fresh = tt;
      distinct = tt;
      apart = λ j h. tt;
      links = λ h. h;
      gone = tt;
      frame = λ j h. refl;
      kept_below = λ n h. tt;
      linked_below = λ n h. h;
      next_same = refl;
    },
  )
  loop-Swept (i ∷ is) s sent recv sum_sent sum_recv l d =
      let c = l.0.0 in
      let c' = (Connection.sumanddel c curtime).1 in
      elim (Bool-cases (is_stalled curtime c)) [
        | inl stalled ↦
            let (w, e, sw) =
              loop-Swept is (delete_connection s i) (add64 sent c.sum_sent) (add64 recv c.sum_recv)
                sum_sent sum_recv (IsLive-elsewhere s.heap i none is d.0 l.1) d.1 in
            (w, ground arith, close_one i is s c sent recv w d.0 l.0.1 sw)
        | inr fresh ↦
            let sums = (Connection.sumanddel c curtime).0 in
            let (w, e, sw) =
              loop-Swept is (assign s i c') sent recv (add64 sum_sent sums.1)
                (add64 sum_recv sums.0) (IsLive-elsewhere s.heap i (some c') is d.0 l.1) d.1 in
            (
              record w { kept = i ∷ w.kept },
              ground arith,
              keep_one i is s c c' sent recv w d.0 l.0.1 refl refl fresh sw,
            )
      ]

  pub IsFresh-IsLive :
      (heap : ℕ → Option Connection) (is : List ℕ)
      → All (IsFresh curtime heap) is
      → All (IsLive heap) is
  IsFresh-IsLive heap is = All-mono (IsFresh curtime heap) (IsLive heap) is (λ i f. (f.0, f.1))

  pub getkbps-Swept :
      (s : Store) (p : Process)
      → All (IsLive s.heap) p.connections
      → Distinct p.connections
      → (w : Sweep) × (getkbps curtime s p ≡ ok (after_sweep p w))
        × Swept curtime p.connections s p.sent_by_closed_bytes p.rcvd_by_closed_bytes w
  unfolding getkbps
  getkbps-Swept s p l d =
      let (w, e, sw) =
        loop-Swept p.connections s p.sent_by_closed_bytes p.rcvd_by_closed_bytes 0 0 l d in
      (w, ground arith, sw)
