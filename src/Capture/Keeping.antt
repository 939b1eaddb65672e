-- ===== src/Capture/Keeping.antt =====
-- What process_tcp and process_udp do with the state, a dispatch does (src/nethogs.cpp,
-- src/decpcap.c).
use nethogs.Base.{
  ℕ, ◌≡◌, refl, Bool, true, false, Option, none, some, List, [], ◌∷◌, Result, ok, ◌>>=◌, ◌==◌,
  if◌then◌else◌, Bool-cases, inl, inr,
}
use nethogs.World.{World, Host}
use nethogs.Callbacks.{Bytes, DpHeader, DpArgs, process_tcp, process_udp}
use nethogs.Decpcap.{LinkType, dp_pcap_callback}
use nethogs.Capture.{Monitored, open_handle, dispatch, dp_dispatch}
use nethogs.Capture.Delivery.{framed, received, delivered, dp_pcap_callback-delivered}

-- A way of saying that a call does well and P holds of what it leaves: it says so of a value, and of
-- one call after the other.
pub record CallLogic (S : (A : Type 0) → (A → Type 0) → Result A → Type 0) : Type 1 where
  pub value : {A : Type 0} (P : A → Type 0) (a : A) → P a → S A P (ok a)
  pub bind :
      {A B : Type 0} (P : A → Type 0) (Q : B → Type 0) (m : Result A) (f : A → Result B)
      → S A P m
      → ((a : A) → P a → S B Q (f a))
      → S B Q (m >>= f)

module _ (S : (A : Type 0) → (A → Type 0) → Result A → Type 0) (logic : CallLogic S)
    (I : World → Type 0) (h : Host)
    (tcp : (args : DpArgs) (header : DpHeader) (m : Bytes) (w : World)
      → I w
      → S (Bool × World) (λ x. I x.1) (process_tcp h args header m w))
    (udp : (args : DpArgs) (header : DpHeader) (m : Bytes) (w : World)
      → w.catchall ≡ true
      → I w
      → S (Bool × World) (λ x. I x.1) (process_udp h args header m w)) where
  abbrev Kept : Bool × World → Type 0
  Kept x = I x.1

  abbrev Keeps : Monitored → Type 0
  Keeps x = I x.1

  passed : (args : DpArgs) (w : World) → I w → S Monitored Keeps (ok (args, w))
  passed args w k = logic.value Keeps (args, w) k

  -- UDP is received only if all is to be caught.
  only_caught-Keeps :
      (header : DpHeader) (m : Bytes) (args : DpArgs) (w : World) (b : Bool)
      → w.catchall ≡ b
      → I w
      → S Monitored Keeps
          (if b then process_udp h args header m w >>= (λ x. ok (args, x.1)) else ok (args, w))
  only_caught-Keeps header m args w false e k = passed args w k
  only_caught-Keeps header m args w true e k =
      logic.bind Kept Keeps (process_udp h args header m w) _ (udp args header m w e k)
        (λ x l. passed args x.1 l)

  received-Keeps :
      (header : DpHeader) (protocol : ℕ) (m : Bytes) (args : DpArgs) (w : World)
      → I w
      → S Monitored Keeps (received h w.catchall header protocol m args w)
  unfolding received
  received-Keeps header protocol m args w k = elim (Bool-cases (protocol == 6)) [
    | inl is_tcp ↦ rw is_tcp (
        logic.bind Kept Keeps (process_tcp h args header m w) _ (tcp args header m w k)
          (λ x l. passed args x.1 l))
    | inr other ↦ elim (Bool-cases (protocol == 17)) [
      | inr unknown ↦ rw (other, unknown) (passed args w k)
      | inl is_udp ↦ rw (other, is_udp) (only_caught-Keeps header m args w w.catchall refl k)
    ]
  ]

  delivered-Keeps :
      (header : DpHeader) (o : Option (ℕ × ℕ)) (m : Bytes) (args : DpArgs) (w : World)
      → I w
      → S Monitored Keeps (delivered h w.catchall header o m args w)
  unfolding delivered
  delivered-Keeps header none m args w k = passed args w k
  delivered-Keeps header (some (type, at)) m args w k = elim (Bool-cases (type == 0x0800)) [
    | inl v4 ↦ rw v4 (received-Keeps header _ _ _ w k)
    | inr other ↦ elim (Bool-cases (type == 0x86dd)) [
      | inl v6 ↦ rw (other, v6) (received-Keeps header _ _ _ w k)
      | inr unknown ↦ rw (other, unknown) (passed args w k)
    ]
  ]

  dispatch-Keeps :
      (linktype : LinkType) (frames : List (DpHeader × Bytes)) (x : Monitored)
      → I x.1
      → S Monitored Keeps (dispatch h linktype frames x)
  unfolding dispatch
  dispatch-Keeps linktype [] x k = passed x.0 x.1 k
  dispatch-Keeps linktype (f ∷ frames) x k =
      logic.bind Keeps Keeps (dp_pcap_callback (open_handle h linktype) x.1.catchall f.0 f.1 x) _
        (rw (dp_pcap_callback-delivered h x.1.catchall f.0 linktype f.1 x.0 x.1)
          (delivered-Keeps f.0 (framed linktype f.1) f.1 x.0 x.1 k))
        (λ y l. dispatch-Keeps linktype frames y l)

  pub dp_dispatch-Keeps :
      (linktype : LinkType) (device : List ℕ) (frames : List (DpHeader × Bytes)) (x : Monitored)
      → I x.1
      → S Monitored Keeps (dp_dispatch h linktype device frames x)
  unfolding dp_dispatch
  dp_dispatch-Keeps linktype device frames x k = dispatch-Keeps linktype frames _ k
