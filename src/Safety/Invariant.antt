-- ===== src/Safety/Invariant.antt =====
-- The invariant of the lists of connections and processes (src/connection.cpp, src/process.cpp).
use nethogs.Base.{
  Bool, true, false, ℕ, ◌<◌, ◌≡◌, ◌≢◌, sym, Option, none, some, List, [], ◌∷◌, ◌++◌, All,
  All-append, inl, inr, Bool-cases, ◌==◌,
}
use nethogs.LocalAddr.{LocalAddr}
use nethogs.Store.Live.{IsLive, Apart, Distinct}
use nethogs.Process.{Process}
use nethogs.World.{World, find_address, link_connection}
use nethogs.Timeouts.Removal.{EndsUnknown}

-- The connections of all processes.
unfoldable pub owned : List Process → List ℕ
owned [] = []
owned (p ∷ ps) = p.connections ++ owned ps

abbrev pub Below : ℕ → List ℕ → Type 0
Below n = All (λ i. i < n)

-- The pointer to a process, if there is one, leads to a process of the list.
abbrev pub Listed : Option ℕ → List Process → Type 0
Listed none ps = Unit
Listed (some a) ps = (p : Process) × (find_address a ps ≡ some p)

-- UDP is only watched with a process for it.
abbrev pub Catches : Bool → Option ℕ → Type 0
Catches true o = (a : ℕ) × (o ≡ some a)
Catches false o = Unit

-- Every pointer of the lists leads to an object that was made and not deleted; no connection is in
-- two processes, or twice in one; the machine has an address; the unknown processes are listed.
pub record IsSafe (w : World) : Type 0 where
  pub addressed : (l : LocalAddr) × (ls : List LocalAddr) × (w.local_addrs ≡ l ∷ ls)
  pub linked : All (IsLive w.store.heap) w.store.connections
  pub linked_below : Below w.store.next_object w.store.connections
  pub owned_live : All (IsLive w.store.heap) (owned w.processes)
  pub owned_below : Below w.store.next_object (owned w.processes)
  pub owned_distinct : Distinct (owned w.processes)
  pub tcp : Listed (some w.unknowntcp) w.processes
  pub udp : Listed w.unknownudp w.processes
  pub ends : EndsUnknown w w.processes
  pub inhabited : w.processes ≢ []
  pub catches : Catches w.catchall w.unknownudp

pub All-left {ℓ κ} :
    {A : Type ℓ} (P : A → Type κ) (xs ys : List A) → All P (xs ++ ys) → All P xs × All P ys
All-left P [] ys h = (tt, h)
All-left P (x ∷ xs) ys h = let (l, r) = All-left P xs ys h.1 in ((h.0, l), r)

-- A node for a connection is put into one process at most.
pub owned-link :
    (P : ℕ → Type 0) (a i : ℕ) (ps : List Process)
    → P i
    → All P (owned ps)
    → All P (owned (link_connection a i ps))
unfolding owned link_connection
owned-link P a i [] h k = tt
owned-link P a i (p ∷ ps) h k =
    let (l, r) = All-left P p.connections (owned ps) k in
    elim (Bool-cases (p.address == a)) [
      | inl here ↦ rw here (h, k)
      | inr there ↦ rw there (All-append P p.connections _ l (owned-link P a i ps h r))
    ]

Apart-sym : (i : ℕ) (xs : List ℕ) → Apart i xs → All (λ j. j ≢ i) xs
Apart-sym i [] h = tt
Apart-sym i (x ∷ xs) h = (λ e. h.0 (sym e), Apart-sym i xs h.1)

-- Two lists are apart from one another.
abbrev pub Disjoint : List ℕ → List ℕ → Type 0
Disjoint xs ys = All (λ i. Apart i ys) xs

pub Distinct-split :
    (xs ys : List ℕ) → Distinct (xs ++ ys) → Distinct xs × Distinct ys × Disjoint xs ys
Distinct-split [] ys d = (tt, d, tt)
Distinct-split (x ∷ xs) ys d =
    let (l, r) = All-left (λ j. x ≢ j) xs ys d.0 in
    let (dx, dy, a) = Distinct-split xs ys d.1 in ((l, dx), dy, (r, a))

pub Distinct-join :
    (xs ys : List ℕ) → Distinct xs → Distinct ys → Disjoint xs ys → Distinct (xs ++ ys)
Distinct-join [] ys dx dy a = dy
Distinct-join (x ∷ xs) ys dx dy a =
    (All-append (λ j. x ≢ j) xs ys dx.0 a.0, Distinct-join xs ys dx.1 dy a.1)

Disjoint-link :
    (a i : ℕ) (xs : List ℕ) (ps : List Process)
    → Apart i xs
    → Disjoint xs (owned ps)
    → Disjoint xs (owned (link_connection a i ps))
Disjoint-link a i [] ps h d = tt
Disjoint-link a i (x ∷ xs) ps h d =
    (owned-link (λ j. x ≢ j) a i ps (λ e. h.0 (sym e)) d.0, Disjoint-link a i xs ps h.1 d.1)

pub Distinct-link :
    (a i : ℕ) (ps : List Process)
    → Apart i (owned ps)
    → Distinct (owned ps)
    → Distinct (owned (link_connection a i ps))
unfolding owned link_connection
Distinct-link a i [] h d = tt
Distinct-link a i (p ∷ ps) h d =
    let (l, r) = All-left (λ j. i ≢ j) p.connections (owned ps) h in
    let (dp, dr, apart) = Distinct-split p.connections (owned ps) d in
    elim (Bool-cases (p.address == a)) [
      | inl here ↦ rw here (h, d)
      | inr there ↦ rw there (
          Distinct-join p.connections _ dp (Distinct-link a i ps r dr)
            (Disjoint-link a i p.connections ps l apart))
    ]
