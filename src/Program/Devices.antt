-- ===== src/Program/Devices.antt =====
-- The opening of the devices by the command line program (src/main.cpp), beside that of the library
-- (src/libnethogs.cpp), and what becomes of the wish to quit.
use nethogs.Base.{
  ℕ, zero, suc, ◌≤◌, ◌≡◌, refl, ap, ◌∙◌, Bool, true, false, Option, none, some, List, [], ◌∷◌,
  arith, length, Result, ok, guard, exited, ◌>>◌, inl, inr, In, Option-cases, Bool-cases,
}
use nethogs.LocalAddr.{IfAddr, get_local}
use nethogs.Decpcap.{LinkType}
use nethogs.Opening.{Pcap, Select, dp_open_live, open_device, wait_for_next_trigger}
use nethogs.Monitor.{System, Setup, located, opened, init_loop}
use nethogs.Monitor.Starting.{Answers, round_some, opened-called}
use nethogs.Program.{main_device, setup_loop}

-- What both programs know of a device once getLocal has been asked for it.
abbrev local_setup : System → List ℕ → Option (List IfAddr) → Setup → Setup
local_setup sys d ifaddr v = (located sys d ifaddr v).1

-- Without the option -p, main does for a device what the library does.
main_device-opened :
    (pcap : Pcap) (filter : Option (List ℕ)) (d : List ℕ) (v : Setup)
    → main_device pcap 0 filter d v ≡ opened (open_device pcap filter d v.watched) v
unfolding main_device open_device
main_device-opened pcap filter d v = elim (Option-cases (dp_open_live pcap d 0 filter)) [
  | inl shut ↦ rw (shut, open_device, main_device) refl
  | inr (linktype, made) ↦ elim (Bool-cases v.watched.use_select) [
    | inr off ↦ rw (made, off, open_device, main_device) refl
    | inl on ↦ elim (Option-cases (pcap.selectable_fd d)) [
      | inl lacks ↦ rw (made, on, lacks, open_device, main_device) refl
      | inr (fd, has) ↦ rw (made, on, has, open_device, main_device) refl
    ]
  ]
]

pub main_device-called :
    (pcap : Pcap) (promisc : ℕ) (filter : Option (List ℕ)) (d : List ℕ) (v : Setup)
    → ((main_device pcap promisc filter d v).called ≡ v.called)
      × ((main_device pcap promisc filter d v).local_addrs ≡ v.local_addrs)
unfolding main_device
main_device-called pcap promisc filter d v =
    elim (Option-cases (dp_open_live pcap d promisc filter)) [
      | inl shut ↦ (rw (shut, main_device) refl, rw (shut, main_device) refl)
      | inr (linktype, made) ↦ elim (Bool-cases v.watched.use_select) [
        | inr off ↦ (rw (made, off, main_device) refl, rw (made, off, main_device) refl)
        | inl on ↦ elim (Option-cases (pcap.selectable_fd d)) [
          | inl lacks ↦
              (rw (made, on, lacks, main_device) refl, rw (made, on, lacks, main_device) refl)
          | inr (fd, has) ↦
              (rw (made, on, has, main_device) refl, rw (made, on, has, main_device) refl)
        ]
      ]
    ]

abbrev setup_at :
    System
    → ℕ
    → Option (List ℕ)
    → List ℕ
    → List (List ℕ)
    → Setup
    → Option (List IfAddr)
    → Result Setup
setup_at sys promisc filter d next v ifaddr =
    guard (located sys d ifaddr v).0 exited
    >> setup_loop sys promisc filter next
        (main_device sys.pcap promisc filter d (local_setup sys d ifaddr v))

-- Without the option -p, and where getifaddrs gives a list from its second call on, the command line
-- program and the library set up the devices alike: the loop of main ends, with what that of
-- nethogsmonitor_init comes to, which needs no more rounds than there are devices.
pub setup_loop-init_loop :
    (sys : System) (filter : Option (List ℕ)) (devices : List (List ℕ)) (fuel : ℕ) (v : Setup)
    → ((n : ℕ) → 1 ≤ n → Answers sys n)
    → 1 ≤ v.called
    → length devices ≤ fuel
    → (v' : Setup) × (setup_loop sys 0 filter devices v ≡ ok v')
      × (init_loop fuel sys filter devices v ≡ some v')
unfolding setup_loop init_loop get_local
setup_loop-init_loop sys filter [] fuel v h c e = (v, refl, refl)
setup_loop-init_loop sys filter (d ∷ devices) zero v h c e = absurd (omega arith)
setup_loop-init_loop sys filter (d ∷ devices) (suc fuel) v h c e =
    let (ifaddr, gives) = h v.called c in
    let o = open_device sys.pcap filter d v.watched in
    let found = local_setup sys d (some ifaddr) v in
    let v1 = opened o found in
    let called = opened-called o found in
    let (v', f, g) =
      setup_loop-init_loop sys filter devices fuel v1 h (omega arith) (omega arith) in
    (
      v',
      ap (setup_at sys 0 filter d devices v) gives
          ∙ ap (setup_loop sys 0 filter devices) (main_device-opened sys.pcap filter d found)
          ∙ f,
      round_some fuel sys filter d devices v ifaddr gives ∙ g,
    )

-- A device without a descriptor ends the use of select for good.
opened-use_select :
    (sys : System) (promisc : ℕ) (filter : Option (List ℕ)) (d : List ℕ) (v : Setup)
    → v.watched.use_select ≡ false
    → (main_device sys.pcap promisc filter d v).watched.use_select ≡ false
unfolding main_device
opened-use_select sys promisc filter d v e = ground arith

unselectable :
    (sys : System) (promisc : ℕ) (filter : Option (List ℕ)) (d : List ℕ) (v : Setup)
    (linktype : LinkType)
    → dp_open_live sys.pcap d promisc filter ≡ some linktype
    → sys.pcap.selectable_fd d ≡ none
    → (main_device sys.pcap promisc filter d v).watched.use_select ≡ false
unfolding main_device
unselectable sys promisc filter d v linktype e f = ground arith

passed : {A : Type 0} (b : Bool) (m : Result A) (a : A) → (guard b exited >> m) ≡ ok a → m ≡ ok a
passed true m a e = e
passed false m a e = absurd (ground arith)

-- What a round that does not end the program leaves.
setup_next :
    (sys : System) (promisc : ℕ) (filter : Option (List ℕ)) (d : List ℕ) (devices : List (List ℕ))
    (v v' : Setup)
    → setup_loop sys promisc filter (d ∷ devices) v ≡ ok v'
    → let v1 = (located sys d (sys.getifaddrs v.called) v).1 in
      setup_loop sys promisc filter devices (main_device sys.pcap promisc filter d v1) ≡ ok v'
unfolding setup_loop
setup_next sys promisc filter d devices v v' e = passed _ _ v' e

still_off :
    (sys : System) (promisc : ℕ) (filter : Option (List ℕ)) (devices : List (List ℕ)) (v v' : Setup)
    → v.watched.use_select ≡ false
    → setup_loop sys promisc filter devices v ≡ ok v'
    → v'.watched.use_select ≡ false
unfolding setup_loop
still_off sys promisc filter [] v v' e f = let same : v ≡ v' = ground arith in rw (← same) e
still_off sys promisc filter (d ∷ devices) v v' e f =
    still_off sys promisc filter devices _ v'
      (opened-use_select sys promisc filter d (located sys d (sys.getifaddrs v.called) v).1 e)
      (setup_next sys promisc filter d devices v v' f)

switched_off :
    (sys : System) (promisc : ℕ) (filter : Option (List ℕ)) (devices : List (List ℕ)) (d : List ℕ)
    (linktype : LinkType) (v v' : Setup)
    → In d devices
    → dp_open_live sys.pcap d promisc filter ≡ some linktype
    → sys.pcap.selectable_fd d ≡ none
    → setup_loop sys promisc filter devices v ≡ ok v'
    → v'.watched.use_select ≡ false
switched_off sys promisc filter [] d linktype v v' i e f g = absurd i
switched_off sys promisc filter (x ∷ devices) d linktype v v' (inl same) e f g =
    still_off sys promisc filter devices _ v'
      (unselectable sys promisc filter x (located sys x (sys.getifaddrs v.called) v).1 linktype
        (rw same e) (rw same f))
      (setup_next sys promisc filter x devices v v' g)
switched_off sys promisc filter (x ∷ devices) d linktype v v' (inr i) e f g =
    switched_off sys promisc filter devices d linktype _ v' i e f
      (setup_next sys promisc filter x devices v v' g)

-- If one of the devices that are opened has no descriptor to select on, no wait of the program ends
-- it: the byte that quit_cb writes to the pipe, for the key `q` or for SIGINT, is never seen.
pub setup_loop-never_quits :
    (sys : System) (promisc : ℕ) (filter : Option (List ℕ)) (devices : List (List ℕ)) (d : List ℕ)
    (linktype : LinkType) (v v' : Setup) (select : Select) (pipe : Option (ℕ × ℕ))
    → In d devices
    → dp_open_live sys.pcap d promisc filter ≡ some linktype
    → sys.pcap.selectable_fd d ≡ none
    → setup_loop sys promisc filter devices v ≡ ok v'
    → wait_for_next_trigger select pipe v'.watched ≡ true
unfolding wait_for_next_trigger
setup_loop-never_quits sys promisc filter devices d linktype v v' select pipe i e f g =
    rw (switched_off sys promisc filter devices d linktype v v' i e f g) refl
