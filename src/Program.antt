-- ===== src/Program.antt =====
-- The start of the command line program: its options, the check of its privileges and the opening of
-- the devices (src/main.cpp). What getopt gives is a list of options with their arguments; the end of
-- the program is a value that says whether it is a success.
pub mod Choices
pub mod Devices
pub mod Rounds
pub mod Course
pub mod Quitting
pub mod Safe
pub mod Main
use nethogs.Base.{
  ℕ, suc, ◌+◌, ◌-◌, ◌*◌, ◌/◌, ◌%◌, ◌^◌, Bool, true, false, not, ◌&&◌, ◌||◌, Option, none, some,
  List, [], ◌∷◌, ltb, leb, ◌==◌, if◌then◌else◌, ℤ, pos, negsuc, sub_ℕ, rem_int, to_int, Result, ok,
  exited, fault, guard, ◌>>◌, ◌>>=◌, ◌++◌,
}
use nethogs.Timeouts.{process_init}
use nethogs.World.{World}
use nethogs.Devices.{get_devices}
use nethogs.Opening.{Pcap, Watched, new_handle, dp_open_live, create_self_pipe}
use nethogs.LocalAddr.{get_local}
use nethogs.Monitor.{System, Setup}
use nethogs.Cui.{viewmode_count}

-- isspace in the C locale.
abbrev is_space : ℕ → Bool
is_space c = (c == 32) || (leb 9 c && leb c 13)

unfoldable pub skip_spaces : List ℕ → List ℕ
skip_spaces [] = []
skip_spaces (c ∷ s) = let rest = skip_spaces s in if is_space c then rest else c ∷ s

abbrev is_digit : ℕ → Bool
is_digit c = leb b'0' c && leb c b'9'

unfoldable pub read_digits : ℕ → List ℕ → ℕ
read_digits n [] = n
read_digits n (c ∷ s) =
    let rest = read_digits (n * 10 + (c - b'0')) s in if is_digit c then rest else n

abbrev at_most : ℕ → ℕ → ℕ
at_most bound n = if ltb bound n then bound else n

-- The conversion of a `long` that is not positive to `int`.
abbrev to_int_neg : ℕ → ℤ
to_int_neg n = to_int (2 ^ 64 - n)

-- atoi as the C library has it: (int) strtol (s, NULL, 10), which stops at the bounds of `long`.
unfoldable pub atoi : List ℕ → ℤ
unfolding skip_spaces read_digits
atoi s = elim (skip_spaces s) [
  | [] ↦ pos 0
  | ◌∷◌ c rest ↦
      if c == b'-'
      then to_int_neg (at_most (2 ^ 63) (read_digits 0 rest))
      else to_int (at_most (2 ^ 63 - 1) (read_digits 0 (if c == b'+' then rest else c ∷ rest)))
]

-- The conversion of an `int` to `unsigned`.
abbrev pub to_unsigned : ℤ → ℕ
to_unsigned (pos n) = n % 2 ^ 32
to_unsigned (negsuc n) = (2 ^ 32 - suc (n % 2 ^ 32)) % 2 ^ 32

-- The globals and locals that the options set.
pub record Options : Type 0 where
  pub bughuntmode : Bool
  pub tracemode : Bool
  pub promisc : ℕ
  pub sort_recv : Bool
  pub refreshdelay : ℤ
  pub view_mode : ℤ
  pub refreshlimit : ℕ
  pub showcommandline : Bool
  pub all : Bool
  pub filter : Option (List ℕ)
  pub catchall : Bool

abbrev pub initial : Options
initial = record {
  bughuntmode = false;
  tracemode = false;
  promisc = 0;
  sort_recv = true;
  refreshdelay = pos 1;
  view_mode = pos 0;
  refreshlimit = 0;
  showcommandline = false;
  all = false;
  filter = none;
  catchall = false;
}

-- What comes of the options: the program ends, as a success or a failure, or it goes on.
pub data Parsed : Type 0 where
  ends : Bool → Parsed
  goes_on : Options → Parsed

-- The switch on an option that getopt gives, with `optarg`.
unfoldable pub set_option : ℕ → List ℕ → Options → Parsed
unfolding atoi
set_option opt optarg o =
    if opt == b'V'
    then ends true
    else (if opt == b'h'
        then ends true
        else (if opt == b'b'
            then goes_on (record o { bughuntmode = true; tracemode = true })
            else (if opt == b't'
                then goes_on (record o { tracemode = true })
                else (if opt == b'p'
                    then goes_on (record o { promisc = 1 })
                    else (if opt == b's'
                        then goes_on (record o { sort_recv = false })
                        else (if opt == b'd'
                            then goes_on (record o { refreshdelay = atoi optarg })
                            else (if opt == b'v'
                                then goes_on
                                    (record o { view_mode = rem_int (atoi optarg) viewmode_count })
                                else (if opt == b'c'
                                    then goes_on
                                        (record o { refreshlimit = to_unsigned (atoi optarg) })
                                    else (if opt == b'l'
                                        then goes_on (record o { showcommandline = true })
                                        else (if opt == b'a'
                                            then goes_on (record o { all = true })
                                            else (if opt == b'f'
                                                then goes_on (record o { filter = some optarg })
                                                else (if opt == b'C'
                                                    then goes_on (record o { catchall = true })
                                                    else ends false))))))))))))

-- The loop over the options.
unfoldable pub parse_options : List (ℕ × List ℕ) → Options → Parsed
unfolding set_option
parse_options [] o = goes_on o
parse_options ((opt, optarg) ∷ rest) o = elim (set_option opt optarg o) [
  | ends success ↦ ends success
  | goes_on o' ↦ parse_options rest o'
]

-- A bit of the second word of security.capability: CAP_NET_ADMIN is 12, CAP_NET_RAW 13.
abbrev has_bit : ℕ → ℕ → Bool
has_bit bit word = (word / 2 ^ bit) % 2 == 1

-- The program is run by root, or its file, if it can be found, has both capabilities.
unfoldable pub is_privileged : ℕ → Bool → ℕ → Bool
is_privileged euid found permitted =
    if euid == 0 then true else found && (has_bit 12 permitted && has_bit 13 permitted)

-- The descriptor of a device for select; one without ends the use of select.
abbrev watch_fd : Option ℕ → Setup → Setup
watch_fd (some fd) v = record v {
  watched = record v.watched { fd_list = v.watched.fd_list ++ (fd ∷ []) };
}
watch_fd none v = record v { watched = record v.watched { use_select = false; fd_list = [] } }

-- What the loop of main does for a device behind getLocal, in promiscuous mode or not.
unfoldable pub main_device : Pcap → ℕ → Option (List ℕ) → List ℕ → Setup → Setup
unfolding dp_open_live
main_device pcap promisc filter current_dev v =
    elim (dp_open_live pcap current_dev promisc filter) [
      | none ↦ record v { nb_failed_devices = suc v.nb_failed_devices }
      | some linktype ↦
          let handles = new_handle current_dev linktype ∷ v.watched.handles in
          let v' = record v { watched = record v.watched { handles = handles } } in
          if v.watched.use_select then watch_fd (pcap.selectable_fd current_dev) v' else v'
    ]

-- The loop over the devices; if getLocal fails the program ends.
unfoldable pub setup_loop : System → ℕ → Option (List ℕ) → List (List ℕ) → Setup → Result Setup
unfolding get_local main_device
setup_loop sys promisc filter [] v = ok v
setup_loop sys promisc filter (current_dev ∷ next) v = do
  let ifaddr = sys.getifaddrs v.called
  let (done, addrs) = get_local sys.net sys.raw current_dev ifaddr v.local_addrs
  let v' = record v { local_addrs = addrs; nb_devices = suc v.nb_devices; called = suc v.called }
  guard done exited
  setup_loop sys promisc filter next (main_device sys.pcap promisc filter current_dev v')

abbrev or_exit : {A : Type 0} → Option A → Result A
or_exit none = fault exited
or_exit (some a) = ok a

abbrev is_empty : List (List ℕ) → Bool
is_empty [] = true
is_empty (d ∷ devices) = false

-- main after the options, up to the main loop: the state, what is watched, and the pipe.
unfoldable pub main_setup :
    System → (ℕ × Bool × ℕ) → List (List ℕ) → Options → World → Result (World × Watched × (ℕ × ℕ))
unfolding process_init get_devices is_privileged create_self_pipe setup_loop
main_setup sys (euid, found, permitted) devicenames o w = do
  let w' = process_init (record w { catchall = o.catchall })
  let devices = get_devices devicenames o.all (sys.getifaddrs 0)
  guard (not (is_empty devices)) exited
  guard (is_privileged euid found permitted) exited
  (read, write) ← or_exit (create_self_pipe sys.pipe sys.nonblocking)
  v ← setup_loop sys o.promisc o.filter devices (record {
    local_addrs = w'.local_addrs;
    watched = record { handles = []; fd_list = read ∷ []; use_select = true };
    nb_devices = 0;
    nb_failed_devices = 0;
    called = 1;
  })
  guard (not (v.nb_devices == v.nb_failed_devices)) exited
  ok (record w' { local_addrs = v.local_addrs }, v.watched, (read, write))
