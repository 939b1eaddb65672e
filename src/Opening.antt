-- ===== src/Opening.antt =====
-- What both front ends do to watch a device: dp_open_live (src/decpcap.c), create_self_pipe and
-- wait_for_next_trigger (src/main.cpp, src/libnethogs.cpp), and how the library opens a device. What
-- libpcap and the system answer are parameters; what is only printed is left out.
use nethogs.Base.{
  ℕ, suc, Bool, true, false, not, Option, none, some, List, [], ◌∷◌, ◌++◌, ltb, ◌==◌, if◌then◌else◌,
}
use nethogs.Decpcap.{LinkType}

-- The answers of libpcap for a device: pcap_open_live, in promiscuous mode or not, with pcap_datalink, pcap_compile and
-- pcap_setfilter for the text of a filter, pcap_get_selectable_fd.
pub record Pcap : Type 0 where
  pub open_live : List ℕ → ℕ → Option LinkType
  pub compiles : List ℕ → List ℕ → Bool
  pub sets_filter : List ℕ → List ℕ → Bool
  pub selectable_fd : List ℕ → Option ℕ

-- The filter is compiled and set, if there is one.
abbrev filtered : Pcap → List ℕ → Option (List ℕ) → Bool
filtered pcap device none = true
filtered pcap device (some filter) =
    if pcap.compiles device filter then pcap.sets_filter device filter else false

-- dp_open_live, by the link type of the handle.
unfoldable pub dp_open_live : Pcap → List ℕ → ℕ → Option (List ℕ) → Option LinkType
dp_open_live pcap device promisc filter = elim (pcap.open_live device promisc) [
  | none ↦ none
  | some linktype ↦ if filtered pcap device filter then some linktype else none
]

-- class handle; a handle that pcap_close was called for may not be used.
pub record Handle : Type 0 where
  pub devicename : List ℕ
  pub linktype : LinkType
  pub is_open : Bool

abbrev pub new_handle : List ℕ → LinkType → Handle
new_handle devicename linktype = record {
  devicename = devicename;
  linktype = linktype;
  is_open = true;
}

-- The globals handles, pc_loop_fd_list and pc_loop_use_select.
pub record Watched : Type 0 where
  pub handles : List Handle
  pub fd_list : List ℕ
  pub use_select : Bool

abbrev pub add_fd : Option ℕ → Watched → Watched
add_fd (some fd) w = record w { fd_list = w.fd_list ++ (fd ∷ []) }
add_fd none w = record w { fd_list = []; use_select = false }

-- A device is opened by the library, never in promiscuous mode, and its handle put before the others;
-- `none` is a device that cannot be opened.
unfoldable pub open_device : Pcap → Option (List ℕ) → List ℕ → Watched → Option Watched
unfolding dp_open_live
open_device pcap filter name w = elim (dp_open_live pcap name 0 filter) [
  | none ↦ none
  | some linktype ↦
      let w' = record w { handles = new_handle name linktype ∷ w.handles } in
      some (if w.use_select then add_fd (pcap.selectable_fd name) w' else w')
]

-- create_self_pipe: the ends that pipe gives, if both can be made non-blocking.
unfoldable pub create_self_pipe : Option (ℕ × ℕ) → (ℕ → Bool) → Option (ℕ × ℕ)
create_self_pipe none nonblocking = none
create_self_pipe (some (read, write)) nonblocking =
    if not (nonblocking read)
    then none
    else (if not (nonblocking write) then none else some (read, write))

-- The first argument of select: one more than the largest descriptor.
unfoldable pub count_fds : List ℕ → ℕ → ℕ
count_fds [] nfds = nfds
count_fds (fd ∷ it) nfds = count_fds it (if ltb nfds (suc fd) then suc fd else nfds)

abbrev pub is_set : ℕ → List ℕ → Bool
is_set fd [] = false
is_set fd (x ∷ fds) = if x == fd then true else is_set fd fds

-- select: the descriptors that are ready, of those below a bound and in a list, or a failure.
abbrev pub Select : Type 0
Select = ℕ → List ℕ → Option (List ℕ)

abbrev not_interrupted : Option (ℕ × ℕ) → Option (List ℕ) → Bool
not_interrupted (some (read, write)) (some ready) = not (is_set read ready)
not_interrupted _ _ = true

-- wait_for_next_trigger, by the self_pipe.
unfoldable pub wait_for_next_trigger : Select → Option (ℕ × ℕ) → Watched → Bool
unfolding count_fds
wait_for_next_trigger select self_pipe w =
    if w.use_select
    then not_interrupted self_pipe (select (count_fds w.fd_list 0) w.fd_list)
    else true
