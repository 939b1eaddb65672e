-- ===== src/Tests/Rounds.antt =====
-- Trials: the main loop of the command line program.
use nethogs.Base.{
  pos, ◌≡◌, refl, ℕ, true, false, not, none, some, List, [], ◌∷◌, ok, inl, if◌then◌else◌,
}
use nethogs.LocalAddr.{af_unspec}
use nethogs.Callbacks.{Bytes, DpHeader}
use nethogs.Decpcap.{dlt_en10mb}
use nethogs.Opening.{new_handle}
use nethogs.Monitor.Rounds.{arrived}
use nethogs.Cui.Drawing.{no_entry}
use nethogs.Program.{Options, initial}
use nethogs.Program.Rounds.{Turn, Running, traced, program_loop, refresh_screen}
use nethogs.Program.Quitting.{all_busy, program_loop-quits}
use nethogs.Process.{Process}
use nethogs.World.{find_address}
use nethogs.Tests.{process_at}
use nethogs.Tests.Monitor.{busy, host, header, args}

-- A frame of no protocol that is known.
abbrev unknown_frame : Bytes
unknown_frame i = 0

-- What a turn finds for a device on which these frames have come.
abbrev turn_with : List (DpHeader × Bytes) → Turn
turn_with frames = record {
  arrivals = λ device. arrived frames;
  now = 400;
  key = none;
  rows = 24;
  cols = 80;
  getpwuid = λ uid. no_entry;
  select = λ is_written nfds fds. some (if is_written then 6 ∷ [] else []);
  host = host;
}

abbrev turns : List Turn
turns = turn_with ((header, unknown_frame) ∷ []) ∷ turn_with [] ∷ []

-- Two refreshes at most.
abbrev options : Options
options = record initial { tracemode = true; refreshlimit = 2 }

-- The process of unknown TCP.
abbrev unknown : Process
unknown = record (process_at 0 []) { name = some (b'x' ∷ []) }

-- What is printed of it.
abbrev texts : List (List ℕ)
texts = (b'x' ∷ b'/' ∷ b'0' ∷ b'/' ∷ b'0' ∷ 9 ∷ 9 ∷ 10 ∷ []) ∷ []

-- No program has been seen; quitting has been asked for.
abbrev running : Running
running = record {
  world = record busy { processes = unknown ∷ [] };
  args = args;
  watched = record {
    handles = new_handle (b'e' ∷ []) dlt_en10mb ∷ [];
    fd_list = 6 ∷ 5 ∷ [];
    use_select = true;
  };
  self_pipe = (6, 7);
  is_written = true;
  ui = record { sort_recv = true; showcommandline = false; view_mode = pos 1 };
  refreshcount = 0;
  last_refresh_time = 0;
}

-- The refresh of the first turn.
abbrev after : Running
after = record running {
  args = record args { device = b'e' ∷ []; sa_family = af_unspec };
  refreshcount = 1;
  last_refresh_time = 400;
}

looped :
    program_loop (λ mode bytes. bytes) (λ n. []) options turns running
    ≡ ok (true, after, traced texts ∷ [])
unfolding program_loop refresh_screen find_address
looped = refl

program_loop-quits_example : true ≡ not (all_busy running.watched.handles turns)
program_loop-quits_example =
    program_loop-quits (λ mode bytes. bytes) (λ n. []) options turns running after true
      (traced texts ∷ []) refl refl (inl refl)
      (λ nfds fds i h. (6 ∷ [], refl, inl refl), (λ nfds fds i h. (6 ∷ [], refl, inl refl), tt))
      looped
