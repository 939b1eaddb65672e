-- ===== src/Program/Main.antt =====
-- main of src/main.cpp as a whole, from the options to the end. SIGINT writes to the pipe as the key
-- `q` does, and is left out.
pub mod Outcome
use nethogs.Base.{
  ℕ, ℤ, Bool, true, false, Option, none, some, List, [], ◌∷◌, if◌then◌else◌, Result, ok, fault,
  exited, ◌>>=◌,
}
use nethogs.World.{World, initial_world}
use nethogs.Callbacks.{DpArgs}
use nethogs.Opening.{Watched}
use nethogs.Monitor.{System}
use nethogs.Cui.{Ui}
use nethogs.Program.{Options, initial, ends, goes_on, parse_options, main_setup}
use nethogs.Program.Rounds.{Turn, Running, Drawn, program_loop}

-- The state at the start of the main loop; `userdata` is what malloc gives.
unfoldable pub begun : Options → DpArgs → World × Watched × (ℕ × ℕ) → Running
begun o userdata (w, watched, self_pipe) = record {
  world = w;
  args = userdata;
  watched = watched;
  self_pipe = self_pipe;
  is_written = false;
  ui = record {
    sort_recv = o.sort_recv;
    showcommandline = o.showcommandline;
    view_mode = o.view_mode;
  };
  refreshcount = 0;
  last_refresh_time = 0;
}

-- clean_up, by the descriptors that it closes; procclean does nothing.
unfoldable pub clean_up : Running → List ℕ
clean_up p = p.watched.fd_list

module _ (value : ℤ → ℕ → ℕ) (number : ℕ → List ℕ) (sys : System) (privileges : ℕ × Bool × ℕ)
    (userdata : DpArgs) where
  -- main over the options that getopt gives, the names of devices behind them and the turns of its
  -- loop: the descriptors that are closed if it has ended, the state, and what was printed.
  unfoldable pub main :
      List (ℕ × List ℕ)
      → List (List ℕ)
      → List Turn
      → Result (Option (List ℕ) × Running × List Drawn)
  unfolding parse_options main_setup begun program_loop clean_up
  main opts devicenames turns = elim (parse_options opts initial) [
    | ends success ↦ fault exited
    | goes_on o ↦ do
      start ← main_setup sys privileges devicenames o initial_world
      (has_ended, p, prints) ← program_loop value number o turns (begun o userdata start)
      ok (if has_ended then some (clean_up p) else none, p, prints)
  ]
