-- ===== src/Redream/Commands.antt =====
-- app/recipes/redream/commands.c: the commands that one thread reads and another runs, between the
-- frames of the game (read_commands, pthread_cond_wait, function_named, and of save what it does to
-- `saver`). What a command does to the game is redream's. The file of commands, a pipe, is the list of
-- what fscanf will read.
pub mod Order
pub mod Ends
mod Tests
use Prim.Native.String.{String}
use text.Mathlib.Text.{◌==◌ as str_eq}
use anyconsole.Base.{
  ℕ, zero, suc, ◌+◌, Bool, true, false, Option, none, some, List, [], ◌∷◌, ◌++◌, if◌then◌else◌,
}

pub data Function : Type 0 where
  save : Function
  load : Function

-- A function with its slot: `pending` with `pending_slot`.
abbrev pub Command : Type 0
Command = Function × ℕ

unfoldable pub function_named : String → Option Function
function_named name =
    if str_eq name "save"
    then some Function.save
    else if str_eq name "load"
    then some Function.load
    else none

-- `is_waiting` while the reader is in sem_wait. `posted` is the semaphore, and `ran` the commands
-- that have run, in order.
pub record State : Type 0 where
  pub input : List (String × ℕ)
  pub is_waiting : Bool
  pub pending : Option Command
  pub posted : ℕ
  pub saver : Option ℕ
  pub ran : List Command

-- What happens next: the reader reads a command, or comes back from sem_wait and waitpid; or the game
-- waits for its next frame. `forked` is what fork gives, if the frame saves.
pub data Event : Type 0 where
  read : Event
  frame : Option ℕ → Event
  wake : Event

-- The reader posts the command that it has read, and passes over an unknown one.
unfoldable pub post : Option Function → ℕ → List (String × ℕ) → State → State
post none slot rest s = record s { input = rest }
post (some function) slot rest s = record s {
  input = rest;
  pending = some (function, slot);
  is_waiting = true;
}

unfoldable pub read_command : List (String × ℕ) → State → Option State
read_command [] s = none
read_command ((name, slot) ∷ rest) s = some (post (function_named name) slot rest s)

-- save keeps what fork gives, and load does not fork.
unfoldable pub saver_of : Function → Option ℕ → Option ℕ → Option ℕ
saver_of save forked saver = forked
saver_of load forked saver = saver

-- pthread_cond_wait of the frame condition: the command that is pending runs.
unfoldable pub run_pending : Option Command → Option ℕ → State → Option State
run_pending none forked s = none
run_pending (some (function, slot)) forked s = some (record s {
  pending = none;
  saver = saver_of function forked s.saver;
  ran = s.ran ++ ((function, slot) ∷ []);
  posted = suc s.posted;
})

-- sem_wait comes back, and the saver has ended.
unfoldable pub wake_up : ℕ → State → Option State
wake_up zero s = none
wake_up (suc posted) s = some (record s { posted = posted; saver = none; is_waiting = false })

-- `none` where the event cannot happen.
unfoldable pub step : Event → State → Option State
step read s = if s.is_waiting then none else read_command s.input s
step (frame forked) s = run_pending s.pending forked s
step wake s = if s.is_waiting then wake_up s.posted s else none

abbrev pub and_then : Option State → (State → Option State) → Option State
and_then none f = none
and_then (some s) f = f s

unfoldable pub run : List Event → State → Option State
run [] s = some s
run (e ∷ es) s = and_then (step e s) (run es)

abbrev pub start : List (String × ℕ) → State
start input = record {
  input = input;
  is_waiting = false;
  pending = none;
  posted = 0;
  saver = none;
  ran = [];
}
