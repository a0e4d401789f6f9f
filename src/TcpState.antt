-- ===== src/TcpState.antt =====
-- http2/state_machine.go: the states of a TCP connection as the server sees them, and the table of
-- transitions. What `OnEnter` does to the processor is in `Processor`.
pub mod Table
use grpcreplay.Base.{
  ℕ, Bool, true, false, ◌&&◌, Option, none, some, List, [], ◌∷◌, ◌++◌, ◌==◌, if◌then◌else◌, ◌≡◌,
  ◌≢◌,
}
use grpcreplay.NetPkg.{DirectConn}

pub data State : Type 0 where
  listen syn_received1 syn_received2 established close_wait last_ack closed : State

pub data Event : Type 0 where
  receive_syn receive_ack send_syn_ack receive_fin send_ack send_fin receive_rst : Event

pub data Action : Type 0 where
  change_state do_nothing : Action

pub record Transition : Type 0 where
  pub from : State
  pub event : Event
  pub to : State
  pub action : Action

abbrev row : State → Event → State → Action → Transition
row from event to action = record { from = from; event = event; to = to; action = action }

-- The table of `InitTCPFSM`.
abbrev pub transitions : List Transition
transitions =
    row listen receive_syn syn_received1 change_state
    ∷ row syn_received1 send_syn_ack syn_received2 change_state
    ∷ row syn_received2 receive_ack established change_state
    ∷ row established receive_ack established do_nothing
    ∷ row established send_ack established do_nothing
    ∷ row syn_received1 receive_syn syn_received1 do_nothing
    ∷ row syn_received2 send_syn_ack syn_received2 do_nothing
    ∷ row listen send_ack listen do_nothing
    ∷ row established receive_fin close_wait change_state
    ∷ row close_wait send_ack close_wait do_nothing
    ∷ row close_wait send_fin last_ack change_state
    ∷ row last_ack receive_ack closed change_state
    ∷ row established receive_rst closed change_state
    ∷ row listen receive_rst closed change_state
    ∷ []

abbrev pub state_number : State → ℕ
state_number listen = 0
state_number syn_received1 = 1
state_number syn_received2 = 2
state_number established = 3
state_number close_wait = 4
state_number last_ack = 5
state_number closed = 6

abbrev pub event_number : Event → ℕ
event_number receive_syn = 0
event_number receive_ack = 1
event_number send_syn_ack = 2
event_number receive_fin = 3
event_number send_ack = 4
event_number send_fin = 5
event_number receive_rst = 6

-- The first row of a table for a state and an event.
abbrev pub find_row : List Transition → State → Event → Option Transition
find_row [] s e = none
find_row (t ∷ ts) s e =
    if (state_number t.from == state_number s) && (event_number t.event == event_number e)
    then some t
    else find_row ts s e

-- github.com/smallnest/gofsm: `Trigger` looks the state and the event up in the table. No row: an
-- error (`false`). A row that keeps the state: its action alone, which only logs. Any other row:
-- `OnExit`, which is empty, the action, and `OnEnter`, which is `enter`.
pub record GoFsm : Type 1 where
  pub trigger : (S : Type 0) → List Transition → (State → S → S) → State → Event → S → S × Bool
  pub trigger_none :
      (S : Type 0) (ts : List Transition) (enter : State → S → S) (s : State) (e : Event) (x : S)
      → find_row ts s e ≡ none
      → trigger S ts enter s e x ≡ (x, false)
  pub trigger_stays :
      (S : Type 0) (ts : List Transition) (enter : State → S → S) (s : State) (e : Event) (x : S)
      (t : Transition)
      → find_row ts s e ≡ some t
      → t.to ≡ s
      → trigger S ts enter s e x ≡ (x, true)
  pub trigger_moves :
      (S : Type 0) (ts : List Transition) (enter : State → S → S) (s : State) (e : Event) (x : S)
      (t : Transition)
      → find_row ts s e ≡ some t
      → t.to ≢ s
      → trigger S ts enter s e x ≡ (enter t.to x, true)

pub record TcpConnectionState : Type 0 where
  pub dc : DirectConn
  pub state : State
  pub states : List State

unfoldable pub new_tcp_connection : DirectConn → TcpConnectionState
new_tcp_connection dc = record { dc = dc; state = listen; states = listen ∷ [] }
