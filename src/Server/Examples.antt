-- ===== src/Server/Examples.antt =====
-- A server with two workers, and the theorems at concrete inputs.
use streaming_platform.Prelude.{
  ◌≡◌, refl, true, false, none, some, List, [], ◌∷◌, ◌++◌, length, arith,
}
use streaming_platform.Text.{codes}
use streaming_platform.Broker.{Network, unreachable}
use streaming_platform.Server.{
  TcpServer, started, accept_client, worker_turn, request_stop, handle_client, serve,
}
use streaming_platform.Server.Queue.{
  Reach, starts, steps, accepts, turns, stops, accepted_order, Turn, at_queue, returning,
  turns_left,
}
use streaming_platform.Server.Start.{Setup, IsStart, start, start-IsStart}
use streaming_platform.Frame.{framed}
use streaming_platform.Server.Stream.{serve-framed}

-- Two connections, one of which a worker takes before the server stops.
abbrev stopping : TcpServer
stopping = request_stop (worker_turn (accept_client 8 (accept_client 7 (started 2))))

stopping-Reach : Reach 2 stopping
unfolding accept_client
stopping-Reach =
    steps (steps (steps (steps starts (accepts 7 refl)) (accepts 8 refl)) (turns (omega arith)))
      stops

accepted_order_example :
    stopping.accepted ≡ stopping.taken ++ (stopping.closed ++ stopping.pending_clients)
accepted_order_example = accepted_order stopping-Reach

-- The other worker takes the second connection, handle_client returns twice, and both end.
abbrev ending : List Turn
ending = at_queue ∷ returning ∷ returning ∷ at_queue ∷ at_queue ∷ []

-- The turns of `ending` are all that are left.
ending-all : length ending ≡ turns_left stopping
unfolding worker_turn accept_client request_stop
ending-all = refl

abbrev no_network : Network
no_network = record {
  reply = λ id request. none;
  sent = λ id request. false;
  forwarded = λ leader request. unreachable;
  clock = λ id. 0;
}

abbrev busy_port : Setup
busy_port = record { descriptor = some 3; binds = false; listens = true }

start-IsStart_example : IsStart busy_port 0 4 (start busy_port 0 4)
start-IsStart_example = start-IsStart busy_port 0 4

serve-framed_example :
    serve no_network ((1, 2 ∷ 3 ∷ 1 ∷ 1 ∷ 9 ∷ []) ∷ (2, []) ∷ []) (framed (codes "x" ∷ [])) none
    ≡ handle_client no_network ((1, codes "x") ∷ []) none
serve-framed_example =
    serve-framed no_network ((1, 2 ∷ 3 ∷ 1 ∷ 1 ∷ 9 ∷ []) ∷ (2, []) ∷ []) (codes "x" ∷ []) none
      (omega arith, tt) (omega arith, omega arith, tt)
