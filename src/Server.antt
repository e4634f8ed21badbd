-- ===== src/Server.antt =====
-- src/network/tcp_server.cpp: the queue of accepted connections, and the requests of one connection.
-- Sockets are numbers; what `accept` and `read_frame` give is an argument. The pending mutex makes
-- each change of the queue one step of the accepting thread, of a worker, or of `stop`.
pub mod Queue
pub mod Replicas
pub mod Stream
pub mod Start
mod Examples
use streaming_platform.Prelude.{
  ℕ, ◌+◌, ◌-◌, nat_eq, Bool, true, false, not, Option, none, some, List, [], ◌∷◌, ◌++◌,
  if◌then◌else◌,
}
use streaming_platform.Text.{Bytes, codes}
use streaming_platform.Protocol.Message
use streaming_platform.Protocol.Message.{Request, RequestType, no_offset}
use streaming_platform.Protocol.Codec.{is_empty, parse_request}
use streaming_platform.Protocol.Reply.{serialize_response}
use streaming_platform.Frame.{read_frame}
use streaming_platform.Broker
use streaming_platform.Broker.{
  Broker, Network, failure, handle_request, handle_inter_broker_request,
}

-- The queue: sockets that wait, and, in order, those that `accept` gave, those that a worker has
-- taken and those that `stop` has closed. The source keeps the flag and the first list. `accepting` is
-- the accepting thread while it has not ended; of the workers that have not ended, `idle` stand at
-- the queue and `busy` are in handle_client.
pub record TcpServer : Type 0 where
  pub running : Bool
  pub accepting : Bool
  pub pending_clients : List ℕ
  pub idle : ℕ
  pub busy : ℕ
  pub accepted : List ℕ
  pub taken : List ℕ
  pub closed : List ℕ

-- start, once the socket listens
abbrev pub started : ℕ → TcpServer
started worker_count = record {
  running = true;
  accepting = true;
  pending_clients = [];
  idle = worker_count;
  busy = 0;
  accepted = [];
  taken = [];
  closed = [];
}

-- accept_loop: the connection goes to the end of the queue. A connection that `accept` gives while
-- the server stops goes there too.
unfoldable pub accept_client : ℕ → TcpServer → TcpServer
accept_client socket s = record s {
  pending_clients = s.pending_clients ++ socket ∷ [];
  accepted = s.accepted ++ socket ∷ [];
}

abbrev pub take_pending : List ℕ → TcpServer → TcpServer
take_pending [] s = if s.running then s else record s { idle = s.idle - 1 }
take_pending (socket ∷ rest) s = record s {
  pending_clients = rest;
  taken = s.taken ++ socket ∷ [];
  idle = s.idle - 1;
  busy = s.busy + 1;
}

-- accept_loop ends when it sees that the server stops.
unfoldable pub end_accepting : TcpServer → TcpServer
end_accepting s = record s { accepting = s.running }

-- What `poll` and `accept` give a turn of accept_loop: no connection in time, a failure, or a socket.
pub data Poll : Type 0 where
  nobody fails : Poll
  client : ℕ → Poll

-- One turn of accept_loop, with the test that ends it
unfoldable pub accept_turn : Poll → TcpServer → TcpServer
accept_turn nobody s = end_accepting s
accept_turn fails s = end_accepting s
accept_turn (client socket) s = end_accepting (accept_client socket s)

-- What an idle worker of worker_loop does at the queue: it takes the first connection, also when the
-- server stops, and calls handle_client; on an empty queue it waits, or ends when the server stops.
-- Where no worker is idle, nothing happens.
unfoldable pub worker_turn : TcpServer → TcpServer
worker_turn s = if nat_eq s.idle 0 then s else take_pending s.pending_clients s

-- handle_client of a worker returns, and its worker is at the queue again. It may never do so: it
-- blocks in read_frame while its client sends nothing.
unfoldable pub end_client : TcpServer → TcpServer
end_client s = if nat_eq s.busy 0 then s else record s { idle = s.idle + 1; busy = s.busy - 1 }

-- stop, before the threads are joined
unfoldable pub request_stop : TcpServer → TcpServer
request_stop s = record s { running = false }

-- stop, after the threads have ended: what is left in the queue is closed.
unfoldable pub close_pending : TcpServer → TcpServer
close_pending s = record s { pending_clients = []; closed = s.closed ++ s.pending_clients }

-- The types after which handle_client ends, and which go to handle_inter_broker_request.
abbrev pub is_inter_broker : RequestType → Bool
is_inter_broker Message.replicate = true
is_inter_broker Message.batch_replicate = true
is_inter_broker Message.ack = true
is_inter_broker Message.heartbeat = true
is_inter_broker Message.commit = true
is_inter_broker _ = false

-- What goes out on the connection for one request: an ACK of replication, if any, and the response.
abbrev pub reply : Option Bytes → Bytes → List Bytes
reply none response = response ∷ []
reply (some ack) response = ack ∷ response ∷ []

abbrev pub process_parsed : Network → ℕ → Request → Broker → Broker × List Bytes
process_parsed net now r b =
    if is_inter_broker r.type
    then (let (b', ack, response) = handle_inter_broker_request now r b in (b', reply ack response))
    else (let (b', response) = handle_request net r b in (b', serialize_response response ∷ []))

abbrev pub with_broker : (Broker → Broker × List Bytes) → Option Broker → Option Broker × List Bytes
with_broker f none =
    (none, serialize_response (failure (codes "broker_unavailable") no_offset) ∷ [])
with_broker f (some b) = let (b', out) = f b in (some b', out)

-- process_request; `none` is a null broker
unfoldable pub process_request : Network → ℕ → Bytes → Option Broker → Option Broker × List Bytes
process_request net now request broker =
    with_broker
      (λ b.
        if is_empty request
        then (b, serialize_response (failure (codes "empty_request") no_offset) ∷ [])
        else process_parsed net now (parse_request request) b)
      broker

-- handle_client: the payloads that read_frame gives, each with the time, while the server runs;
-- the end of the list is a failed read, a closed connection or the end of the server.
unfoldable pub handle_client :
    Network → List (ℕ × Bytes) → Option Broker → Option Broker × List Bytes
handle_client net [] b = (b, [])
handle_client net ((now, request) ∷ rounds) b =
    let (b', out) = process_request net now request b in
    let rest = handle_client net rounds b' in
    if is_empty request
    then (b, [])
    else if is_inter_broker (parse_request request).type
    then (b', out)
    else (rest.0, out ++ rest.1)

-- read_request: the payload of the next frame, or nothing when the read fails, and the unread bytes.
unfoldable pub read_request : List ℕ → Bytes → Bytes × Bytes
read_request reads stream =
    let i = read_frame reads stream in if i.ok then (i.buffer, i.stream) else ([], i.stream)

-- handle_client on the bytes of its connection: each round with the time and what each `recv` moves.
-- The end of the rounds is the end of the server.
unfoldable pub serve :
    Network → List (ℕ × List ℕ) → Bytes → Option Broker → Option Broker × List Bytes
serve net [] stream b = (b, [])
serve net ((now, reads) ∷ rounds) stream b =
    let (request, unread) = read_request reads stream in
    let (b', out) = process_request net now request b in
    let rest = serve net rounds unread b' in
    if is_empty request
    then (b, [])
    else if is_inter_broker (parse_request request).type
    then (b', out)
    else (rest.0, out ++ rest.1)
