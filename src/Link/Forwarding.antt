-- ===== src/Link/Forwarding.antt =====
-- A follower that forwards a client's request to the leader's server over a real connection.
use streaming_platform.Prelude.{
  ℕ, ◌^◌, ◌<◌, ◌≡◌, ◌≢◌, refl, sym, ap, subst, ◌∙◌, ◌⊎◌, Bool, true, false, inl, inr, Bool-cases,
  ◌&&◌, Option, none, some, List, [], ◌∷◌, length,
}
use streaming_platform.Text.{Bytes, codes}
use streaming_platform.Protocol.Message
use streaming_platform.Protocol.Message.{Request, RequestType, Response}
use streaming_platform.Protocol.Codec.{is_empty, encode_request, encode_as}
use streaming_platform.Protocol.Wire.{put_u8}
use streaming_platform.Protocol.RoundTrip.{Fits, carried, parse_request-encode_request}
use streaming_platform.Protocol.Reply.{
  serialize_response, parse_response, FitsResponse, parse_response-serialize_response,
}
use streaming_platform.Config
use streaming_platform.Config.{ClusterPeer, LeaderEndpoint}
use streaming_platform.Frame.{framed, write_frame, read_frame}
use streaming_platform.Frame.Properties.{read_frame-buffer}
use streaming_platform.Broker.{
  Broker, Network, is_leader, refuse, answer, handle_request, dispatch, forward_to_leader,
  handle_produce, handle_batch_produce, handle_join_group, handle_leave_group, handle_group_fetch,
  handle_commit_offset, handle_group_assignment,
}
use streaming_platform.Server.{handle_client, process_request, is_inter_broker}
use streaming_platform.Link.{Line, exchange_with_leader, forward_on, connect_to_host, network_of}

-- The requests that only the leader carries out; an empty batch is refused on the spot.
abbrev pub IsForwarded : RequestType → Request → Type 0
IsForwarded Message.produce r = Unit {0}
IsForwarded Message.batch_produce r = is_empty r.messages ≡ false
IsForwarded Message.join_group r = Unit {0}
IsForwarded Message.leave_group r = Unit {0}
IsForwarded Message.group_fetch r = Unit {0}
IsForwarded Message.commit_offset r = Unit {0}
IsForwarded Message.group_assignment r = Unit {0}
IsForwarded _ r = ⊥

dispatch-forward :
    (t : RequestType) (net : Network) (r : Request) (b : Broker)
    → is_leader b ≡ false
    → IsForwarded t r
    → dispatch t net r b ≡ (b, forward_to_leader net r b)
unfolding handle_produce handle_batch_produce handle_join_group handle_leave_group
    handle_commit_offset handle_group_fetch handle_group_assignment
dispatch-forward Message.produce net r b h f = rw h refl
dispatch-forward Message.batch_produce net r b h f = rw (f, h) refl
dispatch-forward Message.join_group net r b h f = rw h refl
dispatch-forward Message.leave_group net r b h f = rw h refl
dispatch-forward Message.group_fetch net r b h f = rw h refl
dispatch-forward Message.commit_offset net r b h f = rw h refl
dispatch-forward Message.group_assignment net r b h f = rw h refl
dispatch-forward _ net r b h f = elim f [ ]

-- Such a request is sent, it is not empty, and the leader's server gives it to handle_request.
encode_as-Carried :
    (t : RequestType) (r : Request)
    → IsForwarded t r
    → (t ≢ Message.error)
      × (is_empty (encode_as t r) ≡ false)
      × (is_inter_broker t ≡ false)
      × ((carried t r).type ≡ t)
unfolding put_u8
encode_as-Carried Message.produce r f = (λ e. cc, refl, refl, refl)
encode_as-Carried Message.batch_produce r f = (λ e. cc, refl, refl, refl)
encode_as-Carried Message.join_group r f = (λ e. cc, refl, refl, refl)
encode_as-Carried Message.leave_group r f = (λ e. cc, refl, refl, refl)
encode_as-Carried Message.group_fetch r f = (λ e. cc, refl, refl, refl)
encode_as-Carried Message.commit_offset r f = (λ e. cc, refl, refl, refl)
encode_as-Carried Message.group_assignment r f = (λ e. cc, refl, refl, refl)
encode_as-Carried _ r f = elim f [ ]

-- The leader's server at a request that a follower has forwarded.
handle_client-forwarded :
    (net : Network) (now : ℕ) (r : Request) (l : Broker)
    → IsForwarded r.type r
    → Fits r
    → handle_client net ((now, encode_request r) ∷ []) (some l) ≡ (
      some (handle_request net (carried r.type r) l).0,
      serialize_response (handle_request net (carried r.type r) l).1 ∷ [],
    )
unfolding handle_client process_request encode_request
handle_client-forwarded net now r l f fits =
    let (sent, filled, client, kept) = encode_as-Carried r.type r f in
    rw (filled, parse_request-encode_request r sent fits, kept, client) refl

-- The connection comes up, and the request and the response get through.
abbrev pub gets_through : Line → Bytes → Option ℕ → Bool
gets_through line payload none = false
gets_through line payload (some fd) =
    (write_frame line.writes payload).ok && (read_frame line.reads line.stream).ok

-- What a follower says where it does not get the leader's answer.
abbrev pub IsRefusal : Response → Type 0
IsRefusal x =
    (x ≡ refuse (codes "leader_unreachable"))
    ⊎ (x ≡ refuse (codes "leader_write_failed"))
    ⊎ (x ≡ refuse (codes "leader_read_failed"))

forward_on-cases :
    (line : Line) (payload first : Bytes) (socket_fd : Option ℕ) (closed : List ℕ)
    → line.stream ≡ framed (first ∷ [])
    → length first < 2 ^ 32
    → let out = forward_on line payload (record { socket_fd = socket_fd; closed = closed }) in
      (gets_through line payload socket_fd ≡ true → answer out.0 ≡ parse_response first)
      × (gets_through line payload socket_fd ≡ false → IsRefusal (answer out.0))
forward_on-cases line payload first none closed on_line small = (λ e. cc, λ e. inl refl)
forward_on-cases line payload first (some fd) closed on_line small =
    elim (Bool-cases (write_frame line.writes payload).ok) [
      | inr fails ↦ rw fails (λ e. cc, λ e. inr (inl refl))
      | inl wrote ↦ elim (Bool-cases (read_frame line.reads line.stream).ok) [
        | inr fails ↦ rw (wrote, fails) (λ e. cc, λ e. inr (inr refl))
        | inl read ↦
            let got : (read_frame line.reads line.stream).buffer ≡ first =
              ap (λ s. (read_frame line.reads s).buffer) on_line
              ∙ read_frame-buffer line.reads first [] small (rw on_line at read) in
            rw (wrote, read, got) (λ e. refl, λ e. cc)
      ]
    ]

exchange-cases :
    (line : Line) (payload first : Bytes)
    → line.stream ≡ framed (first ∷ [])
    → length first < 2 ^ 32
    → (gets_through line payload (connect_to_host line.dial).socket_fd ≡ true
        → answer (exchange_with_leader line payload).0 ≡ parse_response first)
      × (gets_through line payload (connect_to_host line.dial).socket_fd ≡ false
          → IsRefusal (answer (exchange_with_leader line payload).0))
unfolding exchange_with_leader
exchange-cases line payload first on_line small =
    forward_on-cases line payload first (connect_to_host line.dial).socket_fd
      (connect_to_host line.dial).closed on_line small

forward_to_leader-lem :
    (peer : ClusterPeer → Bytes → Line) (leader : LeaderEndpoint → Bytes → Line)
    (clock : ClusterPeer → ℕ) (r : Request) (b : Broker) (endpoint : LeaderEndpoint)
    → Config.get_leader_endpoint b.replication.config ≡ some endpoint
    → forward_to_leader (network_of peer leader clock) r b
      ≡ answer (exchange_with_leader (leader endpoint (encode_request r)) (encode_request r)).0
unfolding forward_to_leader network_of
forward_to_leader-lem peer leader clock r b endpoint known = rw known refl

-- A client sends a request that only the leader carries out (a produce, a batch that is not empty, or
-- a request of a consumer group), which fits the wire format, to a follower that knows the leader's
-- endpoint. The connection there leads to the leader's server, whose response fits the wire format.
-- However the operating system connects, and cuts or fails the writes and the reads: the follower is
-- unchanged; the leader's server does what handle_request does for the fields that the request
-- carries; and the client gets from the follower the leader's own response where the connection, the
-- write and the read succeed, and one of three refusals otherwise.
pub handle_request-forwarded :
    (peer : ClusterPeer → Bytes → Line) (leader : LeaderEndpoint → Bytes → Line)
    (clock : ClusterPeer → ℕ) (net : Network) (now : ℕ) (r : Request) (b l : Broker)
    (endpoint : LeaderEndpoint)
    → is_leader b ≡ false
    → Config.get_leader_endpoint b.replication.config ≡ some endpoint
    → IsForwarded r.type r
    → Fits r
    → FitsResponse (handle_request net (carried r.type r) l).1
    → length (serialize_response (handle_request net (carried r.type r) l).1) < 2 ^ 32
    → (leader endpoint (encode_request r)).stream
      ≡ framed (handle_client net ((now, encode_request r) ∷ []) (some l)).1
    → let line = leader endpoint (encode_request r) in
      let through = gets_through line (encode_request r) (connect_to_host line.dial).socket_fd in
      let out = handle_request (network_of peer leader clock) r b in
      (out.0 ≡ b)
      × ((handle_client net ((now, encode_request r) ∷ []) (some l)).0
          ≡ some (handle_request net (carried r.type r) l).0)
      × (through ≡ true → out.1 ≡ (handle_request net (carried r.type r) l).1)
      × (through ≡ false → IsRefusal out.1)
handle_request-forwarded peer leader clock net now r b l endpoint follows known forwarded fits
      fits_response small on_line =
    let line = leader endpoint (encode_request r) in
    let response = (handle_request net (carried r.type r) l).1 in
    let served = handle_client-forwarded net now r l forwarded fits in
    let stream : line.stream ≡ framed (serialize_response response ∷ []) =
      on_line ∙ ap (λ (x : Option Broker × List Bytes). framed x.1) served in
    let cases = exchange-cases line (encode_request r) (serialize_response response) stream small in
    let out : handle_request (network_of peer leader clock) r b
        ≡ (b, answer (exchange_with_leader line (encode_request r)).0) =
      unfold handle_request in
      dispatch-forward r.type (network_of peer leader clock) r b follows forwarded
      ∙ ap (λ (x : Response). (b, x))
          (forward_to_leader-lem peer leader clock r b endpoint known) in
    (
      ap (λ (x : Broker × Response). x.0) out,
      ap (λ (x : Option Broker × List Bytes). x.0) served,
      λ through.
          ap (λ (x : Broker × Response). x.1) out
          ∙ cases.0 through
          ∙ parse_response-serialize_response response fits_response,
      λ fails. subst IsRefusal (sym (ap (λ (x : Broker × Response). x.1) out)) (cases.1 fails),
    )
