-- ===== src/Cluster/Lines.antt =====
-- A leader's connection to a follower's server gives one of the answers of `Answer`.
use streaming_platform.Prelude.{
  ℕ, ◌^◌, ◌<◌, ◌≡◌, refl, sym, ap, subst, ◌∙◌, Option, none, some, List, [], ◌∷◌, length, ℤ, All,
  true,
}
use streaming_platform.Text.{Bytes}
use streaming_platform.Replication.Exchange
use streaming_platform.Broker.{Broker, Network}
use streaming_platform.Server.{handle_client}
use streaming_platform.Server.Replicas.{first_frame, handle_client-answers}
use streaming_platform.Link.{Line, send_one_shot_to_peer}
use streaming_platform.Frame.{framed}
use streaming_platform.Link.Delivery.{one_shot-first}
use streaming_platform.Cluster.{Answer, lost, read}
use streaming_platform.Cluster.Answers.{FitsRecord}

module _ (net : Network) (now : ℕ) (topic : Bytes) (p : ℤ) (offset : ℕ) (message : Bytes)
    (f : Broker) where
  abbrev payload : Bytes
  payload = Exchange.build_replication_request topic p offset message

  abbrev out : List Bytes
  out = (handle_client net ((now, payload) ∷ []) (some f)).1

  response-Answer :
      (response : Option Bytes)
      → ((x : Bytes) → response ≡ some x → first_frame out ≡ some x)
      → Answer net now payload f response
  response-Answer none h = lost
  response-Answer (some x) h = subst (Answer net now payload f) (h x refl) read

  -- A leader sends a replication request of one record over a connection; the fields fit the wire
  -- format, the other end sends what the server of a broker writes for that request, and each of its
  -- frames is shorter than 2^32 bytes. However the operating system connects, and cuts or fails the
  -- writes and the reads, the leader reads nothing or the first frame of the server.
  pub send_one_shot_to_peer-Answer :
      (line : Line)
      → FitsRecord topic p offset message
      → line.stream ≡ framed out
      → All (λ (x : Bytes). length x < 2 ^ 32) out
      → Answer net now payload f (send_one_shot_to_peer line payload true).response
  send_one_shot_to_peer-Answer line fits on_line sizes =
      let (first, rest, same) =
        handle_client-answers net now [] topic p offset message f fits.request in
      response-Answer (send_one_shot_to_peer line payload true).response (λ x e.
        let found =
          one_shot-first line payload first rest x (on_line ∙ ap framed same) (rw same at sizes).0
            e in
        ap first_frame same ∙ ap some (sym found))
