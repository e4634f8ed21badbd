-- ===== src/Server/Stream.antt =====
-- A connection as its bytes: the requests that are served are the frames of the stream.
use streaming_platform.Prelude.{
  ℕ, suc, ◌+◌, ◌^◌, ◌≤◌, ◌<◌, ◌≡◌, refl, false, Option, List, [], ◌∷◌, ◌++◌, arith, length, All,
}
use streaming_platform.Text.{Bytes}
use streaming_platform.Frame.{framed, wrap_frame, read_frame, read_exact}
use streaming_platform.Frame.Properties.{read_frame-wrap_frame}
use streaming_platform.Broker.{Broker, Network}
use streaming_platform.Server.{handle_client, serve, read_request, process_request}

-- The rounds of the server with the requests of the connection, as long as there are both.
abbrev pub paired : List (ℕ × List ℕ) → List Bytes → List (ℕ × Bytes)
paired [] requests = []
paired (round ∷ rounds) [] = []
paired ((now, reads) ∷ rounds) (request ∷ requests) = (now, request) ∷ paired rounds requests

-- No `recv` of the round fails, and there are enough of them for the request.
abbrev pub Reads : List (ℕ × List ℕ) → List Bytes → Type 0
Reads [] requests = Unit {0}
Reads (round ∷ rounds) [] = Unit {0}
Reads ((now, reads) ∷ rounds) (request ∷ requests) =
    All (λ c. 0 < c) reads × (4 + length request ≤ length reads) × Reads rounds requests

read_exact-end :
    (reads : List ℕ) (buffer : Bytes) (n : ℕ) → (read_exact reads [] buffer (suc n)).ok ≡ false
unfolding read_exact
read_exact-end [] buffer n = refl
read_exact-end (c ∷ cs) buffer n = ground arith

read_request-end : (reads : List ℕ) → (read_request reads []).0 ≡ []
unfolding read_request read_frame
read_request-end reads = rw (read_exact-end reads [] 3) refl

read_request-wrap_frame :
    (reads : List ℕ) (request more : Bytes)
    → length request < 2 ^ 32
    → All (λ c. 0 < c) reads
    → 4 + length request ≤ length reads
    → read_request reads (wrap_frame request ++ more) ≡ (request, more)
unfolding read_request
read_request-wrap_frame reads request more small h few =
    let (ok, buffer, stream) = read_frame-wrap_frame reads request more small h few in
    rw (ok, buffer, stream) refl

-- A connection over which a client sends the frames of its requests, each shorter than 2^32 bytes,
-- and whose reads do not fail and are enough: the server serves it as it does those requests.
pub serve-framed :
    (net : Network) (rounds : List (ℕ × List ℕ)) (requests : List Bytes) (b : Option Broker)
    → All (λ (x : Bytes). length x < 2 ^ 32) requests
    → Reads rounds requests
    → serve net rounds (framed requests) b ≡ handle_client net (paired rounds requests) b
unfolding serve handle_client
serve-framed net [] requests b small h = refl
serve-framed net ((now, reads) ∷ rounds) [] b small h = rw (read_request-end reads) refl
serve-framed net ((now, reads) ∷ rounds) (request ∷ requests) b small h =
    rw
      (
        read_request-wrap_frame reads request (framed requests) small.0 h.0 h.1,
        serve-framed net rounds requests (process_request net now request b).0 small.1 h.2,
      )
      refl
