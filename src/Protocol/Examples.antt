-- ===== src/Protocol/Examples.antt =====
-- Runs of the codec, and its theorems at concrete inputs.
use streaming_platform.Prelude.{◌≡◌, ◌≢◌, arith, true, [], ◌∷◌, pos}
use streaming_platform.Text.{codes}
use streaming_platform.Protocol.Message.{Request, Response, blank, batch_produce, ack}
use streaming_platform.Protocol.Codec.{parse_request, encode_request}
use streaming_platform.Protocol.RoundTrip.{parse_request-encode_request}
use streaming_platform.Protocol.Reply.{
  parse_response, serialize_response, parse_response-serialize_response,
}
use streaming_platform.Protocol.Types.{parse_request-serialize_response}

abbrev batch : Request
batch = record (blank batch_produce) {
  topic = codes "orders";
  partition = pos 1;
  messages = codes "first" ∷ codes "third" ∷ [];
}

abbrev batch_response : Response
batch_response = record {
  success = true;
  message = codes "a|b";
  appended_offset = 3;
  appended_offsets = 1 ∷ 2 ∷ 3 ∷ [];
}

parse_request-encode_request_example : parse_request (encode_request batch) ≡ batch
parse_request-encode_request_example =
    parse_request-encode_request batch (λ e. cc)
      (record {
        topic = omega arith;
        partition = omega arith;
        message = omega arith;
        fetch_offset = omega arith;
        broker_id = omega arith;
        group_id = omega arith;
        member_id = omega arith;
        messages = omega arith;
      })

parse_response-serialize_response_example :
    parse_response (serialize_response batch_response) ≡ batch_response
parse_response-serialize_response_example =
    parse_response-serialize_response batch_response (record {
      message = omega arith;
      offset = omega arith;
      few = omega arith;
      offsets = omega arith;
    })

parse_request-serialize_response_example :
    (parse_request (serialize_response batch_response)).type ≢ ack
parse_request-serialize_response_example = parse_request-serialize_response batch_response
