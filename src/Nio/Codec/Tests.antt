-- ===== src/Nio/Codec/Tests.antt =====
-- Frames of the codec, and its theorems at concrete bytes.
use common_tools.Prelude.{ℕ, ◌≡◌, refl, true, List, [], ◌∷◌, ◌++◌, arith, map}
use common_tools.Nio.Codec.{Bytes, Msg, fresh_msg, encode, decode, Session, feed}
use common_tools.Nio.Codec.Frames.{
  IsSendable, arrives, decode-encode, outgoing, stream, received_as, feed-stream,
}
use common_tools.Nio.Codec.Split.{LosesBody, feed-split}

abbrev id : Bytes → Bytes
id b = b

abbrev idle : Session id id
idle = record { last_msg = fresh_msg; buf = []; received = [] }

-- A message with flag 7 and the body 1, 2, 3.
abbrev message : Msg
message = outgoing id id (7, 1 ∷ 2 ∷ 3 ∷ [])

encoded : (encode id id message).1 ≡ 0 ∷ 0 ∷ 0 ∷ 4 ∷ 7 ∷ 1 ∷ 2 ∷ 3 ∷ []
unfolding encode
encoded = refl

-- In two reads, broken in the body, it is never received.
lost : (feed id id (2 ∷ 3 ∷ []) (feed id id (0 ∷ 0 ∷ 0 ∷ 4 ∷ 7 ∷ 1 ∷ []) idle)).received ≡ []
unfolding feed decode
lost = refl

message-IsSendable : IsSendable id id message (1 ∷ 2 ∷ 3 ∷ [])
message-IsSendable = record { body = refl; some_bytes = omega arith; small = omega arith }

decode-encode_example :
    decode id id fresh_msg ((encode id id message).1 ++ 9 ∷ [])
    ≡ (arrives id id message (1 ∷ 2 ∷ 3 ∷ []), 9 ∷ [], true)
decode-encode_example = decode-encode id id message (1 ∷ 2 ∷ 3 ∷ []) (9 ∷ []) message-IsSendable

abbrev two : List (ℕ × Bytes)
two = (7, 1 ∷ 2 ∷ 3 ∷ []) ∷ (8, 4 ∷ []) ∷ []

feed-stream_example : feed id id (stream id id two (0 ∷ 0 ∷ [])) idle ≡ record {
  last_msg = fresh_msg;
  buf = 0 ∷ 0 ∷ [];
  received = [] ++ map (received_as id id) two;
}
feed-stream_example = feed-stream id id two (0 ∷ 0 ∷ []) [] (omega arith) (
  message-IsSendable,
  (record { body = refl; some_bytes = omega arith; small = omega arith }, tt),
)

feed-split_example : LosesBody id id 4 7 (1 ∷ []) (2 ∷ 3 ∷ []) (omega arith) refl (omega arith) []
feed-split_example = feed-split id id 4 7 (1 ∷ []) (2 ∷ 3 ∷ []) (omega arith) refl (omega arith) []
