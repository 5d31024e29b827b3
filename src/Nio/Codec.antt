-- ===== src/Nio/Codec.antt =====
-- pkg/nio/codec.go, and the decoding loop of handler.go. A byte is a number below 256, a buffer the
-- list of its unread bytes. The body is the bytes that `tools.ToByte` gives; `pack` and `unpack` are the
-- coder, the identity by default and gzip otherwise, with what they return beside a logged error.
pub mod Frames
pub mod Split
mod Tests
use common_tools.Prelude.{
  ℕ, zero, suc, ◌+◌, ◌-◌, ◌*◌, ◌/◌, ◌%◌, ◌^◌, Bool, true, false, Option, none, some, List, [], ◌∷◌,
  ◌++◌, length, take, drop, leb, ltb, ◌==◌, if◌then◌else◌, not, ◌&&◌,
}

abbrev pub Bytes : Type 0
Bytes = List ℕ

-- `Msg`: the flag, the length field, the body of an outgoing message, and its bytes.
pub record Msg : Type 0 where
  pub flag : ℕ
  pub length_field : ℕ
  pub body : Option Bytes
  pub bytes : Bytes

abbrev pub fresh_msg : Msg
fresh_msg = record { flag = 0; length_field = 0; body = none; bytes = [] }

-- `binary.Write(buf, binary.BigEndian, length)`
unfoldable pub put_uint32 : ℕ → Bytes → Bytes
put_uint32 n rest = (n / 2 ^ 24 % 256) ∷ (n / 2 ^ 16 % 256) ∷ (n / 2 ^ 8 % 256) ∷ (n % 256) ∷ rest

abbrev pub uint32 : ℕ → ℕ → ℕ → ℕ → ℕ
uint32 a b c d = a * 2 ^ 24 + b * 2 ^ 16 + c * 2 ^ 8 + d

module _ (pack : Bytes → Bytes) (unpack : Bytes → Bytes) where
  -- `Encode`: the message with its length and its bytes set, and the frame. The length counts the flag
  -- byte, and is cut to 32 bits.
  unfoldable pub encode : Msg → Msg × Bytes
  unfolding put_uint32
  encode m = elim m.body [
    | none ↦ (record m { length_field = 1 }, put_uint32 1 (m.flag ∷ []))
    | some b ↦
        let n = (length (pack b) + 1) % 2 ^ 32 in
        (record m { length_field = n; bytes = b }, put_uint32 n (m.flag ∷ pack b))
  ]

  -- The body, once the header is read into the message. `length - 1` wraps round at 32 bits.
  pub read_body : Msg → Bytes → Msg × Bytes × Bool
  read_body m rest =
      let n = (m.length_field + 2 ^ 32 - 1) % 2 ^ 32 in
      if m.length_field == 1 then (m, rest, true) else elim m.body [
        | some _ ↦ (m, rest, false)
        | none ↦
            if leb n (length rest)
            then (record m { bytes = unpack (take n rest) }, drop n rest, true)
            else (m, rest, false)
      ]

  -- `Decode`: the message, what is left in the buffer, and whether a message is complete.
  unfoldable pub decode : Msg → Bytes → Msg × Bytes × Bool
  unfolding read_body
  decode m (a ∷ b ∷ c ∷ d ∷ f ∷ rest) =
      read_body (record m { flag = f; length_field = uint32 a b c d }) rest
  decode m short = (m, short, false)

  -- The state of `readIO` between two reads of the connection: the message under way, the buffer, and
  -- the messages that were handed to `OnMessageReceived`, in order.
  pub record Session : Type 0 where
    pub last_msg : Msg
    pub buf : Bytes
    pub received : List Msg

  -- The inner loop of `readIO`: each complete message is received, and the next starts afresh.
  drain : ℕ → Session → Session
  drain zero s = s
  drain (suc fuel) s =
      let (m, rest, complete) = decode s.last_msg s.buf in
      let more =
        drain fuel (record { last_msg = fresh_msg; buf = rest; received = s.received ++ m ∷ [] }) in
      if complete then more else record s { last_msg = m; buf = rest }

  -- One read of the connection. Each message takes five bytes at least, so the fuel is enough.
  unfoldable pub feed : Bytes → Session → Session
  unfolding drain
  feed chunk s = let buf = s.buf ++ chunk in drain (length buf + 1) (record s { buf = buf })
