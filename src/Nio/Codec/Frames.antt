-- ===== src/Nio/Codec/Frames.antt =====
-- What is encoded is decoded: one message, and a run of them in one buffer.
use common_tools.Prelude.{
  ℕ, zero, suc, ◌+◌, ◌-◌, ◌/◌, ◌%◌, ◌^◌, ◌≡◌, ◌≤◌, ◌<◌, refl, ap, ◌∙◌, true, false, none, some,
  List, [], ◌∷◌, ◌++◌, length, take, drop, arith, length-append, take-length-append,
  drop-length-append, All, map,
}
use mathlib.Core.List.{append-nil, append_assoc}
use common_tools.Nio.Codec.{Bytes, Msg, fresh_msg, uint32, encode, decode, read_body, drain, feed}

module _ (pack : Bytes → Bytes) (unpack : Bytes → Bytes) where
  -- A message to send: a flag of one byte, and a body that the length field can count.
  pub record IsSendable (m : Msg) (b : Bytes) : Type 0 where
    pub body : m.body ≡ some b
    pub some_bytes : 0 < length (pack b)
    pub small : length (pack b) + 1 < 2 ^ 32

  -- The message as it is received: the body's bytes, and no body.
  abbrev pub arrives : Msg → Bytes → Msg
  arrives m b = record {
    flag = m.flag;
    length_field = length (pack b) + 1;
    body = none;
    bytes = unpack (pack b);
  }

  pub uint32-put :
      (n : ℕ)
      → n < 2 ^ 32
      → uint32 (n / 2 ^ 24 % 256) (n / 2 ^ 16 % 256) (n / 2 ^ 8 % 256) (n % 256) ≡ n
  uint32-put n h = omega arith

  pub read_body-exact :
      (f n : ℕ) (p rest : Bytes)
      → n ≡ length p + 1
      → 0 < length p
      → n < 2 ^ 32
      → read_body pack unpack
          (record { flag = f; length_field = n; body = none; bytes = [] })
          (p ++ rest)
        ≡ (record { flag = f; length_field = n; body = none; bytes = unpack p }, rest, true)
  unfolding read_body
  read_body-exact f n p rest e pos small =
      let count : (n + 2 ^ 32 - 1) % 2 ^ 32 ≡ length p = omega arith in
      ground (
        arith,
        count,
        length-append p rest,
        take-length-append p rest,
        drop-length-append p rest,
        ap (λ k. take k (p ++ rest)) count,
        ap (λ k. drop k (p ++ rest)) count,
      )

  -- A message that is sent with a body is received whole, whatever follows it: the flag, and the bytes
  -- that the coder unpacks from those it packed; what follows stays in the buffer.
  pub decode-encode :
      (m : Msg) (b rest : Bytes)
      → IsSendable m b
      → decode pack unpack fresh_msg ((encode pack unpack m).1 ++ rest) ≡ (arrives m b, rest, true)
  unfolding encode decode
  decode-encode m b rest s =
      let n = length (pack b) + 1 in
      let field : uint32 (n % 2 ^ 32 / 2 ^ 24 % 256) (n % 2 ^ 32 / 2 ^ 16 % 256)
            (n % 2 ^ 32 / 2 ^ 8 % 256) (n % 2 ^ 32 % 256)
          ≡ n =
        omega (arith, s.small) in
      rw (s.body, encode, field) (read_body-exact m.flag n (pack b) rest refl s.some_bytes s.small)

  -- A message to send, from its flag and its body.
  abbrev pub outgoing : ℕ × Bytes → Msg
  outgoing (f, b) = record { flag = f; length_field = 0; body = some b; bytes = [] }

  abbrev pub Sendable : ℕ × Bytes → Type 0
  Sendable x = IsSendable (outgoing x) x.1

  abbrev pub received_as : ℕ × Bytes → Msg
  received_as x = arrives (outgoing x) x.1

  -- The bytes of the messages one after the other, and then the tail.
  abbrev pub stream : List (ℕ × Bytes) → Bytes → Bytes
  stream [] tail = tail
  stream (x ∷ xs) tail = (encode pack unpack (outgoing x)).1 ++ stream xs tail

  length-stream :
      (xs : List (ℕ × Bytes)) (tail : Bytes) → length xs + length tail ≤ length (stream xs tail)
  unfolding encode
  length-stream [] tail = omega arith
  length-stream (x ∷ xs) tail = omega (
    arith,
    length-stream xs tail,
    length-append ((encode pack unpack (outgoing x)).1) (stream xs tail),
  )

  pub decode-short :
      (m : Msg) (tail : Bytes) → length tail < 5 → decode pack unpack m tail ≡ (m, tail, false)
  unfolding decode
  decode-short m [] h = refl
  decode-short m (a ∷ []) h = refl
  decode-short m (a ∷ b ∷ []) h = refl
  decode-short m (a ∷ b ∷ c ∷ []) h = refl
  decode-short m (a ∷ b ∷ c ∷ d ∷ []) h = refl
  decode-short m (a ∷ b ∷ c ∷ d ∷ e ∷ r) h = absurd (omega arith)

  drain-stream :
      (fuel : ℕ) (xs : List (ℕ × Bytes)) (tail : Bytes) (out : List Msg)
      → length xs < fuel
      → length tail < 5
      → All Sendable xs
      → drain pack unpack fuel
          (record { last_msg = fresh_msg; buf = stream xs tail; received = out })
        ≡ record { last_msg = fresh_msg; buf = tail; received = out ++ map received_as xs }
  unfolding drain
  drain-stream zero xs tail out f h s = absurd (omega arith)
  drain-stream (suc fuel) [] tail out f h s = rw (decode-short fresh_msg tail h, append-nil)
  drain-stream (suc fuel) (x ∷ xs) tail out f h s =
      rw (decode-encode (outgoing x) x.1 (stream xs tail) s.0) (
        drain-stream fuel xs tail (out ++ received_as x ∷ []) (omega arith) h s.1 ∙ rw append_assoc)

  -- Any number of messages that arrive in one read, with the beginning of a next header behind
  -- them, are all received, in order, and the beginning stays in the buffer.
  pub feed-stream :
      (xs : List (ℕ × Bytes)) (tail : Bytes) (out : List Msg)
      → length tail < 5
      → All Sendable xs
      → feed pack unpack
          (stream xs tail)
          (record { last_msg = fresh_msg; buf = []; received = out })
        ≡ record { last_msg = fresh_msg; buf = tail; received = out ++ map received_as xs }
  unfolding feed
  feed-stream xs tail out h s =
      drain-stream (length (stream xs tail) + 1) xs tail out (omega (arith, length-stream xs tail))
        h s
