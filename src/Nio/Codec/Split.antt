-- ===== src/Nio/Codec/Split.antt =====
-- A message that arrives in two reads.
use common_tools.Prelude.{
  subst, ap, ◌∙◌, true, append-nil, length-append, ℕ, zero, suc, ◌+◌, ◌-◌, ◌/◌, ◌%◌, ◌^◌, ◌≡◌, ◌<◌,
  refl, false, none, List, [], ◌∷◌, ◌++◌, length, arith,
}
use mathlib.Core.List.{append_assoc}
use common_tools.Nio.Codec.{
  Bytes, Msg, fresh_msg, put_uint32, uint32, decode, read_body, Session, drain, feed,
}
use common_tools.Nio.Codec.Frames.{decode-short, read_body-exact}

module _ (pack : Bytes → Bytes) (unpack : Bytes → Bytes) where
  drain-partial :
      (fuel : ℕ) (s : Session pack unpack) {m : Msg} {rest : Bytes}
      → 0 < fuel
      → decode pack unpack s.last_msg s.buf ≡ (m, rest, false)
      → drain pack unpack fuel s ≡ record s { last_msg = m; buf = rest }
  unfolding drain
  drain-partial zero s f e = absurd (omega arith)
  drain-partial (suc fuel) s f e = rw e

  drain-short :
      (fuel : ℕ) (s : Session pack unpack)
      → 0 < fuel
      → length s.buf < 5
      → drain pack unpack fuel s ≡ s
  drain-short fuel s f h = drain-partial fuel s f (decode-short pack unpack s.last_msg s.buf h)

  -- A break within a header does no harm: with fewer than five bytes in the buffer, two reads do what one
  -- read of both does.
  pub feed-short :
      (a b : Bytes) (s : Session pack unpack)
      → length (s.buf ++ a) < 5
      → feed pack unpack b (feed pack unpack a s) ≡ feed pack unpack (a ++ b) s
  unfolding feed
  feed-short a b s h =
      rw (drain-short (length (s.buf ++ a) + 1) (record s { buf = s.buf ++ a }) (omega arith) h)
        (rw append_assoc)

  -- The header of a message under way does not matter to the decoding.
  drain-header :
      (fuel n f : ℕ) (buf : Bytes) (out : List Msg)
      → let after : Msg → Session pack unpack =
          λ m. drain pack unpack fuel (record { last_msg = m; buf = buf; received = out }) in
        let started = after (record { flag = f; length_field = n; body = none; bytes = [] }) in
        (started.received ≡ (after fresh_msg).received) × (started.buf ≡ (after fresh_msg).buf)
  unfolding drain decode
  drain-header zero n f buf out = (refl, refl)
  drain-header (suc fuel) n f [] out = (refl, refl)
  drain-header (suc fuel) n f (a ∷ []) out = (refl, refl)
  drain-header (suc fuel) n f (a ∷ b ∷ []) out = (refl, refl)
  drain-header (suc fuel) n f (a ∷ b ∷ c ∷ []) out = (refl, refl)
  drain-header (suc fuel) n f (a ∷ b ∷ c ∷ d ∷ []) out = (refl, refl)
  drain-header (suc fuel) n f (a ∷ b ∷ c ∷ d ∷ g ∷ rest) out = (refl, refl)

  module _ (n f : ℕ) (p q : Bytes) (small : n < 2 ^ 32) (counts : length p + length q + 1 ≡ n)
      (left : 0 < length q) where
    -- The message whose header has been read.
    abbrev pub headed : Msg
    headed = record { flag = f; length_field = n; body = none; bytes = [] }

    read_body-part : read_body pack unpack headed p ≡ (headed, p, false)
    unfolding read_body
    read_body-part =
        let count : (n + 2 ^ 32 - 1) % 2 ^ 32 ≡ length p + length q = omega arith in
        ground (arith, count)

    decode-part : decode pack unpack fresh_msg (put_uint32 n (f ∷ p)) ≡ (headed, p, false)
    unfolding decode put_uint32
    decode-part =
        let field : uint32 (n / 2 ^ 24 % 256) (n / 2 ^ 16 % 256) (n / 2 ^ 8 % 256) (n % 256) ≡ n =
          omega (arith, small) in
        rw field read_body-part

    -- The same message, complete.
    abbrev pub whole : Msg
    whole = record { flag = f; length_field = n; body = none; bytes = unpack (p ++ q) }

    decode-whole : decode pack unpack fresh_msg (put_uint32 n (f ∷ (p ++ q))) ≡ (whole, [], true)
    unfolding decode put_uint32
    decode-whole =
        let field : uint32 (n / 2 ^ 24 % 256) (n / 2 ^ 16 % 256) (n / 2 ^ 8 % 256) (n % 256) ≡ n =
          omega (arith, small) in
        let size = length-append p q in
        rw field (
          subst
            (λ b.
              read_body pack unpack headed b
              ≡ (record headed { bytes = unpack (p ++ q) }, [], true))
            (append-nil (p ++ q))
            (read_body-exact pack unpack f n (p ++ q) [] (omega (arith, counts, size))
              (omega (arith, left, size)) small))

    drain-whole :
        (fuel : ℕ) (out : List Msg)
        → 1 < fuel
        → drain pack unpack fuel
            (record { last_msg = fresh_msg; buf = put_uint32 n (f ∷ (p ++ q)); received = out })
          ≡ record { last_msg = fresh_msg; buf = []; received = out ++ whole ∷ [] }
    unfolding drain
    drain-whole zero out more = absurd (omega arith)
    drain-whole (suc fuel) out more = rw decode-whole (
        drain-short fuel (record { last_msg = fresh_msg; buf = []; received = out ++ whole ∷ [] })
          (omega arith) (omega arith))

    -- What the first read leaves, and what the two leave.
    abbrev pub LosesBody : List Msg → Type 0
    LosesBody out =
        let idle : Session pack unpack = record {
          last_msg = fresh_msg;
          buf = [];
          received = out;
        } in
        let first = feed pack unpack (put_uint32 n (f ∷ p)) idle in
        let second = feed pack unpack q first in
        let body_only = feed pack unpack (p ++ q) idle in
        (feed pack unpack (put_uint32 n (f ∷ (p ++ q))) idle
          ≡ record { last_msg = fresh_msg; buf = []; received = out ++ whole ∷ [] })
        × (first ≡ record { last_msg = headed; buf = p; received = out })
        × (second.received ≡ body_only.received)
        × (second.buf ≡ body_only.buf)

    -- A break within a body loses the message. In one read its frame is received, and the buffer is empty. In two reads, of
    -- which the second begins in the body, the first receives nothing and leaves the part of the body in the
    -- buffer, without the header; and the two receive, and leave in the buffer, what one read of the body alone
    -- would: it is taken for frames.
    pub feed-split : (out : List Msg) → LosesBody out
    unfolding feed put_uint32
    feed-split out =
        let s : Session pack unpack = record {
          last_msg = fresh_msg;
          buf = put_uint32 n (f ∷ p);
          received = out;
        } in
        let first = drain-partial (length (put_uint32 n (f ∷ p)) + 1) s (omega arith) decode-part in
        let again = drain-header (length (p ++ q) + 1) n f (p ++ q) out in
        (
          drain-whole (length (put_uint32 n (f ∷ (p ++ q))) + 1) out (omega arith),
          first,
          ap (λ t. (feed pack unpack q t).received) first ∙ again.0,
          ap (λ t. (feed pack unpack q t).buf) first ∙ again.1,
        )
