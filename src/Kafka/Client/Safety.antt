-- ===== src/Kafka/Client/Safety.antt =====
-- No message is committed before all that came before it are dealt with.
use common_tools.Prelude.{
  ℕ, inl, inr, Bool, false, List, ◌∷◌, String, Option-cases, Bool-cases, arith, subst,
}
use common_tools.Prelude.Run.{Returns, returns, Returns-bind}
use common_tools.Kafka.Consumer.{Config}
use common_tools.Kafka.Client.{Client, commit, delete_queues, cleanup, start, fire, pull, has}
use common_tools.Kafka.Client.Keep.{Inv, new-Inv, receive-Inv, admit-Inv}
use common_tools.Kafka.Client.Finish.{finish-Inv}
use common_tools.Kafka.Client.Commit.{
  Covers, commit-lem, commit_completed_offsets-Inv, delete-Inv, delete_queues_lem,
}
use common_tools.Kafka.Client.Steps.{
  Log, closed, Reach, begin, opens, receives, admits, starts, finishes, quits, fires, commits,
  closes,
}

module _ {E M : Type 0} (c : Config) where
  start-Inv : (h : List (Log E M)) (k : String) (s : Client M) → Inv c h s → Inv c h (start k s)
  unfolding start
  start-Inv h k s inv = elim (Option-cases (pull k s.chan)) [
    | inl nothing ↦ rw (nothing, start) inv
    | inr (p, found) ↦ rw (found, start) (record { line = inv.line; dealt = inv.dealt })
  ]

  fire-Inv :
      (h : List (Log E M)) (ended : Bool) (i : ℕ) (s : Client M)
      → Inv c h s
      → Inv c h (fire ended i s)
  unfolding fire
  fire-Inv h ended i s inv = elim (Bool-cases (has i s.timers)) [
    | inl there ↦ rw (there, fire) (record { line = inv.line; dealt = inv.dealt })
    | inr not_there ↦ rw (not_there, fire) inv
  ]

  cleanup-Inv :
      (h : List (Log E M)) (queued claims : List String) (s : Client M)
      → Inv c h s
      → Returns (Inv c (closed claims ∷ h)) (cleanup queued claims s)
  unfolding cleanup
  cleanup-Inv h queued claims s inv =
      Returns-bind _ (commit_completed_offsets-Inv c h queued s inv) (λ r p.
        let t : Client M = record (delete_queues claims r) { session = false } in
        returns t (
          delete-Inv c h claims r t (delete_queues_lem claims r "").0
            (λ j. (delete_queues_lem claims r j).1) (λ j. (delete_queues_lem claims r j).2) p))

  Reach-Inv :
      (batch_mode : Bool) (capacity : ℕ) {h : List (Log E M)} {s : Client M}
      → Reach c batch_mode capacity h s
      → Inv c h s
  Reach-Inv b cap begin = new-Inv c
  Reach-Inv b cap (opens r) =
      let inv = Reach-Inv b cap r in record { line = inv.line; dealt = inv.dealt }
  Reach-Inv b cap (receives {h = h} {s = s} k item r new idle) =
      receive-Inv c h s b k item new idle (Reach-Inv b cap r)
  Reach-Inv b cap (admits {h = h} {s = s} k r) = admit-Inv c h s b cap k (Reach-Inv b cap r)
  Reach-Inv b cap (starts {h = h} {s = s} k r) = start-Inv h k s (Reach-Inv b cap r)
  Reach-Inv b cap (finishes {h = h} {s = s} i w r busy) =
      finish-Inv c h i w s busy (Reach-Inv b cap r)
  Reach-Inv b cap (quits i r) =
      let inv = Reach-Inv b cap r in record { line = inv.line; dealt = inv.dealt }
  Reach-Inv b cap (fires {h = h} {s = s} ended i r) = fire-Inv h ended i s (Reach-Inv b cap r)
  Reach-Inv b cap (commits {h = h} {s = s} k r e) =
      let (t, f, p) = commit-lem c h k s (Reach-Inv b cap r) in
      subst (Inv c h) (ground (arith, e, f)) p.0
  Reach-Inv b cap (closes {h = h} {s = s} queued claims r e) =
      let (t, f, p) = cleanup-Inv h queued claims s (Reach-Inv b cap r) in
      subst (Inv c (closed claims ∷ h)) (ground (arith, e, f)) p

  -- Whatever claims, workers, retries and commit jobs have done before, in any order: a commit for a key ends,
  -- and if it marks a message, that is the last message of an item that the key's claim has received
  -- in its session, and this item and all that the claim has received before it were dealt with: a
  -- handler returned no error for them, or the dead letters' handler took them, or there is no
  -- such handler.
  pub commit-Covers :
      (batch_mode : Bool) (capacity : ℕ) {h : List (Log E M)} {s : Client M} (k : String)
      → Reach c batch_mode capacity h s
      → Returns (Covers c h k s) (commit k s)
  commit-Covers b cap {h} {s} k r =
      let (t, f, p) = commit-lem c h k s (Reach-Inv b cap r) in (t, f, p.1)
