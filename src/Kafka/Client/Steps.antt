-- ===== src/Kafka/Client/Steps.antt =====
-- What can happen to a consumer's client, and what is remembered of it.
use common_tools.Prelude.{
  ℕ, ◌≡◌, ◌⊎◌, Bool, true, false, none, some, List, [], ◌∷◌, ◌++◌, String, length, str_eq, contains,
  if◌then◌else◌,
}
use common_tools.Prelude.Run.{ok}
use common_tools.Kafka.Consumer.{Config, Item, msg_item, batch_item, is_done, returned}
use common_tools.Kafka.Consumer.Account.{TakesDeadLetter, BatchGround}
use common_tools.Kafka.Client.{
  Client, Work, new_client, receive, admit, start, finish, quit, fire, commit, cleanup,
  open_session, has,
}

-- A claim of the key has received the item, a worker has done the work on it, or the claims of the
-- keys have been closed.
pub data Log (E M : Type 0) : Type 0 where
  received : String → ℕ → Log E M
  worked : ℕ → Work E M → Log E M
  closed : List String → Log E M

module _ {E M : Type 0} where
  -- The items that the claim of the key has received in its session, in order, from a history with the
  -- latest entry first.
  abbrev pub received_of : String → List (Log E M) → List ℕ
  received_of k [] = []
  received_of k (received j i ∷ h) =
      if str_eq j k then received_of k h ++ i ∷ [] else received_of k h
  received_of k (worked _ _ ∷ h) = received_of k h
  received_of k (closed ks ∷ h) = if contains k ks then [] else received_of k h

  -- The work deals with the item: a message whose handler returns no error, or an error that the dead
  -- letters' handler takes or nobody asks for; a batch likewise.
  abbrev pub Accounts : Config → Work E M → Item M → Type 0
  Accounts c w (msg_item _ m) =
      (w.called m ≡ returned none)
      ⊎ ((e : E) × (w.called m ≡ returned (some e)) × TakesDeadLetter c w.ctx w.dead m e)
  Accounts c w (batch_item _ _ values) =
      BatchGround c w.dead_ctx w.ended w.batch_called w.batch_dead values

  -- Some work in the history has dealt with the item at this pointer.
  abbrev pub Dealt : Config → List (Log E M) → ℕ → Item M → Type 0
  Dealt c [] i item = ⊥
  Dealt c (received _ _ ∷ h) i item = Dealt c h i item
  Dealt c (closed _ ∷ h) i item = Dealt c h i item
  Dealt c (worked j w ∷ h) i item = ((j ≡ i) × Accounts c w item) ⊎ Dealt c h i item

module _ {E M : Type 0} (c : Config) (batch_mode : Bool) (capacity : ℕ) where
  -- The states that the steps of all threads lead to, in any order, from a new client.
  pub data Reach : List (Log E M) → Client M → Type 0 where
    begin : Reach [] new_client
    opens : {h : List (Log E M)} {s : Client M} → Reach h s → Reach h (open_session s)
    receives :
        {h : List (Log E M)} {s : Client M} (k : String) (item : Item M)
        → Reach h s
        → is_done item ≡ false
        → s.pending k ≡ none
        → Reach (received k (length s.items) ∷ h) (receive batch_mode k item s)
    admits :
        {h : List (Log E M)} {s : Client M} (k : String)
        → Reach h s
        → Reach h (admit batch_mode capacity k s)
    starts : {h : List (Log E M)} {s : Client M} (k : String) → Reach h s → Reach h (start k s)
    finishes :
        {h : List (Log E M)} {s : Client M} (i : ℕ) (w : Work E M)
        → Reach h s
        → has i s.busy ≡ true
        → Reach (worked i w ∷ h) (finish c w i s)
    quits : {h : List (Log E M)} {s : Client M} (i : ℕ) → Reach h s → Reach h (quit i s)
    fires :
        {h : List (Log E M)} {s : Client M} (ended : Bool) (i : ℕ)
        → Reach h s
        → Reach h (fire ended i s)
    commits :
        {h : List (Log E M)} {s r : Client M} (k : String)
        → Reach h s
        → commit k s ≡ ok r
        → Reach h r
    closes :
        {h : List (Log E M)} {s r : Client M} (queued claims : List String)
        → Reach h s
        → cleanup queued claims s ≡ ok r
        → Reach (closed claims ∷ h) r
