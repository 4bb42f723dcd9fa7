-- ===== src/Server/Serving/Heard.antt =====
-- Whom the requests under way wait for, in any state of the relay.
use http_relay.Base.{ℕ, All}
use http_relay.Headers.{Headers}
use http_relay.Config.{Config}
use http_relay.Repository.{Repository}
use http_relay.WaitingList.State.{WaitingList}
use http_relay.Inbox
use http_relay.Link
use http_relay.Server.Router.{
  Parked, inbox_getting, inbox_awaiting, link_posting, link_getting, link_fetched, Progressed,
  replies, parks, panicked,
}
use http_relay.Server.Serving.{Relay}
use http_relay.Server.Serving.Listens.{IsHeard}

module _ {b : Repository} where
  -- A request that waits for a receiver is heard.
  abbrev pub Listens : WaitingList b → ℕ × Parked → Type 0
  Listens wl (n, inbox_getting rx) = IsHeard wl rx
  Listens wl (n, inbox_awaiting rx) = IsHeard wl rx
  Listens wl (n, link_posting rx) = IsHeard wl rx
  Listens wl (n, link_getting id rx) = IsHeard wl rx
  Listens wl (n, link_fetched id msg) = Unit

  -- What was heard in the first waiting list is heard in the second.
  abbrev Keeps : WaitingList b → WaitingList b → Type 0
  Keeps wl wl' = (tx : ℕ) → IsHeard wl tx → IsHeard wl' tx

module _ (h : Headers) {b : Repository} where
  abbrev Settles : WaitingList b → ℕ → Progressed h → Type 0
  Settles wl n (replies r) = Unit
  Settles wl n (parks p) = Listens wl (n, p)
  Settles wl n panicked = Unit

  -- Every request under way is heard.
  abbrev pub AllListen : Relay h b → Type 0
  AllListen s = All (Listens s.pending_list) s.under_way
