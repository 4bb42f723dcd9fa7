-- ===== src/Inbox/Acknowledged.antt =====
-- The wait for an ACK, which another request brings: `await_handler` and `delete_handler`.
use http_relay.Config.{Config}
use http_relay.Headers.{Headers}
use http_relay.Status
use http_relay.Repository.{Repository}
use http_relay.WaitingList.State.{WaitingList}
