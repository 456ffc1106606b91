-- ===== src/PubSub.antt =====
-- src/client.hpp, src/pubsub.hpp and src/pubsub.cpp: the clients, the channels' subscribers and the
-- texts that have been sent. A client's parser is held by `Server`, which alone runs it.
pub mod Agreement
pub mod Departure
pub mod Delivery
pub mod Limit
pub mod Order
mod Tests
use druta_db.Prelude.{
  ℕ, ◌+◌, Bool, true, false, ◌&&◌, not, Option, none, some, List, [], ◌∷◌, ◌++◌, leb, if◌then◌else◌,
  length, snoc, drop, Bytes, bytes_key, int_key, same, ℤ,
}
use mathlib.Core.Option
use druta_db.Text.{codes, crlf, to_string}
use druta_db.Resp.{resp_bulk_string}
use druta_db.Ordered.Set

abbrev pub max_subscriptions_per_client : ℕ
max_subscriptions_per_client = 128

pub record Client : Type 0 where
  pub is_subscriber : Bool
  pub subscribed_channels : List Bytes

abbrev pub new_client : Client
new_client = record { is_subscriber = false; subscribed_channels = [] }

-- `clients_map` and `channels_subscribers` are never iterated over, so they are functions; the
-- descriptors of a channel are, in ascending order. `sent` has each call of `send`, in order.
pub record Net : Type 0 where
  pub clients_map : ℤ → Option Client
  pub channels_subscribers : Bytes → Option (List ℤ)
  pub sent : List (ℤ × Bytes)

abbrev pub send : ℤ → Bytes → Net → Net
send fd res net = record net { sent = snoc net.sent (fd, res) }

-- `clients_map[fd]`, which makes a client that is not there.
abbrev pub client : Net → ℤ → Client
client net fd = Option.get_or (net.clients_map fd) new_client

abbrev pub put_client : ℤ → Client → Net → Net
put_client fd c net = record net {
  clients_map = λ k. if same k fd then some c else net.clients_map k;
}

-- `channels_subscribers[channel]`
abbrev pub subscribers : Net → Bytes → List ℤ
subscribers net channel = Option.get_or (net.channels_subscribers channel) []

abbrev pub put_subscribers : Bytes → List ℤ → Net → Net
put_subscribers channel s net = record net {
  channels_subscribers = λ k. if same k channel then some s else net.channels_subscribers k;
}

unfoldable pub limit_reply : Bytes
limit_reply = codes "-ERR maximum number of subscriptions reached" ++ crlf

-- ["subscribe", channel, count]
unfoldable pub count_reply : Bytes → Bytes → ℕ → Bytes
count_reply name channel n =
    resp_bulk_string (resp_bulk_string (codes "*3" ++ crlf) name) channel
    ++ (b':' ∷ to_string n ++ crlf)

-- `!already_subbed && … >= MAX_SUBSCRIPTIONS_PER_CLIENT`
unfoldable pub over_limit : Client → Bytes → Bool
over_limit c channel =
    not (Set.contains c.subscribed_channels channel)
    && leb max_subscriptions_per_client (length c.subscribed_channels)

unfoldable pub subscribe_one : ℤ → Bytes → Net → Net
subscribe_one fd channel net =
    let c = client net fd in
    let channels = Set.insert c.subscribed_channels channel in
    send fd (count_reply (codes "subscribe") channel (length channels)) (
      put_client fd (record { is_subscriber = true; subscribed_channels = channels })
        (put_subscribers channel (Set.insert (subscribers net channel) fd) net))

-- The loop, which the limit ends.
unfoldable pub subscribe_loop : ℤ → List Bytes → Net → Net
subscribe_loop fd [] net = net
subscribe_loop fd (channel ∷ channels) net =
    let rest = subscribe_loop fd channels (subscribe_one fd channel net) in
    if over_limit (client net fd) channel
    then send fd limit_reply (put_client fd (client net fd) net)
    else rest

unfoldable pub pubsub_subscribe : ℤ → List Bytes → Net → Net
pubsub_subscribe fd args net = subscribe_loop fd (drop 1 args) net

unfoldable pub unsubscribe_one : ℤ → Bytes → Net → Net
unsubscribe_one fd channel net =
    let c = client net fd in
    let channels = Set.erase c.subscribed_channels channel in
    let subscriber = if leb (length channels) 0 then false else c.is_subscriber in
    send fd (count_reply (codes "unsubscribe") channel (length channels)) (
      put_client fd (record { is_subscriber = subscriber; subscribed_channels = channels })
        (put_subscribers channel (Set.erase (subscribers net channel) fd) net))

unfoldable pub unsubscribe_loop : ℤ → List Bytes → Net → Net
unsubscribe_loop fd [] net = net
unsubscribe_loop fd (channel ∷ channels) net =
    unsubscribe_loop fd channels (unsubscribe_one fd channel net)

unfoldable pub nothing_reply : Bytes
nothing_reply =
    resp_bulk_string (codes "*3" ++ crlf) (codes "unsubscribe")
    ++ ((codes "$-1" ++ crlf) ++ (codes ":0" ++ crlf))

-- All channels of the client if the command names none.
unfoldable pub channels_to_remove : ℤ → List Bytes → Net → List Bytes
channels_to_remove fd (cmd ∷ []) net = (client net fd).subscribed_channels
channels_to_remove fd args net = drop 1 args

abbrev pub remove_channels : ℤ → List Bytes → Net → Net
remove_channels fd [] net = send fd nothing_reply net
remove_channels fd (channel ∷ channels) net = unsubscribe_loop fd (channel ∷ channels) net

unfoldable pub pubsub_unsubscribe : ℤ → List Bytes → Net → Net
pubsub_unsubscribe fd args net = remove_channels fd (channels_to_remove fd args net) net

-- ["message", channel, data]
unfoldable pub message_text : Bytes → Bytes → Bytes
message_text channel message =
    resp_bulk_string
      (resp_bulk_string (resp_bulk_string (codes "*3" ++ crlf) (codes "message")) channel) message

-- The loop over the subscribers: the state, `clients_affected` and `dead_fds`.
unfoldable pub broadcast : Bytes → List ℤ → Net → ℕ → List ℤ → Net × ℕ × List ℤ
broadcast res [] net affected dead = (net, affected, dead)
broadcast res (fd ∷ fds) net affected dead = elim (net.clients_map fd) [
  | none ↦ broadcast res fds net affected (snoc dead fd)
  | some c ↦ broadcast res fds (send fd res net) (affected + 1) dead
]

unfoldable pub erase_all : List ℤ → List ℤ → List ℤ
erase_all s [] = s
erase_all s (fd ∷ fds) = erase_all (Set.erase s fd) fds

unfoldable pub publish_to : Bytes → Bytes → Option (List ℤ) → Net → Net × ℕ
unfolding broadcast erase_all
publish_to channel message none net = (net, 0)
publish_to channel message (some s) net =
    let r = broadcast (message_text channel message) s net 0 [] in
    (put_subscribers channel (erase_all s r.2) r.0, r.1)

unfoldable pub pubsub_publish : List Bytes → Net → Net × ℕ
unfolding publish_to
pubsub_publish (cmd ∷ (channel ∷ (message ∷ rest))) net =
    publish_to channel message (net.channels_subscribers channel) net
pubsub_publish args net = (net, 0)

unfoldable pub leave_channels : ℤ → List Bytes → Net → Net
leave_channels fd [] net = net
leave_channels fd (channel ∷ channels) net =
    leave_channels fd channels
      (put_subscribers channel (Set.erase (subscribers net channel) fd) net)

unfoldable pub cleanup_found : ℤ → Option Client → Net → Net
unfolding leave_channels
cleanup_found fd none net = net
cleanup_found fd (some c) net = leave_channels fd c.subscribed_channels net

unfoldable pub pubsub_cleanup_client : ℤ → Net → Net
unfolding cleanup_found
pubsub_cleanup_client fd net = cleanup_found fd (net.clients_map fd) net
