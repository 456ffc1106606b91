-- ===== src/PubSub/Limit.antt =====
-- The limit on a client's subscriptions, and what every operation keeps of the subscriptions.
use druta_db.Prelude.{
  ◌≤◌, ◌≡◌, inl, inr, true, false, List, [], ◌∷◌, arith, leb, length, drop, Bool-cases,
  if◌then◌else◌, Bytes, bytes_key, int_key, same, ℤ,
}
use druta_db.Ordered.Set
use druta_db.PubSub.{
  Client, Net, client, put_client, max_subscriptions_per_client, over_limit, subscribe_one,
  subscribe_loop, pubsub_subscribe, unsubscribe_one, unsubscribe_loop, channels_to_remove,
  remove_channels, pubsub_unsubscribe,
}
use druta_db.PubSub.Agreement.{Agrees, subscribe_one-Agrees}

-- No client has more subscriptions than the limit.
abbrev pub IsWithinLimit : Net → Type 0
IsWithinLimit net =
    (fd : ℤ) → length (client net fd).subscribed_channels ≤ max_subscriptions_per_client

-- One client changes.
put-IsWithinLimit :
    (net : Net) (fd : ℤ) (c : Client)
    → IsWithinLimit net
    → length c.subscribed_channels ≤ max_subscriptions_per_client
    → IsWithinLimit (put_client fd c net)
put-IsWithinLimit net fd c l h k = elim (Bool-cases (same k fd)) [
  | inl e ↦ rw e h
  | inr n ↦ rw n (l k)
]

below_limit :
    (net : Net) (fd : ℤ) (channel : Bytes)
    → Agrees net
    → IsWithinLimit net
    → over_limit (client net fd) channel ≡ false
    → length (Set.insert (client net fd).subscribed_channels channel) ≤ max_subscriptions_per_client
unfolding over_limit
below_limit net fd channel h l e =
    let old = (client net fd).subscribed_channels in
    let n = Set.length-insert old channel (h.channels_sorted fd) in
    let m = l fd in ground (arith, n, m, e)

subscribe_loop-IsWithinLimit :
    (fd : ℤ) (channels : List Bytes) (net : Net)
    → Agrees net
    → IsWithinLimit net
    → IsWithinLimit (subscribe_loop fd channels net)
unfolding subscribe_loop
subscribe_loop-IsWithinLimit fd [] net h l = l
subscribe_loop-IsWithinLimit fd (channel ∷ channels) net h l =
    elim (Bool-cases (over_limit (client net fd) channel)) [
      | inl e ↦ rw e (put-IsWithinLimit net fd (client net fd) l (l fd))
      | inr n ↦ rw n (
          subscribe_loop-IsWithinLimit fd channels (subscribe_one fd channel net)
            (subscribe_one-Agrees fd channel net h)
            (unfold subscribe_one in
              put-IsWithinLimit net fd
                (record {
                  is_subscriber = true;
                  subscribed_channels = Set.insert (client net fd).subscribed_channels channel;
                })
                l (below_limit net fd channel h l n)))
    ]

-- SUBSCRIBE leaves no client with more subscriptions than the limit, however many channels it names.
pub pubsub_subscribe-IsWithinLimit :
    (fd : ℤ) (args : List Bytes) (net : Net)
    → Agrees net
    → IsWithinLimit net
    → IsWithinLimit (pubsub_subscribe fd args net)
unfolding pubsub_subscribe
pubsub_subscribe-IsWithinLimit fd args net h l =
    subscribe_loop-IsWithinLimit fd (drop 1 args) net h l

unsubscribe_one-IsWithinLimit :
    (fd : ℤ) (channel : Bytes) (net : Net)
    → IsWithinLimit net
    → IsWithinLimit (unsubscribe_one fd channel net)
unfolding unsubscribe_one
unsubscribe_one-IsWithinLimit fd channel net l =
    let old = (client net fd).subscribed_channels in
    let channels = Set.erase old channel in
    let n = Set.length-erase old channel in
    let m = l fd in
    put-IsWithinLimit net fd
      (record {
        is_subscriber = if leb (length channels) 0 then false else (client net fd).is_subscriber;
        subscribed_channels = channels;
      })
      l (omega (arith, n, m))

unsubscribe_loop-IsWithinLimit :
    (fd : ℤ) (channels : List Bytes) (net : Net)
    → IsWithinLimit net
    → IsWithinLimit (unsubscribe_loop fd channels net)
unfolding unsubscribe_loop
unsubscribe_loop-IsWithinLimit fd [] net l = l
unsubscribe_loop-IsWithinLimit fd (channel ∷ channels) net l =
    unsubscribe_loop-IsWithinLimit fd channels (unsubscribe_one fd channel net)
      (unsubscribe_one-IsWithinLimit fd channel net l)

removed-IsWithinLimit :
    (fd : ℤ) (channels : List Bytes) (net : Net)
    → IsWithinLimit net
    → IsWithinLimit (remove_channels fd channels net)
removed-IsWithinLimit fd [] net l = l
removed-IsWithinLimit fd (channel ∷ channels) net l =
    unsubscribe_loop-IsWithinLimit fd (channel ∷ channels) net l

pub pubsub_unsubscribe-IsWithinLimit :
    (fd : ℤ) (args : List Bytes) (net : Net)
    → IsWithinLimit net
    → IsWithinLimit (pubsub_unsubscribe fd args net)
unfolding pubsub_unsubscribe
pubsub_unsubscribe-IsWithinLimit fd args net l =
    removed-IsWithinLimit fd (channels_to_remove fd args net) net l
