-- ===== src/PubSub/Agreement.antt =====
-- The two sides of a subscription: a client's channels and a channel's subscribers.
use druta_db.Prelude.{
  ◌≡◌, refl, sym, ◌∙◌, inl, inr, true, false, List, [], ◌∷◌, arith, leb, ltb, if◌then◌else◌, length,
  drop, Bool-cases, Bytes, bytes_key, int_key, same, same_iff, same_refl, ℤ,
}
use druta_db.Ordered.Set
use druta_db.PubSub.{
  Client, Net, client, put_client, subscribers, put_subscribers, send, limit_reply, nothing_reply,
  over_limit, subscribe_one, subscribe_loop, pubsub_subscribe, unsubscribe_one, unsubscribe_loop,
  channels_to_remove, remove_channels, pubsub_unsubscribe,
}

-- A descriptor is among a channel's subscribers exactly if the channel is among the client's; a
-- client is a subscriber exactly if it has a channel; the sets are in order.
pub record Agrees (net : Net) : Type 0 where
  pub both :
      (fd : ℤ) (channel : Bytes)
      → Set.contains (subscribers net channel) fd
        ≡ Set.contains (client net fd).subscribed_channels channel
  pub flag :
      (fd : ℤ) → (client net fd).is_subscriber ≡ ltb 0 (length (client net fd).subscribed_channels)
  pub fds_sorted : (channel : Bytes) → Set.IsSorted (subscribers net channel)
  pub channels_sorted : (fd : ℤ) → Set.IsSorted (client net fd).subscribed_channels

pub client-put :
    (net : Net) (fd k : ℤ) (c : Client)
    → client (put_client fd c net) k ≡ (if same k fd then c else client net k)
client-put net fd k c = elim (Bool-cases (same k fd)) [ inl e ↦ rw e | inr n ↦ rw n ]

pub subscribers-put :
    (net : Net) (channel k : Bytes) (s : List ℤ)
    → subscribers (put_subscribers channel s net) k
      ≡ (if same k channel then s else subscribers net k)
subscribers-put net channel k s = elim (Bool-cases (same k channel)) [ inl e ↦ rw e | inr n ↦ rw n ]

insert-nonempty : (s : List Bytes) (a : Bytes) → ltb 0 (length (Set.insert s a)) ≡ true
unfolding Set.insert
insert-nonempty [] a = refl
insert-nonempty (x ∷ s) a = ground arith

-- One client and one channel get new sets.
module _ (net : Net) (h : Agrees net) (fd : ℤ) (channel : Bytes) (c : Client) (s : List ℤ)
    (one : (k : ℤ)
      → Set.contains s k ≡ (
          if same fd k
          then Set.contains c.subscribed_channels channel
          else Set.contains (subscribers net channel) k))
    (rest : (ch : Bytes)
      → same ch channel ≡ false
      → Set.contains c.subscribed_channels ch ≡ Set.contains (client net fd).subscribed_channels ch)
    (flag : c.is_subscriber ≡ ltb 0 (length c.subscribed_channels)) (s_sorted : Set.IsSorted s)
    (c_sorted : Set.IsSorted c.subscribed_channels) where
  abbrev updated : Net
  updated = put_client fd c (put_subscribers channel s net)

  updated-both :
      (k : ℤ) (ch : Bytes)
      → Set.contains (if same ch channel then s else subscribers net ch) k
        ≡ Set.contains (if same k fd then c else client net k).subscribed_channels ch
  updated-both k ch = elim (Bool-cases (same ch channel)) [
    | inl e ↦ elim (Bool-cases (same k fd)) [
      | inl f ↦ rw (e, f) (ground (arith, one k, same_iff fd k, same_iff k fd, same_iff ch channel))
      | inr f ↦
          rw (e, f)
            (ground (arith, one k, same_iff fd k, same_iff k fd, same_iff ch channel, h.both k ch))
    ]
    | inr e ↦ elim (Bool-cases (same k fd)) [
      | inl f ↦ rw (e, f) (ground (arith, rest ch e, same_iff k fd, h.both k ch))
      | inr f ↦ rw (e, f) (h.both k ch)
    ]
  ]

  pub updated-Agrees : Agrees updated
  updated-Agrees = record {
    both = λ k ch.
        rw (client-put (put_subscribers channel s net) fd k c, subscribers-put net channel ch s)
          (updated-both k ch);
    flag = λ k. elim (Bool-cases (same k fd)) [ inl e ↦ rw e flag | inr n ↦ rw n (h.flag k) ];
    fds_sorted = λ ch. elim (Bool-cases (same ch channel)) [
      | inl e ↦ rw e s_sorted
      | inr n ↦ rw n (h.fds_sorted ch)
    ];
    channels_sorted = λ k. elim (Bool-cases (same k fd)) [
      | inl e ↦ rw e c_sorted
      | inr n ↦ rw n (h.channels_sorted k)
    ];
  }

module _ (net : Net) (h : Agrees net) (fd : ℤ) where
  -- Sending a text, and looking a client up, change nothing of it.
  pub send-Agrees : (k : ℤ) (res : Bytes) → Agrees (send k res net)
  send-Agrees k res = record {
    both = h.both;
    flag = h.flag;
    fds_sorted = h.fds_sorted;
    channels_sorted = h.channels_sorted;
  }

  pub lookup : (k : ℤ) → client (put_client fd (client net fd) net) k ≡ client net k
  lookup k =
      client-put net fd k (client net fd)
      ∙ (elim (Bool-cases (same k fd)) [ inl e ↦ rw (e, (same_iff k fd).0 e) | inr n ↦ rw n ])

  pub lookup-Agrees : Agrees (put_client fd (client net fd) net)
  lookup-Agrees = record {
    both = λ k ch. rw (lookup k) (h.both k ch);
    flag = λ k. rw (lookup k) (h.flag k);
    fds_sorted = h.fds_sorted;
    channels_sorted = λ k. rw (lookup k) (h.channels_sorted k);
  }

pub subscribe_one-Agrees :
    (fd : ℤ) (channel : Bytes) (net : Net) → Agrees net → Agrees (subscribe_one fd channel net)
unfolding subscribe_one
subscribe_one-Agrees fd channel net h =
    let old = (client net fd).subscribed_channels in
    let c : Client = record {
      is_subscriber = true;
      subscribed_channels = Set.insert old channel;
    } in
    let s = Set.insert (subscribers net channel) fd in
    let new =
      updated-Agrees net h fd channel c s
        (λ k. ground (
          arith,
          Set.contains-insert (subscribers net channel) fd k,
          Set.contains-insert old channel channel,
          same_refl channel,
        ))
        (λ ch n.
          ground
            (arith, Set.contains-insert old channel ch, same_iff channel ch, same_iff ch channel))
        (sym (insert-nonempty old channel))
        (Set.insert-IsSorted (subscribers net channel) fd (h.fds_sorted channel))
        (Set.insert-IsSorted old channel (h.channels_sorted fd)) in
    send-Agrees (put_client fd c (put_subscribers channel s net)) new fd fd _

unsubscribe_one-Agrees :
    (fd : ℤ) (channel : Bytes) (net : Net) → Agrees net → Agrees (unsubscribe_one fd channel net)
unfolding unsubscribe_one
unsubscribe_one-Agrees fd channel net h =
    let old = (client net fd).subscribed_channels in
    let channels = Set.erase old channel in
    let flag = if leb (length channels) 0 then false else (client net fd).is_subscriber in
    let c : Client = record { is_subscriber = flag; subscribed_channels = channels } in
    let s = Set.erase (subscribers net channel) fd in
    let new =
      updated-Agrees net h fd channel c s
        (λ k. ground (
          arith,
          Set.contains-erase (subscribers net channel) fd k (h.fds_sorted channel),
          Set.contains-erase old channel channel (h.channels_sorted fd),
          same_refl channel,
        ))
        (λ ch n. ground (
          arith,
          Set.contains-erase old channel ch (h.channels_sorted fd),
          same_iff channel ch,
          same_iff ch channel,
        ))
        (ground (arith, h.flag fd, Set.length-erase old channel))
        (Set.erase-IsSorted (subscribers net channel) fd (h.fds_sorted channel))
        (Set.erase-IsSorted old channel (h.channels_sorted fd)) in
    send-Agrees (put_client fd c (put_subscribers channel s net)) new fd fd _

subscribe_loop-Agrees :
    (fd : ℤ) (channels : List Bytes) (net : Net)
    → Agrees net
    → Agrees (subscribe_loop fd channels net)
unfolding subscribe_loop
subscribe_loop-Agrees fd [] net h = h
subscribe_loop-Agrees fd (channel ∷ channels) net h =
    let later =
      subscribe_loop-Agrees fd channels (subscribe_one fd channel net)
        (subscribe_one-Agrees fd channel net h) in
    elim (Bool-cases (over_limit (client net fd) channel)) [
      | inl e ↦ rw e (
          send-Agrees (put_client fd (client net fd) net) (lookup-Agrees net h fd) fd fd
            limit_reply)
      | inr n ↦ rw n later
    ]

unsubscribe_loop-Agrees :
    (fd : ℤ) (channels : List Bytes) (net : Net)
    → Agrees net
    → Agrees (unsubscribe_loop fd channels net)
unfolding unsubscribe_loop
unsubscribe_loop-Agrees fd [] net h = h
unsubscribe_loop-Agrees fd (channel ∷ channels) net h =
    unsubscribe_loop-Agrees fd channels (unsubscribe_one fd channel net)
      (unsubscribe_one-Agrees fd channel net h)

-- SUBSCRIBE keeps the two sides in agreement, also where the limit ends it.
pub pubsub_subscribe-Agrees :
    (fd : ℤ) (args : List Bytes) (net : Net) → Agrees net → Agrees (pubsub_subscribe fd args net)
unfolding pubsub_subscribe
pubsub_subscribe-Agrees fd args net h = subscribe_loop-Agrees fd (drop 1 args) net h

-- UNSUBSCRIBE keeps the two sides in agreement, whether it names channels or leaves all.
pub pubsub_unsubscribe-Agrees :
    (fd : ℤ) (args : List Bytes) (net : Net) → Agrees net → Agrees (pubsub_unsubscribe fd args net)
unfolding pubsub_unsubscribe
pubsub_unsubscribe-Agrees fd args net h = removed-Agrees (channels_to_remove fd args net)
  where
    removed-Agrees : (channels : List Bytes) → Agrees (remove_channels fd channels net)
    removed-Agrees [] = send-Agrees net h fd fd nothing_reply
    removed-Agrees (channel ∷ channels) = unsubscribe_loop-Agrees fd (channel ∷ channels) net h
