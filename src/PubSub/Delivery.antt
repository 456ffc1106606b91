-- ===== src/PubSub/Delivery.antt =====
-- PUBLISH: who gets the message.
use druta_db.Prelude.{
  ℕ, ◌+◌, ◌≡◌, refl, sym, ◌∙◌, inl, inr, true, Option, none, some, List, [], ◌∷◌, ◌++◌, map, arith,
  length, append-snoc, append-nil, snoc, All, Bool-cases, Bytes, bytes_key, int_key, same, same_iff,
  same_refl, ℤ,
}
use druta_db.Ordered.Set
use druta_db.PubSub.{
  Client, Net, client, subscribers, message_text, broadcast, erase_all, publish_to, pubsub_publish,
}
use druta_db.PubSub.Agreement.{Agrees}

IsConnected : Net → ℤ → Type 0
IsConnected net fd = (c : Client) × (net.clients_map fd ≡ some c)

-- The calls of `send` for one text.
abbrev pub sends : Bytes → List ℤ → List (ℤ × Bytes)
sends res = map (λ fd. (fd, res))

broadcast-skip :
    (res : Bytes) (fd : ℤ) (fds : List ℤ) (net : Net) (affected : ℕ) (dead : List ℤ) (c : Client)
    → net.clients_map fd ≡ some c
    → broadcast res (fd ∷ fds) net affected dead
      ≡ broadcast res fds (record net { sent = snoc net.sent (fd, res) }) (affected + 1) dead
unfolding broadcast
broadcast-skip res fd fds net affected dead c e = rw (broadcast, e) refl

after :
    (net : Net) (dead : List ℤ) {s t : List (ℤ × Bytes)} {m n : ℕ}
    → s ≡ t
    → m ≡ n
    → ◌≡◌ {A = Net × ℕ × List ℤ}
        (record net { sent = s }, m, dead)
        (record net { sent = t }, n, dead)
after net dead e f = rw (e, f) refl

broadcast-connected :
    (res : Bytes) (fds : List ℤ) (net : Net) (affected : ℕ) (dead : List ℤ)
    → All (IsConnected net) fds
    → broadcast res fds net affected dead
      ≡ (record net { sent = net.sent ++ sends res fds }, affected + length fds, dead)
unfolding IsConnected
broadcast-connected res [] net affected dead a =
    unfold broadcast in after net dead (sym (append-nil net.sent)) (omega arith)
broadcast-connected res (fd ∷ fds) net affected dead a =
    broadcast-skip res fd fds net affected dead a.0.0 a.0.1
    ∙ broadcast-connected res fds (record net { sent = snoc net.sent (fd, res) }) (affected + 1)
        dead a.1
    ∙ after net dead (sym (append-snoc net.sent (sends res fds) (fd, res))) (omega arith)

module _ (net : Net) (h : Agrees net) (channel : Bytes) where
  member-IsConnected :
      (fd : ℤ) (o : Option Client)
      → net.clients_map fd ≡ o
      → Set.contains (subscribers net channel) fd ≡ true
      → IsConnected net fd
  unfolding IsConnected Set.contains
  member-IsConnected fd (some c) e m = (c, e)
  member-IsConnected fd none e m =
      let b = h.both fd channel in
      let n : (client net fd).subscribed_channels ≡ [] = rw e refl in
      absurd (ground (arith, b, rw n at b))

  members-IsConnected :
      (fds : List ℤ)
      → ((fd : ℤ) → Set.contains fds fd ≡ true → Set.contains (subscribers net channel) fd ≡ true)
      → All (IsConnected net) fds
  unfolding Set.contains
  members-IsConnected [] sub = tt
  members-IsConnected (fd ∷ fds) sub = (
    member-IsConnected fd (net.clients_map fd) refl (sub fd (rw (same_refl fd))),
    members-IsConnected fds (λ k m. sub k (ground arith)),
  )

-- What PUBLISH owes: the message goes to each subscriber of the channel, in order, once each, and
-- to nobody else; the result is their number; clients and subscriptions are as before.
pub record Delivered (channel message : Bytes) (net : Net) (r : Net × ℕ) : Type 0 where
  pub sent : r.0.sent ≡ net.sent ++ sends (message_text channel message) (subscribers net channel)
  pub counted : r.1 ≡ length (subscribers net channel)
  pub clients : r.0.clients_map ≡ net.clients_map
  pub channels : (ch : Bytes) → subscribers r.0 ch ≡ subscribers net ch

publish_to-Delivered :
    (channel message : Bytes) (net : Net) (o : Option (List ℤ))
    → Agrees net
    → net.channels_subscribers channel ≡ o
    → Delivered channel message net (publish_to channel message o net)
publish_to-Delivered channel message net none h e =
    unfold publish_to in
    let n : subscribers net channel ≡ [] = rw e refl in
    record {
      sent = rw n (sym (append-nil net.sent));
      counted = rw n;
      clients = refl;
      channels = λ ch. refl;
    }
publish_to-Delivered channel message net (some s) h e =
    unfold publish_to in
    unfold erase_all in
    let n : subscribers net channel ≡ s = rw e refl in
    let a = members-IsConnected net h channel s (λ fd m. rw n m) in
    rw (broadcast-connected (message_text channel message) s net 0 [] a) (record {
      sent = rw n;
      counted = rw n (omega arith);
      clients = refl;
      channels = λ ch. elim (Bool-cases (same ch channel)) [
        | inl hit ↦ rw hit (sym (rw ((same_iff ch channel).0 hit) n))
        | inr miss ↦ rw miss
      ];
    })

-- PUBLISH where the two sides of the subscriptions agree: the message goes to each subscriber of
-- the channel, in order and once, and to nobody else. The result is the number of subscribers, and
-- the clients and subscriptions are as before.
pub pubsub_publish-Delivered :
    (cmd channel message : Bytes) (rest : List Bytes) (net : Net)
    → Agrees net
    → Delivered channel message net (pubsub_publish (cmd ∷ (channel ∷ (message ∷ rest))) net)
pubsub_publish-Delivered cmd channel message rest net h =
    unfold pubsub_publish in
    publish_to-Delivered channel message net (net.channels_subscribers channel) h refl
