-- ===== src/PubSub/Departure.antt =====
-- A client that disconnects: `pubsub_cleanup_client`, after which `main` erases the client.
use druta_db.Prelude.{
  ◌≡◌, refl, ap, ◌∙◌, inl, inr, true, false, ◌&&◌, not, Option, none, some, List, [], ◌∷◌, arith,
  if◌then◌else◌, Bool-cases, Bytes, bytes_key, int_key, same, same_iff, same_refl, ℤ,
}
use mathlib.Core.Option
use druta_db.Ordered.Set
use druta_db.PubSub.{
  Client, new_client, Net, client, subscribers, put_subscribers, leave_channels, cleanup_found,
  pubsub_cleanup_client,
}
use druta_db.PubSub.Agreement.{Agrees}

AreSorted : Net → Type 0
AreSorted net = (ch : Bytes) → Set.IsSorted (subscribers net ch)

-- One channel is left.
abbrev left : ℤ → Bytes → Net → Net
left fd channel net = put_subscribers channel (Set.erase (subscribers net channel) fd) net

left-AreSorted :
    (fd : ℤ) (channel : Bytes) (net : Net) → AreSorted net → AreSorted (left fd channel net)
unfolding AreSorted
left-AreSorted fd channel net o ch = elim (Bool-cases (same ch channel)) [
  | inl e ↦ rw e (Set.erase-IsSorted (subscribers net channel) fd (o channel))
  | inr n ↦ rw n (o ch)
]

contains-left :
    (fd : ℤ) (channel : Bytes) (net : Net) (ch : Bytes) (k : ℤ)
    → AreSorted net
    → Set.contains (subscribers (left fd channel net) ch) k
      ≡ (Set.contains (subscribers net ch) k && not (same fd k && same channel ch))
unfolding AreSorted
contains-left fd channel net ch k o = elim (Bool-cases (same ch channel)) [
  | inl e ↦
      let q = (same_iff ch channel).0 e in
      rw e (
        rw q (
          ground (
            arith,
            Set.contains-erase (subscribers net channel) fd k (o channel),
            same_refl channel,
          )))
  | inr n ↦ rw n (ground (arith, same_iff ch channel, same_iff channel ch))
]

leave_channels-AreSorted :
    (fd : ℤ) (channels : List Bytes) (net : Net)
    → AreSorted net
    → AreSorted (leave_channels fd channels net)
unfolding leave_channels
leave_channels-AreSorted fd [] net o = o
leave_channels-AreSorted fd (channel ∷ channels) net o =
    leave_channels-AreSorted fd channels (left fd channel net) (left-AreSorted fd channel net o)

contains-leave_channels :
    (fd : ℤ) (channels : List Bytes) (net : Net) (ch : Bytes) (k : ℤ)
    → AreSorted net
    → Set.contains (subscribers (leave_channels fd channels net) ch) k
      ≡ (Set.contains (subscribers net ch) k && not (same fd k && Set.contains channels ch))
unfolding leave_channels
contains-leave_channels fd [] net ch k o = unfold Set.contains in ground arith
contains-leave_channels fd (channel ∷ channels) net ch k o =
    contains-leave_channels fd channels (left fd channel net) ch k (left-AreSorted fd channel net o)
    ∙ rw (contains-left fd channel net ch k o) (contains-tail)
  where
    contains-tail :
        ((Set.contains (subscribers net ch) k && not (same fd k && same channel ch))
          && not (same fd k && Set.contains channels ch))
        ≡ (Set.contains (subscribers net ch) k
            && not (same fd k && Set.contains (channel ∷ channels) ch))
    contains-tail = unfold Set.contains in ground arith

pub leave_channels-clients_map :
    (fd : ℤ) (channels : List Bytes) (net : Net)
    → (leave_channels fd channels net).clients_map ≡ net.clients_map
unfolding leave_channels
leave_channels-clients_map fd [] net = refl
leave_channels-clients_map fd (channel ∷ channels) net =
    leave_channels-clients_map fd channels (left fd channel net)

-- `clients_map.erase(fd)`
abbrev pub forget : ℤ → Net → Net
forget fd net = record net { clients_map = λ k. if same k fd then none else net.clients_map k }

pub forget-client :
    (fd k : ℤ) (net : Net) → same k fd ≡ false → client (forget fd net) k ≡ client net k
forget-client fd k net n = rw n

pub forgotten : (fd k : ℤ) (net : Net) → same k fd ≡ true → client (forget fd net) k ≡ new_client
forgotten fd k net e = rw e

module _ (fd : ℤ) (net m : Net) (h : Agrees net) (clients : m.clients_map ≡ net.clients_map)
    (sorted : AreSorted m)
    (gone : (ch : Bytes) (k : ℤ)
      → Set.contains (subscribers m ch) k ≡ (
          Set.contains (subscribers net ch) k
          && not (same fd k && Set.contains (client net fd).subscribed_channels ch))) where
  same_client : (k : ℤ) → client m k ≡ client net k
  same_client k = ap (λ f. Option.get_or (f k) new_client) clients

  forget-both :
      (k : ℤ) (ch : Bytes)
      → Set.contains (subscribers m ch) k
        ≡ Set.contains (client (forget fd m) k).subscribed_channels ch
  forget-both k ch = elim (Bool-cases (same k fd)) [
    | inl e ↦
        let q = (same_iff k fd).0 e in
        let none_ : Set.contains {K = Bytes} [] ch ≡ false = unfold Set.contains in refl in
        gone ch k
        ∙ rw (forgotten fd k m e, none_) (rw q (ground (arith, h.both fd ch, same_refl fd)))
    | inr n ↦
        gone ch k
        ∙ rw (forget-client fd k m n, same_client k)
            (ground (arith, h.both k ch, same_iff fd k, same_iff k fd))
  ]

  forget-Agrees : Agrees (forget fd m)
  unfolding AreSorted
  forget-Agrees = record {
    both = forget-both;
    flag = λ k. elim (Bool-cases (same k fd)) [
      | inl e ↦ rw (forgotten fd k m e)
      | inr n ↦ rw (forget-client fd k m n, same_client k) (h.flag k)
    ];
    fds_sorted = sorted;
    channels_sorted = λ k. elim (Bool-cases (same k fd)) [
      | inl e ↦ rw (forgotten fd k m e) tt
      | inr n ↦ rw (forget-client fd k m n, same_client k) (h.channels_sorted k)
    ];
  }

found-Agrees :
    (fd : ℤ) (o : Option Client) (net : Net)
    → Agrees net
    → net.clients_map fd ≡ o
    → Agrees (forget fd (cleanup_found fd o net))
unfolding cleanup_found AreSorted
found-Agrees fd none net h e =
    forget-Agrees fd net net h refl h.fds_sorted
      (λ ch k. rw e (unfold Set.contains in ground arith))
found-Agrees fd (some c) net h e =
    forget-Agrees fd net (leave_channels fd c.subscribed_channels net) h
      (leave_channels-clients_map fd c.subscribed_channels net)
      (leave_channels-AreSorted fd c.subscribed_channels net h.fds_sorted)
      (λ ch k. rw e (contains-leave_channels fd c.subscribed_channels net ch k h.fds_sorted))

-- A disconnection, `pubsub_cleanup_client` and then the erasure of the client, keeps the two sides
-- of every subscription in agreement.
pub pubsub_cleanup_client-Agrees :
    (fd : ℤ) (net : Net) → Agrees net → Agrees (forget fd (pubsub_cleanup_client fd net))
unfolding pubsub_cleanup_client
pubsub_cleanup_client-Agrees fd net h = found-Agrees fd (net.clients_map fd) net h refl
