-- ===== src/PubSub/Order.antt =====
-- What holds of the clients and subscriptions between two commands.
use druta_db.Prelude.{
  ℕ, ◌≡◌, refl, subst, ap, inl, inr, Bool-cases, Option, none, some, List, [], ◌∷◌, arith, Bytes,
  bytes_key, int_key, same, ℤ,
}
use mathlib.Core.Option
use druta_db.PubSub.{
  Client, new_client, Net, send, client, put_client, subscribers, pubsub_subscribe,
  pubsub_unsubscribe, pubsub_publish, pubsub_cleanup_client, cleanup_found,
}
use druta_db.PubSub.Agreement.{Agrees, lookup, pubsub_subscribe-Agrees, pubsub_unsubscribe-Agrees}
use druta_db.PubSub.Departure.{
  forget, forget-client, forgotten, pubsub_cleanup_client-Agrees, leave_channels-clients_map,
}
use druta_db.PubSub.Delivery.{Delivered, pubsub_publish-Delivered}
use druta_db.PubSub.Limit.{
  IsWithinLimit, pubsub_subscribe-IsWithinLimit, pubsub_unsubscribe-IsWithinLimit,
}

-- The two sides of every subscription agree, and no client has too many.
pub record IsOrderly (net : Net) : Type 0 where
  pub agrees : Agrees net
  pub within : IsWithinLimit net

-- The same clients and channels.
alike-IsOrderly :
    (net m : Net)
    → IsOrderly net
    → ((k : ℤ) → client m k ≡ client net k)
    → ((ch : Bytes) → subscribers m ch ≡ subscribers net ch)
    → IsOrderly m
alike-IsOrderly net m h c s = record {
  agrees = record {
    both = λ k ch. rw (c k, s ch) (h.agrees.both k ch);
    flag = λ k. rw (c k) (h.agrees.flag k);
    fds_sorted = λ ch. rw (s ch) (h.agrees.fds_sorted ch);
    channels_sorted = λ k. rw (c k) (h.agrees.channels_sorted k);
  };
  within = λ k. rw (c k) (h.within k);
}

cleanup-clients_map :
    (fd : ℤ) (o : Option Client) (net : Net)
    → (cleanup_found fd o net).clients_map ≡ net.clients_map
unfolding cleanup_found
cleanup-clients_map fd none net = refl
cleanup-clients_map fd (some c) net = leave_channels-clients_map fd c.subscribed_channels net

module _ (net : Net) (h : IsOrderly net) (fd : ℤ) where
  pub send-IsOrderly : (res : Bytes) → IsOrderly (send fd res net)
  send-IsOrderly res = alike-IsOrderly net (send fd res net) h (λ k. refl) (λ ch. refl)

  pub lookup-IsOrderly : IsOrderly (put_client fd (client net fd) net)
  lookup-IsOrderly =
      alike-IsOrderly net (put_client fd (client net fd) net) h (lookup net h.agrees fd)
        (λ ch. refl)

  pub subscribe-IsOrderly : (args : List Bytes) → IsOrderly (pubsub_subscribe fd args net)
  subscribe-IsOrderly args = record {
    agrees = pubsub_subscribe-Agrees fd args net h.agrees;
    within = pubsub_subscribe-IsWithinLimit fd args net h.agrees h.within;
  }

  pub unsubscribe-IsOrderly : (args : List Bytes) → IsOrderly (pubsub_unsubscribe fd args net)
  unsubscribe-IsOrderly args = record {
    agrees = pubsub_unsubscribe-Agrees fd args net h.agrees;
    within = pubsub_unsubscribe-IsWithinLimit fd args net h.within;
  }

  Delivered-IsOrderly :
      (channel message : Bytes) (m : Net × ℕ) → Delivered channel message net m → IsOrderly m.0
  Delivered-IsOrderly channel message m d =
      alike-IsOrderly net m.0 h (λ k. ap (λ f. Option.get_or (f k) new_client) d.clients) d.channels

  pub publish-IsOrderly : (args : List Bytes) → IsOrderly (pubsub_publish args net).0
  publish-IsOrderly (cmd ∷ (channel ∷ (message ∷ rest))) =
      Delivered-IsOrderly channel message _
        (pubsub_publish-Delivered cmd channel message rest net h.agrees)
  publish-IsOrderly [] = unfold pubsub_publish in h
  publish-IsOrderly (cmd ∷ []) = unfold pubsub_publish in h
  publish-IsOrderly (cmd ∷ (channel ∷ [])) = unfold pubsub_publish in h

  pub departed-IsOrderly : IsOrderly (forget fd (pubsub_cleanup_client fd net))
  departed-IsOrderly = record {
    agrees = pubsub_cleanup_client-Agrees fd net h.agrees;
    within = λ k.
        unfold pubsub_cleanup_client in
        let m = cleanup_found fd (net.clients_map fd) net in
        let e = cleanup-clients_map fd (net.clients_map fd) net in
        elim (Bool-cases (same k fd)) [
          | inl hit ↦ rw (forgotten fd k m hit) (omega arith)
          | inr miss ↦
              rw (forget-client fd k m miss, ap (λ f. Option.get_or (f k) new_client) e)
                (h.within k)
        ];
  }

  -- A descriptor that had no client gets one.
  pub connected-IsOrderly : net.clients_map fd ≡ none → IsOrderly (put_client fd new_client net)
  connected-IsOrderly e =
      let c : client net fd ≡ new_client = rw e refl in
      subst (λ c. IsOrderly (put_client fd c net)) c lookup-IsOrderly
