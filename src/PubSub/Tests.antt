-- ===== src/PubSub/Tests.antt =====
-- Runs of subscriptions from the start of the program on.
use druta_db.Prelude.{[], ◌∷◌, List, Bytes, refl, none, pos, arith}
use druta_db.Text.{codes}
use druta_db.Ordered.Set
use druta_db.PubSub.{Net, pubsub_subscribe, pubsub_publish}
use druta_db.PubSub.Delivery.{Delivered, pubsub_publish-Delivered}
use druta_db.PubSub.Limit.{IsWithinLimit, pubsub_subscribe-IsWithinLimit}
use druta_db.PubSub.Agreement.{Agrees, pubsub_subscribe-Agrees}

abbrev no_clients : Net
no_clients = record { clients_map = λ k. none; channels_subscribers = λ c. none; sent = [] }

no_clients-Agrees : Agrees no_clients
unfolding Set.contains
no_clients-Agrees = record {
  both = λ fd channel. refl;
  flag = λ fd. refl;
  fds_sorted = λ channel. tt;
  channels_sorted = λ fd. tt;
}

abbrev two_channels : List Bytes
two_channels = codes "SUBSCRIBE" ∷ codes "news" ∷ codes "chat" ∷ []

subscribed-Agrees : Agrees (pubsub_subscribe (pos 4) two_channels no_clients)
subscribed-Agrees = pubsub_subscribe-Agrees (pos 4) two_channels no_clients no_clients-Agrees

pubsub_publish-Delivered_example :
    Delivered (codes "news") (codes "hi") (pubsub_subscribe (pos 4) two_channels no_clients) (
      pubsub_publish
        (codes "PUBLISH" ∷ codes "news" ∷ codes "hi" ∷ [])
        (pubsub_subscribe (pos 4) two_channels no_clients))
pubsub_publish-Delivered_example =
    pubsub_publish-Delivered (codes "PUBLISH") (codes "news") (codes "hi") []
      (pubsub_subscribe (pos 4) two_channels no_clients) subscribed-Agrees

no_clients-IsWithinLimit : IsWithinLimit no_clients
no_clients-IsWithinLimit fd = omega arith

pubsub_subscribe-IsWithinLimit_example :
    IsWithinLimit (pubsub_subscribe (pos 4) two_channels no_clients)
pubsub_subscribe-IsWithinLimit_example =
    pubsub_subscribe-IsWithinLimit (pos 4) two_channels no_clients no_clients-Agrees
      no_clients-IsWithinLimit
