-- ===== src/Tests/Listeners.antt =====
-- The channels.
use libbayeux.Prelude.{◌≡◌, refl, List, [], ◌∷◌, none, some, arith, ◌<◌, ◌≤◌, ◌⊎◌}
use libbayeux.Libc.{codes}
use libbayeux.Json.Table.{tree}
use libbayeux.Client.{Channel, Subscription}
use libbayeux.Client.Channels.{new_channel, channel_deliver}
use libbayeux.Client.Channels.Subscribe.{IsChannel, IsGrown}
use libbayeux.Client.Channels.Capacity.{subscribe_all, subscribe_all_sixteen}
use libbayeux.Client.Channels.Deliver.{deliveries, channel_deliver-deliveries}
use libbayeux.Tests.Base.{note, session, session-HasTable, table, news, listener}

abbrev many : List Subscription
many = listener ∷ listener ∷ listener ∷ listener ∷ listener ∷ []

subscribe_all_sixteen_example :
    ((5 ≤ 16)
      × ((channel : Channel) × (subscribe_all (new_channel (codes "/news")) many ≡ some channel)
          × IsChannel channel many))
    ⊎ ((16 < 5) × (subscribe_all (new_channel (codes "/news")) many ≡ none))
subscribe_all_sixteen_example = subscribe_all_sixteen (codes "/news") many

channel_deliver-deliveries_example :
    channel_deliver tree session (codes "/news") note
    ≡ some
        (record session { effects = deliveries (codes "/news") (tree.to_json_string note) table })
channel_deliver-deliveries_example =
    channel_deliver-deliveries tree session table (codes "/news") note session-HasTable

news-IsGrown : IsGrown news (listener ∷ [])
news-IsGrown = (
  record { count = refl; within = omega arith; size = refl; word = omega arith; held = (refl, tt) },
  refl,
)
