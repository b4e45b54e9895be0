-- ===== src/Client/Channels.antt =====
-- src/bayeux.c: `channels_subscribe` and `channel_deliver`.
--
-- Each channel is reached through one pointer of `channels` alone, so that an update of the channel
-- is an update of that cell. A callback is recorded as an effect; it does not call the client back
-- while the loop runs.
pub mod Subscribe
pub mod Table
pub mod Capacity
pub mod Deliver
pub mod Heard
pub mod Rows
pub mod Registry
use libbayeux.Prelude.{
  ℕ, zero, suc, ◌+◌, ◌-◌, ◌^◌, bit_and, Bool, List, [], ◌∷◌, ◌++◌, Option, none, some, ◌==◌,
  if◌then◌else◌, ◌>>=◌,
}
use libbayeux.Libc.{CString, str_eq}
use libbayeux.Memory.{Block, malloc, realloc, load, store}
use libbayeux.Json.{JsonC}
use libbayeux.Client.{Client, Channel, Subscription, Effect, called}

-- The search loop with `rounds` rounds left; the inner `none` is a null `channel`.
unfoldable pub find_channel : Block Channel → CString → ℕ → ℕ → Option (Option ℕ)
find_channel channels name zero index = some none
find_channel channels name (suc rounds) index =
    let rest = find_channel channels name rounds (index + 1) in
    load channels index >>= λ channel. if str_eq channel.name name then some (some index) else rest

unfoldable pub new_channel : CString → Channel
new_channel name = record { name = name; subscriptions = malloc 4; capacity = 4; count = 0 }

-- `(capacity + 15) & ~15` on a nonnegative `int`
unfoldable pub rounded : ℕ → ℕ
rounded capacity = bit_and (capacity + 15) (2 ^ 32 - 1 - 15)

unfoldable pub grow_channel : Channel → Channel
unfolding rounded
grow_channel channel =
    if channel.count == channel.capacity
    then record channel {
      capacity = rounded channel.capacity;
      subscriptions = realloc channel.subscriptions (rounded channel.capacity);
    }
    else channel

-- The end of `channels_subscribe`: the subscription goes behind the ones of the channel.
unfoldable pub add_subscription : Channel → Subscription → Option Channel
unfolding grow_channel
add_subscription full sub = do
  let channel = grow_channel full
  subscriptions ← store channel.subscriptions channel.count sub
  some (record channel { subscriptions = subscriptions; count = channel.count + 1 })

module _ {J T : Type 0} where
  -- The middle of `channels_subscribe`: the index of the new channel, and the client.
  unfoldable pub add_channel : Client J T → CString → Option (ℕ × Client J T)
  add_channel client name = do
    let full = client.channel_count == client.channel_capacity
    let capacity = if full then client.channel_capacity + 64 else client.channel_capacity
    let room = if full then realloc client.channels capacity else client.channels
    channels ← store room client.channel_count (new_channel name)
    some (
      client.channel_count,
      record client {
        channels = channels;
        channel_capacity = capacity;
        channel_count = client.channel_count + 1;
      },
    )

  unfoldable pub channels_subscribe : Client J T → CString → Subscription → Option (Client J T)
  channels_subscribe client name sub = do
    found ← find_channel client.channels name client.channel_count 0
    (index, client') ← elim found [
      | some index ↦ some (index, client)
      | none ↦ add_channel client name
    ]
    channel ← load client'.channels index
    channel' ← add_subscription channel sub
    channels ← store client'.channels index channel'
    some (record client' { channels = channels })

-- The inner loop of `channel_deliver`, with `rounds` rounds left: the calls that it makes.
unfoldable pub call_subscriptions : Block Subscription → CString → ℕ → ℕ → Option (List Effect)
call_subscriptions subscriptions text zero index = some []
call_subscriptions subscriptions text (suc rounds) index = do
  sub ← load subscriptions index
  later ← call_subscriptions subscriptions text rounds (index + 1)
  some (called sub text ∷ later)

-- The outer loop.
unfoldable pub deliver_from : Block Channel → CString → CString → ℕ → ℕ → Option (List Effect)
deliver_from channels target text zero index = some []
deliver_from channels target text (suc rounds) index = do
  channel ← load channels index
  let matching = call_subscriptions channel.subscriptions text channel.count 0
  calls ← if str_eq target channel.name then matching else some []
  later ← deliver_from channels target text rounds (index + 1)
  some (calls ++ later)

module _ {J T : Type 0} (json : JsonC J) where
  unfoldable pub channel_deliver : Client J T → CString → J → Option (Client J T)
  channel_deliver client target msg_data = do
    let data_str = json.to_json_string msg_data
    calls ← deliver_from client.channels target data_str client.channel_count 0
    some (record client { effects = client.effects ++ calls })
