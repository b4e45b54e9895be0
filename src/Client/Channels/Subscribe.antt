-- ===== src/Client/Channels/Subscribe.antt =====
-- The subscriptions of one channel.
use libbayeux.Prelude.{
  ℕ, ◌+◌, ◌/◌, ◌*◌, ◌^◌, ◌<◌, ◌≤◌, ◌≡◌, ◌≢◌, refl, sym, ap, ◌∙◌, Bool, true, false, List, [], ◌∷◌,
  ◌++◌, none, some, arith, length, set, length-set, length-append, ◌==◌, ==_ne, if◌then◌else◌,
  bit_and_align_16, ◌>>=◌, ℕ_discrete, ==_iff, leb, subst,
}
use libbayeux.Libc.{CString}
use libbayeux.Memory.{realloc}
use libbayeux.Memory.Laws.{
  Holds, length-malloc, length-realloc, Holds-realloc, Holds-set_end, store_inside, store_outside,
}
use libbayeux.Client.{Channel, Subscription}
use libbayeux.Client.Channels.{new_channel, rounded, grow_channel, add_subscription}

-- A channel that holds these subscriptions, oldest first.
pub record IsChannel (channel : Channel) (subs : List Subscription) : Type 0 where
  pub count : channel.count ≡ length subs
  pub within : length subs ≤ channel.capacity
  pub size : length channel.subscriptions ≡ channel.capacity
  pub word : channel.capacity < 2 ^ 31
  pub held : Holds subs channel.subscriptions

pub new_channel-IsChannel : (name : CString) → IsChannel (new_channel name) []
unfolding new_channel
new_channel-IsChannel name = record {
  count = refl;
  within = omega arith;
  size = length-malloc Subscription 4;
  word = omega arith;
  held = tt;
}

rounded-eq : (n : ℕ) → n < 2 ^ 31 → rounded n ≡ (n + 15) / 16 * 16
unfolding rounded
rounded-eq n h = bit_and_align_16 (n + 15) (omega arith)

put_subscription :
    (full channel : Channel) (subs : List Subscription) (sub : Subscription)
    → grow_channel full ≡ channel
    → IsChannel channel subs
    → length subs < channel.capacity
    → (channel' : Channel) × (add_subscription full sub ≡ some channel')
      × IsChannel channel' (subs ++ (sub ∷ []))
      × (channel'.name ≡ channel.name)
      × (channel'.capacity ≡ channel.capacity)
unfolding add_subscription
put_subscription full channel subs sub grown v lt =
    let stored =
      store_inside channel.subscriptions channel.count sub (omega (arith, v.count, v.size)) in
    (
      record channel {
        subscriptions = set channel.subscriptions channel.count (some sub);
        count = channel.count + 1;
      },
      rw (grown, stored, ◌>>=◌) refl,
      record {
        count = omega (arith, v.count, length-append subs (sub ∷ []));
        within = omega (arith, lt, length-append subs (sub ∷ []));
        size = length-set channel.subscriptions channel.count (some sub) ∙ v.size;
        word = v.word;
        held =
            subst (λ n. Holds (subs ++ (sub ∷ [])) (set channel.subscriptions n (some sub)))
              (sym v.count)
              (Holds-set_end subs channel.subscriptions sub v.held (omega (arith, v.size)));
      },
      refl,
      refl,
    )

not_full : (channel : Channel) → channel.count ≢ channel.capacity → grow_channel channel ≡ channel
unfolding grow_channel
not_full channel ne = rw (==_ne channel.count channel.capacity ne)

full_channel :
    (channel : Channel) (capacity : ℕ)
    → channel.count ≡ channel.capacity
    → rounded channel.capacity ≡ capacity
    → grow_channel channel ≡ record channel {
      capacity = capacity;
      subscriptions = realloc channel.subscriptions capacity;
    }
unfolding grow_channel
full_channel channel capacity full size =
    choose (channel.count == channel.capacity) ((==_iff channel.count channel.capacity).1 full)
    ∙ ap (λ n. record channel { capacity = n; subscriptions = realloc channel.subscriptions n })
        size
  where
    grown : Channel
    grown = record channel {
      capacity = rounded channel.capacity;
      subscriptions = realloc channel.subscriptions (rounded channel.capacity);
    }

    choose : (b : Bool) → b ≡ true → (if b then grown else channel) ≡ grown
    choose true e = refl
    choose false e = cc

resized-IsChannel :
    (channel : Channel) (subs : List Subscription) (capacity : ℕ)
    → IsChannel channel subs
    → length subs ≤ capacity
    → capacity < 2 ^ 31
    → IsChannel
        (record channel {
          capacity = capacity;
          subscriptions = realloc channel.subscriptions capacity;
        })
        subs
resized-IsChannel channel subs capacity v le word = record {
  count = v.count;
  within = le;
  size = length-realloc channel.subscriptions capacity;
  word = word;
  held = Holds-realloc subs channel.subscriptions capacity v.held le;
}

-- the capacity of a channel that has taken `n` subscriptions one by one
abbrev pub capacity_for : ℕ → ℕ
capacity_for n = if leb n 4 then 4 else 16

-- A channel as it comes from `channels_subscribe`.
abbrev pub IsGrown : Channel → List Subscription → Type 0
IsGrown channel subs = IsChannel channel subs × (channel.capacity ≡ capacity_for (length subs))

-- While a channel, as it comes from subscriptions one by one, has fewer than sixteen of them, the
-- next one goes behind them.
pub add_subscription-append :
    (channel : Channel) (subs : List Subscription) (sub : Subscription)
    → IsGrown channel subs
    → length subs < 16
    → (channel' : Channel) × (add_subscription channel sub ≡ some channel')
      × IsGrown channel' (subs ++ (sub ∷ []))
      × (channel'.name ≡ channel.name)
add_subscription-append channel subs sub (v, size) lt =
    elim (ℕ_discrete channel.count channel.capacity) [
      | yes full ↦
          let sixteen : rounded channel.capacity ≡ 16 =
            ground (arith, v.count, rounded-eq channel.capacity v.word) in
          let bigger = record channel {
            capacity = 16;
            subscriptions = realloc channel.subscriptions 16;
          } in
          let (c, added, w, name, same) =
            put_subscription channel bigger subs sub (full_channel channel 16 full sixteen)
              (resized-IsChannel channel subs 16 v (omega arith) (omega arith)) lt in
          (c, added, (w, ground (arith, same, v.count, length-append subs (sub ∷ []))), name)
      | no room ↦
          let (c, added, w, name, same) =
            put_subscription channel channel subs sub (not_full channel room) v
              (omega (arith, v.count, v.within)) in
          (
            c,
            added,
            (w, ground (arith, same, v.count, v.within, length-append subs (sub ∷ []))),
            name,
          )
    ]

-- The seventeenth is written behind the end of the block: a capacity of 16 is rounded to itself.
pub add_subscription-overflow :
    (channel : Channel) (subs : List Subscription) (sub : Subscription)
    → IsGrown channel subs
    → length subs ≡ 16
    → add_subscription channel sub ≡ none
unfolding add_subscription
add_subscription-overflow channel subs sub (v, size) sixteen =
    let cap : channel.capacity ≡ 16 = ground arith in
    let same : rounded channel.capacity ≡ 16 = omega (arith, rounded-eq channel.capacity v.word) in
    rw
      (
        full_channel channel 16 (omega (arith, v.count)) same,
        store_outside (realloc channel.subscriptions 16) channel.count sub
            (omega (arith, v.count, length-realloc channel.subscriptions 16)),
      )
      refl
