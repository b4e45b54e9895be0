-- ===== src/Client/Channels/Registry.antt =====
-- `channels_subscribe`, against the table of channels.
use libbayeux.Prelude.{
  ℕ, ◌+◌, ◌<◌, ◌≡◌, refl, sym, ap, subst, ◌∙◌, List, [], ◌∷◌, ◌++◌, none, some, arith, length,
  length-append, set, length-set, get_elem?, ◌==◌, ◌>>=◌, Bool-cases, Option-cases, inl, inr,
}
use libbayeux.Libc.{CString}
use libbayeux.Memory.{Block, realloc, load, store}
use libbayeux.Memory.Laws.{
  Holds, Holds-length, load-Holds, store_inside, Holds-set, Holds-set_end, Holds-realloc,
  length-realloc,
}
use libbayeux.Client.{Client, Channel, Subscription}
use libbayeux.Client.Channels.{
  find_channel, new_channel, add_subscription, add_channel, channels_subscribe,
}
use libbayeux.Client.Channels.Subscribe.{IsGrown, new_channel-IsChannel, add_subscription-append}
use libbayeux.Client.Channels.Table.{Table, HasTable}
use libbayeux.Client.Channels.Rows.{
  row_of, listeners, subscribed, find_channel-row_of, found_row, new_row,
}

get_end : (xs : List Channel) (x : Channel) → get_elem? (xs ++ (x ∷ [])) (length xs) ≡ some x
get_end [] x = refl
get_end (y ∷ xs) x = get_end xs x

set_end : (xs : List Channel) (x y : Channel) → set (xs ++ (x ∷ [])) (length xs) y ≡ xs ++ (y ∷ [])
set_end [] x y = refl
set_end (z ∷ xs) x y = ap (λ t. z ∷ t) (set_end xs x y)

fresh-IsGrown : (name : CString) → IsGrown (new_channel name) [] × ((new_channel name).name ≡ name)
unfolding new_channel
fresh-IsGrown name = ((new_channel-IsChannel name, refl), refl)

module _ {J T : Type 0} where
  subscribe_found :
      (c : Client J T) (name : CString) (sub : Subscription) (i : ℕ) (channel channel' : Channel)
      (channels : Block Channel)
      → find_channel c.channels name c.channel_count 0 ≡ some (some i)
      → load c.channels i ≡ some channel
      → add_subscription channel sub ≡ some channel'
      → store c.channels i channel' ≡ some channels
      → channels_subscribe c name sub ≡ some (record c { channels = channels })
  unfolding channels_subscribe
  subscribe_found c name sub i channel channel' channels found read added stored =
      rw (found, ◌>>=◌, read, ◌>>=◌, added, ◌>>=◌, stored, ◌>>=◌) refl

  subscribe_new :
      (c c1 : Client J T) (name : CString) (sub : Subscription) (i : ℕ) (channel channel' : Channel)
      (channels : Block Channel)
      → find_channel c.channels name c.channel_count 0 ≡ some none
      → add_channel c name ≡ some (i, c1)
      → load c1.channels i ≡ some channel
      → add_subscription channel sub ≡ some channel'
      → store c1.channels i channel' ≡ some channels
      → channels_subscribe c name sub ≡ some (record c1 { channels = channels })
  unfolding channels_subscribe
  subscribe_new c c1 name sub i channel channel' channels found made read added stored =
      rw (found, ◌>>=◌, made, ◌>>=◌, read, ◌>>=◌, added, ◌>>=◌, stored, ◌>>=◌) refl

  -- the array with room for another channel
  room_for :
      (c : Client J T) (channels : List Channel)
      → Holds channels c.channels
      → c.channel_count ≡ length channels
      → length c.channels ≡ c.channel_capacity
      → (room : Block Channel) × (capacity : ℕ) × ((name : CString) (stored : Block Channel)
          → store room c.channel_count (new_channel name) ≡ some stored
          → add_channel c name
            ≡ some (
              c.channel_count,
              record c {
                channels = stored;
                channel_capacity = capacity;
                channel_count = c.channel_count + 1;
              },
            ))
        × Holds channels room
        × (length room ≡ capacity)
        × (length channels < capacity)
  unfolding add_channel
  room_for c channels h count size = elim (Bool-cases (c.channel_count == c.channel_capacity)) [
    | inl full ↦ (
      realloc c.channels (c.channel_capacity + 64),
      c.channel_capacity + 64,
      λ name stored e. rw (full, e, ◌>>=◌) refl,
      Holds-realloc channels c.channels (c.channel_capacity + 64) h
          (omega (arith, Holds-length channels c.channels h)),
      length-realloc c.channels (c.channel_capacity + 64),
      omega (arith, Holds-length channels c.channels h),
    )
    | inr free ↦ (
      c.channels,
      c.channel_capacity,
      λ name stored e. rw (free, e, ◌>>=◌) refl,
      h,
      size,
      ground (arith, Holds-length channels c.channels h),
    )
  ]

  -- the client with other channels
  abbrev pub with_channels : Client J T → Block Channel → ℕ → ℕ → Client J T
  with_channels c channels capacity count = record c {
    channels = channels;
    channel_capacity = capacity;
    channel_count = count;
  }

  -- What `channels_subscribe` does to a client with a table.
  abbrev pub Subscribes : Client J T → CString → Subscription → Table → Type 0
  Subscribes c name sub table =
      (channels : Block Channel) × (capacity : ℕ) × (count : ℕ) × (channels_subscribe c name sub
        ≡ some (with_channels c channels capacity count))
      × HasTable (with_channels c channels capacity count) (subscribed name sub table)

  subscribe_row :
      (c : Client J T) (name : CString) (sub : Subscription) (table : Table) (i : ℕ)
      → HasTable c table
      → find_channel c.channels name c.channel_count 0 ≡ some (some i)
      → row_of name table ≡ some i
      → length (listeners name table) < 16
      → Subscribes c name sub table
  subscribe_row c name sub table i v found at room =
      let r = found_row name sub v.channels table i v.rows at in
      let (channel', added, grown, same) =
        add_subscription-append r.channel (listeners name table) sub r.grown room in
      let inside = r.inside in
      let stored =
        store_inside c.channels i channel'
          (omega (arith, Holds-length v.channels c.channels v.held, inside)) in
      (
        set c.channels i (some channel'),
        c.channel_capacity,
        c.channel_count,
        subscribe_found c name sub i r.channel channel' (set c.channels i (some channel')) found
            (load-Holds v.channels c.channels i v.held inside ∙ r.at) added stored,
        record {
          channels = set v.channels i channel';
          held = Holds-set v.channels c.channels i channel' v.held inside;
          count = v.count ∙ sym (length-set v.channels i channel');
          size = length-set c.channels i (some channel') ∙ v.size;
          rows = r.replaced channel' grown same;
        },
      )

  subscribe_first :
      (c : Client J T) (name : CString) (sub : Subscription) (table : Table)
      → HasTable c table
      → find_channel c.channels name c.channel_count 0 ≡ some none
      → row_of name table ≡ none
      → Subscribes c name sub table
  subscribe_first c name sub table v found absent =
      let (room, capacity, made, held, len, free) = room_for c v.channels v.held v.count v.size in
      let n = c.channel_count in
      let fresh = new_channel name in
      let stored = store_inside room n fresh (omega (arith, v.count, len, free)) in
      let made1 = set room n (some fresh) in
      let held1 : Holds (v.channels ++ (fresh ∷ [])) made1 =
        subst (λ k. Holds (v.channels ++ (fresh ∷ [])) (set room k (some fresh))) (sym v.count)
          (Holds-set_end v.channels room fresh held (omega (arith, len, free))) in
      let both = length-append v.channels (fresh ∷ []) in
      let size1 = length-set room n (some fresh) in
      let (channel', added, grown, same) =
        add_subscription-append fresh [] sub (fresh-IsGrown name).0 (omega arith) in
      let stored' = store_inside made1 n channel' (omega (arith, v.count, len, free, size1)) in
      let last : load made1 n ≡ some fresh =
        load-Holds (v.channels ++ (fresh ∷ [])) made1 n held1 (omega (arith, both, v.count))
        ∙ ap (get_elem? (v.channels ++ (fresh ∷ []))) v.count
        ∙ get_end v.channels fresh in
      (
        set made1 n (some channel'),
        capacity,
        n + 1,
        subscribe_new c (with_channels c made1 capacity (n + 1)) name sub n fresh channel'
            (set made1 n (some channel')) found (made name made1 stored) last added stored',
        record {
          channels = v.channels ++ (channel' ∷ []);
          held =
              subst (λ xs. Holds xs (set made1 n (some channel')))
                (ap (λ k. set (v.channels ++ (fresh ∷ [])) k channel') v.count
                  ∙ set_end v.channels fresh channel')
                (Holds-set (v.channels ++ (fresh ∷ [])) made1 n channel' held1
                  (omega (arith, both, v.count)));
          count = omega (arith, v.count, length-append v.channels (channel' ∷ []));
          size = length-set made1 n (some channel') ∙ size1 ∙ len;
          rows =
              new_row name sub v.channels table channel' v.rows absent grown
                (same ∙ (fresh-IsGrown name).1);
        },
      )

  -- With the channels of a table, and fewer than sixteen subscriptions to the name: the subscription
  -- goes behind those of the first channel with the name, or to a new channel behind the others. The
  -- call does not fault, and changes nothing but the channels.
  pub channels_subscribe-subscribed :
      (c : Client J T) (name : CString) (sub : Subscription) (table : Table)
      → HasTable c table
      → length (listeners name table) < 16
      → Subscribes c name sub table
  channels_subscribe-subscribed c name sub table v room =
      let searched : find_channel c.channels name c.channel_count 0 ≡ some (row_of name table) =
        ap (λ n. find_channel c.channels name n 0) v.count
        ∙ find_channel-row_of v.channels table c.channels name v.held v.rows in
      elim (Option-cases (row_of name table)) [
        | inl absent ↦ subscribe_first c name sub table v (searched ∙ ap some absent) absent
        | inr (i, at) ↦ subscribe_row c name sub table i v (searched ∙ ap some at) at room
      ]
