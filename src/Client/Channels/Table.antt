-- ===== src/Client/Channels/Table.antt =====
-- The channels of a client as a table.
use libbayeux.Prelude.{◌≡◌, sym, subst, ◌∙◌, List, [], ◌∷◌, length}
use libbayeux.Libc.{CString}
use libbayeux.Memory.Laws.{Holds}
use libbayeux.Client.{Client, Channel, Subscription}
use libbayeux.Client.Channels.Subscribe.{IsGrown}

-- the channels of a client with what they hold, in the order of `channels`
abbrev pub Table : Type 0
Table = List (CString × List Subscription)

abbrev pub AreChannels : List Channel → Table → Type 0
AreChannels [] [] = Unit
AreChannels [] (row ∷ table) = ⊥
AreChannels (channel ∷ channels) [] = ⊥
AreChannels (channel ∷ channels) ((name, subs) ∷ table) =
    (channel.name ≡ name) × IsGrown channel subs × AreChannels channels table

-- The client's channels are those of the table.
pub record HasTable {J T : Type 0} (c : Client J T) (table : Table) : Type 0 where
  pub channels : List Channel
  pub held : Holds channels c.channels
  pub count : c.channel_count ≡ length channels
  pub size : length c.channels ≡ c.channel_capacity
  pub rows : AreChannels channels table

module _ {J T : Type 0} where
  -- It speaks of three fields of the client.
  pub HasTable-same :
      (c d : Client J T) (table : Table)
      → d.channels ≡ c.channels
      → d.channel_count ≡ c.channel_count
      → d.channel_capacity ≡ c.channel_capacity
      → HasTable c table
      → HasTable d table
  HasTable-same c d table same count capacity v = record {
    channels = v.channels;
    held = subst (Holds v.channels) (sym same) v.held;
    count = count ∙ v.count;
    size = subst (λ b. length b ≡ d.channel_capacity) (sym same) (v.size ∙ sym capacity);
    rows = v.rows;
  }
