-- ===== src/Client/System/Pending.antt =====
-- What holds of a client between two events.
use libbayeux.Prelude.{List}
use libbayeux.MsgQueue.Entries.{Entry}
use libbayeux.Client.{Client}
use libbayeux.Client.Channels.Table.{Table}
use libbayeux.Client.Invariant.{IsClient}

pub record IsSession {J T : Type 0} (c : Client J T) (es : List (Entry J)) (table : Table)
    : Type 0 where
  pub client : IsClient c es table
