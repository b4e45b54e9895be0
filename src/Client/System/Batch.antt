-- ===== src/Client/System/Batch.antt =====
-- A batch keeps a session, and calls registered callbacks only.
use libbayeux.Prelude.{◌≡◌, List, Option, some}
use libbayeux.Json.{JsonC, IsArray}
use libbayeux.MsgQueue.Entries.{Entry}
use libbayeux.Client.{Client, Timers}
use libbayeux.Client.Receive.{on_batch_recv}
use libbayeux.Client.Channels.Table.{Table}
use libbayeux.Client.Channels.Heard.{Heard}
use libbayeux.Client.Invariant.Batch.{on_batch_recv-Keeps}
use libbayeux.Client.System.Pending.{IsSession}

module _ {J T : Type 0} (json : JsonC J) (ev : Timers T) where
  -- A batch that is an array, whatever its messages hold, for a client between two events:
  -- `on_batch_recv` handles all of it without a fault, the client is between two events again, with
  -- the same table of channels, and only callbacks that are registered in the table were called.
  pub on_batch_recv-IsSession :
      (c : Client J T) (msgs : Option J) (es : List (Entry J)) (table : Table)
      → IsSession c es table
      → IsArray json msgs
      → (c' : Client J T) × (es' : List (Entry J)) × (on_batch_recv json ev c msgs ≡ some c')
        × IsSession c' es' table
        × Heard table c c'
  on_batch_recv-IsSession c msgs es table v is_array =
      let (c', es', ran, v', heard) =
        on_batch_recv-Keeps json ev c msgs es table v.client is_array in
      (c', es', ran, record { client = v' }, heard)
