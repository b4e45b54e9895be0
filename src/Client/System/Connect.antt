-- ===== src/Client/System/Connect.antt =====
-- `issue_handshake` and `issue_connect` keep a session.
use libbayeux.Prelude.{◌≡◌, List, ◌++◌, some}
use libbayeux.Json.{JsonC}
use libbayeux.MsgQueue.Entries.{Entry}
use libbayeux.Client.{Client, Timers}
use libbayeux.Client.Connect.{issue_handshake, issue_connect}
use libbayeux.Client.Channels.Table.{Table}
use libbayeux.Client.Invariant.Request.{
  handshake_request, connect_request, issue_handshake-IsClient, connect_once-IsClient,
  issue_connect_steps,
}
use libbayeux.Client.System.Pending.{IsSession}

module _ {J T : Type 0} (json : JsonC J) (ev : Timers T) where
  pub issue_handshake-IsSession :
      (c : Client J T) (es : List (Entry J)) (table : Table)
      → IsSession c es table
      → (c' : Client J T) × (issue_handshake json ev c ≡ some c')
        × IsSession c' (es ++ handshake_request json ev c) table
  issue_handshake-IsSession c es table v =
      let (c1, ran, v1, _, _) = issue_handshake-IsClient json ev c es table v.client in
      (c1, ran, record { client = v1 })

  pub issue_connect-IsSession :
      (c : Client J T) (es : List (Entry J)) (table : Table)
      → IsSession c es table
      → (c' : Client J T) × (es' : List (Entry J)) × (issue_connect json ev c ≡ some c')
        × IsSession c' es' table
  issue_connect-IsSession c es table v =
      let (c1, first, v1) = issue_handshake-IsSession c es table v in
      let (c2, second, v2) =
        connect_once-IsClient json ev c1 (es ++ handshake_request json ev c) table v1.client in
      (
        c2,
        (es ++ handshake_request json ev c)
            ++ connect_request json ev c1.advice.reconnect c1.connect_msg_in_flight,
        issue_connect_steps json ev c c1 c2 first second,
        record { client = v2 },
      )
