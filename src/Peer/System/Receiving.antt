-- ===== src/Peer/System/Receiving.antt =====
-- What libcurl does at a ready socket or at its timeout, through to the client.
use libbayeux.Prelude.{ℕ, ◌≡◌, List, none, some, length, ◌>>=◌}
use libbayeux.Json.{JsonC}
use libbayeux.MsgQueue.Entries.{Entry}
use libbayeux.Client.Channels.Table.{Table}
use libbayeux.Client.Channels.Heard.{Heard}
use libbayeux.Transport.Libs.{Curl, CurlMsg, CurlLaws, Events}
use libbayeux.Transport.LongPolling.{Http, on_ev_timer, event_action}
use libbayeux.Transport.Calls.{Bodies}
use libbayeux.Transport.Actions.{texts_left, on_ev_timer-AreConns}
use libbayeux.Peer.{Peer, deliver, socket_ready, timer_expired}
use libbayeux.Peer.Respond.{deliver-IsSession, socket_ready-IsSession}
use libbayeux.Peer.System.{IsPeer, ActsWithin}

module _ {M K E T J : Type 0} (json : JsonC J) (curl : Curl M K) (ev : Events E T) where
  timer_expired_steps :
      (fuel : ℕ) (peer peer' : Peer M E T J) (http : Http M E T J)
      → on_ev_timer curl ev json.tokener_parse fuel peer.transport.long_polling ≡ some http
      → deliver json curl ev (length peer.transport.long_polling.received) peer http ≡ some peer'
      → timer_expired json curl ev fuel peer ≡ some peer'
  unfolding timer_expired
  timer_expired_steps fuel peer peer' http ran delivered = rw (ran, ◌>>=◌) delivered

module _ {M K E T J : Type 0} (json : JsonC J) (curl : Curl M K) (ev : Events E T)
    (waiting : M → List (CurlMsg K)) (laws : CurlLaws curl waiting) where
  pub socket_ready-IsPeer :
      (fuel fd kind : ℕ) (peer : Peer M E T J) (es : List (Entry J)) (table : Table)
      (texts : Bodies)
      → IsPeer peer es table texts
      → ActsWithin json curl ev waiting fuel peer.transport.long_polling texts
          (some fd)
          (event_action kind)
      → (peer' : Peer M E T J) × (es' : List (Entry J)) × (texts' : Bodies) × (socket_ready json
            curl ev fuel fd kind peer
          ≡ some peer')
        × IsPeer peer' es' table texts'
        × Heard table peer.client peer'.client
  socket_ready-IsPeer fuel fd kind peer es table texts v (msgs, bodies, acts, arrays, enough) =
      let (peer', es', ran, _, v', heard, left) =
        socket_ready-IsSession json curl ev waiting laws fuel fd kind peer es table texts msgs
          bodies v.conns acts arrays enough v.session in
      (
        peer',
        es',
        texts_left curl peer.transport.long_polling texts (some fd) (event_action kind) msgs,
        ran,
        record { session = v'; conns = left },
        heard,
      )

  pub timer_expired-IsPeer :
      (fuel : ℕ) (peer : Peer M E T J) (es : List (Entry J)) (table : Table) (texts : Bodies)
      → IsPeer peer es table texts
      → ActsWithin json curl ev waiting fuel peer.transport.long_polling texts none 0
      → (peer' : Peer M E T J) × (es' : List (Entry J)) × (texts' : Bodies) × (timer_expired json
            curl ev fuel peer
          ≡ some peer')
        × IsPeer peer' es' table texts'
        × Heard table peer.client peer'.client
  timer_expired-IsPeer fuel peer es table texts v (msgs, bodies, acts, arrays, enough) =
      let start = peer.transport.long_polling in
      let (http, ran, got, _, conns) =
        on_ev_timer-AreConns curl ev json.tokener_parse waiting laws fuel start texts msgs bodies
          v.conns acts enough in
      let (c', es', delivered, _, v', heard) =
        deliver-IsSession json curl ev peer http bodies es table got v.session arrays in
      (
        record { client = c'; transport = record peer.transport { long_polling = http } },
        es',
        texts_left curl start texts none 0 msgs,
        timer_expired_steps json curl ev fuel peer _ http ran delivered,
        record { session = v'; conns = conns },
        heard,
      )
