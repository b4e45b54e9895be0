-- ===== src/PingPong/Play.antt =====
-- The sample between two events, and what an event does.
use libbayeux.Prelude.{
  ◌+◌, ◌^◌, ◌<◌, ◌≡◌, refl, ap, sym, ◌∙◌, subst, true, List, some, arith, length, drop, drop-append,
  ltb, ◌>>=◌,
}
use libbayeux.Libc.{CString, codes}
use libbayeux.Libc.Decimal.{snprintf}
use libbayeux.Json.{JsonC, Laws}
use libbayeux.MsgQueue.Entries.{Entry}
use libbayeux.Client.{Effect}
use libbayeux.Client.Channels.Table.{Table}
use libbayeux.Client.Api.{bayeux_client_publish}
use libbayeux.Client.System.{Event, handle}
use libbayeux.Transport.Libs.{Curl, CurlMsg, CurlLaws, Events}
use libbayeux.Transport.Calls.{Bodies}
use libbayeux.Peer.{Peer, on_client}
use libbayeux.Peer.System.{
  PeerEvent, local, flush_due, socket_due, timeout_due, timer_elapsed, IsPeer, AdmitsPeer,
  handle_peer,
}
use libbayeux.Peer.System.Safety.{handle_peer-IsPeer, peer_table}
use libbayeux.PingPong.{
  Game, GameEvent, peer_due, ping_due, pong_due, game_elapsed, ping_text, pong_text, send_ping,
  send_pong, call_all, handle_game, on_timeout_send_ping, on_timeout_send_pong,
}
use libbayeux.PingPong.Callbacks.{game_table, call_all-Plays}

pub record IsGame {M E T J : Type 0} (game : Game M E T J) (es : List (Entry J)) (texts : Bodies)
    : Type 0 where
  pub peer : IsPeer game.peer es game_table texts
  pub ping_int : game.ping_count < 2 ^ 31
  pub pong_int : game.pong_count < 2 ^ 31

-- an event that is no call of the application, which only `main` and the two timers make
abbrev pub IsOwn : {J T : Type 0} → PeerEvent J T → Type 0
IsOwn (local (Event.publish channel text)) = ⊥
IsOwn (local (Event.subscribe channel sub)) = ⊥
IsOwn (local (Event.unsubscribe channel sub)) = ⊥
IsOwn (local Event.connect_timer) = Unit
IsOwn (local Event.handshake_timer) = Unit
IsOwn (local Event.flush_timer) = Unit
IsOwn (local (Event.batch msgs)) = Unit
IsOwn (local (Event.elapsed connect flush handshake)) = Unit
IsOwn flush_due = Unit
IsOwn (socket_due fuel fd kind) = Unit
IsOwn (timeout_due fuel) = Unit
IsOwn (timer_elapsed timer) = Unit

IsOwn-peer_table :
    {J T : Type 0} (event : PeerEvent J T) (table : Table)
    → IsOwn event
    → peer_table event table ≡ table
IsOwn-peer_table (local (Event.publish channel text)) table own = absurd own
IsOwn-peer_table (local (Event.subscribe channel sub)) table own = absurd own
IsOwn-peer_table (local (Event.unsubscribe channel sub)) table own = absurd own
IsOwn-peer_table (local Event.connect_timer) table own = refl
IsOwn-peer_table (local Event.handshake_timer) table own = refl
IsOwn-peer_table (local Event.flush_timer) table own = refl
IsOwn-peer_table (local (Event.batch msgs)) table own = refl
IsOwn-peer_table (local (Event.elapsed connect flush handshake)) table own = refl
IsOwn-peer_table flush_due table own = refl
IsOwn-peer_table (socket_due fuel fd kind) table own = refl
IsOwn-peer_table (timeout_due fuel) table own = refl
IsOwn-peer_table (timer_elapsed timer) table own = refl

module _ {M K E T J : Type 0} (json : JsonC J) (curl : Curl M K) (ev : Events E T)
    (waiting : M → List (CurlMsg K)) where
  -- What is asked of an event.
  abbrev pub AdmitsGame : Game M E T J → List (Entry J) → Bodies → GameEvent J T → Type 0
  AdmitsGame game es texts (peer_due event) =
      IsOwn event × AdmitsPeer json curl ev waiting game.peer es game_table texts event
  AdmitsGame game es texts ping_due = game.ping_count + 1 < 2 ^ 31
  AdmitsGame game es texts pong_due = game.pong_count + 1 < 2 ^ 31
  AdmitsGame game es texts (game_elapsed ping_timer pong_timer) = Unit

  publish-IsPeer :
      Laws json
      → CurlLaws curl waiting
      → (peer : Peer M E T J) (es : List (Entry J)) (texts : Bodies) (channel text : CString)
      → IsPeer peer es game_table texts
      → (peer' : Peer M E T J) × (es' : List (Entry J)) × (texts' : Bodies) × (on_client
            (λ c. bayeux_client_publish json ev.timers c channel text)
            peer
          ≡ some peer')
        × IsPeer peer' es' game_table texts'
  unfolding handle_peer handle
  publish-IsPeer laws curl_laws peer es texts channel text v =
      let (peer', es', texts', ran, v', _) =
        handle_peer-IsPeer json curl ev waiting laws curl_laws (local (Event.publish channel text))
          peer es game_table texts v (tt, tt) in
      (peer', es', texts', ran, v')

  pub send_ping-IsGame :
      Laws json
      → CurlLaws curl waiting
      → (game : Game M E T J) (es : List (Entry J)) (texts : Bodies)
      → IsPeer game.peer es game_table texts
      → game.pong_count < 2 ^ 31
      → game.ping_count + 1 < 2 ^ 31
      → (game' : Game M E T J) × (es' : List (Entry J)) × (texts' : Bodies) × (send_ping json curl
            ev game
          ≡ some game')
        × IsGame game' es' texts'
        × (game'.ping_count ≡ game.ping_count + 1)
  unfolding send_ping
  send_ping-IsGame laws curl_laws game es texts v pong_int room =
      let (peer', es', texts', ran, v') =
        publish-IsPeer laws curl_laws game.peer es texts (codes "/ping")
          (snprintf 64 (ping_text game.ping_count)) v in
      let fits : ltb (game.ping_count + 1) (2 ^ 31) ≡ true = ground arith in
      (
        record game { peer = peer'; ping_count = game.ping_count + 1 },
        es',
        texts',
        rw (fits, ◌>>=◌, ran, ◌>>=◌) refl,
        record { peer = v'; ping_int = room; pong_int = pong_int },
        refl,
      )

  pub send_pong-IsGame :
      Laws json
      → CurlLaws curl waiting
      → (game : Game M E T J) (es : List (Entry J)) (texts : Bodies) → IsGame game es texts
      → game.pong_count + 1 < 2 ^ 31
      → (game' : Game M E T J) × (es' : List (Entry J)) × (texts' : Bodies) × (send_pong json curl
            ev game
          ≡ some game')
        × IsGame game' es' texts'
  unfolding send_pong
  send_pong-IsGame laws curl_laws game es texts v room =
      let (peer', es', texts', ran, v') =
        publish-IsPeer laws curl_laws game.peer es texts (codes "/pong")
          (snprintf 64 (pong_text game.pong_count)) v.peer in
      let fits : ltb (game.pong_count + 1) (2 ^ 31) ≡ true = ground arith in
      (
        record game { peer = peer'; pong_count = game.pong_count + 1 },
        es',
        texts',
        rw (fits, ◌>>=◌, ran, ◌>>=◌) refl,
        record { peer = v'; ping_int = v.ping_int; pong_int = room },
      )

  peer_due_steps :
      (event : PeerEvent J T) (game game' : Game M E T J) (peer : Peer M E T J)
      (calls : List Effect)
      → handle_peer json curl ev event game.peer ≡ some peer
      → drop (length game.peer.client.effects) peer.client.effects ≡ calls
      → call_all ev calls (record game { peer = peer }) ≡ some game'
      → handle_game json curl ev (peer_due event) game ≡ some game'
  unfolding handle_game
  peer_due_steps event game game' peer calls ran heard played = rw (ran, ◌>>=◌, heard) played

  -- One event of the sample, whose client has the two subscriptions of `main` and whose counts are
  -- `int`s, for a json-c and a libcurl that keep their laws: one of the two timers, one of the client
  -- or the transport, a ready socket or time that passes is handled without a fault, if it is as
  -- `AdmitsGame` says (for a ready socket, that the bodies are arrays; for the flush timer, that a
  -- handshake which is to be sent is in the outbox). Each callback that the client calls is a function of the sample, and the client
  -- still has the two subscriptions.
  pub handle_game-IsGame :
      Laws json
      → CurlLaws curl waiting
      → (event : GameEvent J T) (game : Game M E T J) (es : List (Entry J)) (texts : Bodies)
      → IsGame game es texts
      → AdmitsGame game es texts event
      → (game' : Game M E T J) × (es' : List (Entry J)) × (texts' : Bodies) × (handle_game json curl
            ev event game
          ≡ some game')
        × IsGame game' es' texts'
  unfolding handle_game on_timeout_send_ping on_timeout_send_pong
  handle_game-IsGame laws curl_laws (peer_due event) game es texts v (own, ok) =
      let (peer', es', texts', ran, v', (calls, effects, registered)) =
        handle_peer-IsPeer json curl ev waiting laws curl_laws event game.peer es game_table texts
          v.peer ok in
      let (game', played, same, pings, pongs) =
        call_all-Plays ev calls (record game { peer = peer' }) registered in
      let heard : drop (length game.peer.client.effects) peer'.client.effects ≡ calls =
        ap (drop (length game.peer.client.effects)) effects
        ∙ drop-append game.peer.client.effects calls in
      let kept : IsPeer peer' es' game_table texts' =
        subst (λ t. IsPeer peer' es' t texts') (IsOwn-peer_table event game_table own) v' in
      (
        game',
        es',
        texts',
        peer_due_steps event game game' peer' calls ran heard played,
        record {
          peer = subst (λ (p : Peer M E T J). IsPeer p es' game_table texts') (sym same) kept;
          ping_int = omega (arith, pings, v.ping_int);
          pong_int = omega (arith, pongs, v.pong_int);
        },
      )
  handle_game-IsGame laws curl_laws ping_due game es texts v room =
      let (game', es', texts', ran, v', _) =
        send_ping-IsGame laws curl_laws game es texts v.peer v.pong_int room in
      (game', es', texts', ran, v')
  handle_game-IsGame laws curl_laws pong_due game es texts v room =
      send_pong-IsGame laws curl_laws game es texts v room
  handle_game-IsGame laws curl_laws (game_elapsed ping_timer pong_timer) game es texts v ok = (
    record game { ev_timer_ping = ping_timer; ev_timer_pong = pong_timer },
    es,
    texts,
    refl,
    record { peer = v.peer; ping_int = v.ping_int; pong_int = v.pong_int },
  )
