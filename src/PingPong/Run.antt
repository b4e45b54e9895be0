-- ===== src/PingPong/Run.antt =====
-- The whole sample, from `main` to the release of its client.
use libbayeux.Prelude.{
  ◌<◌, ◌≡◌, refl, ap, ◌∙◌, subst, List, [], ◌∷◌, ◌++◌, Option, none, some, arith, length, ◌>>=◌,
  Bool, true, false, if◌then◌else◌,
}
use libbayeux.Libc.{CString, codes, str_eq}
use libbayeux.Json.{JsonC, Laws}
use libbayeux.MsgQueue.Entries.{Entry, IsQueue}
use libbayeux.Client.System.Unique.{IsQueue-unique}
use libbayeux.Peer.System.Unique.{AreConns-unique}
use libbayeux.Client.Channels.Table.{Table}
use libbayeux.Client.Channels.Rows.{listeners}
use libbayeux.Client.{Subscription}
use libbayeux.Client.Api.{bayeux_client_opts_defaults, bayeux_client_subscribe}
use libbayeux.Client.System.{Event, handle}
use libbayeux.Client.Channels.Rows.{subscribed}
use libbayeux.Transport.Libs.{Curl, CurlMsg, CurlLaws, Events}
use libbayeux.Transport.Dispatch.{transport_open}
use libbayeux.Transport.Calls.{Bodies, AreConns}
use libbayeux.Transport.Interleave.{AreCalls}
use libbayeux.Peer.{Peer, create_peer, on_client}
use libbayeux.Peer.Close.{Left, bayeux_client_destroy, cleaned, bayeux_client_destroy-total}
use libbayeux.Peer.System.{local, IsPeer, handle_peer}
use libbayeux.Peer.System.Safety.{handle_peer-IsPeer, new_peer, new_peer-IsPeer}
use libbayeux.PingPong.{
  Game, GameEvent, ping_subscription, pong_subscription, endpoint_of, send_ping, handle_game, start,
  dispatch, signal_handler, main,
}
use libbayeux.PingPong.Play.{IsGame, AdmitsGame, send_ping-IsGame, handle_game-IsGame}

module _ {M K E T J : Type 0} (json : JsonC J) (curl : Curl M K) (ev : Events E T)
    (waiting : M → List (CurlMsg K)) where
  subscribe-IsPeer :
      Laws json
      → CurlLaws curl waiting
      → (peer : Peer M E T J) (es : List (Entry J)) (table : Table) (texts : Bodies)
        (channel : CString) (sub : Subscription)
      → IsPeer peer es table texts
      → length (listeners channel table) < 16
      → (peer' : Peer M E T J) × (es' : List (Entry J)) × (texts' : Bodies) × (on_client
            (λ c. bayeux_client_subscribe json ev.timers c channel sub)
            peer
          ≡ some peer')
        × IsPeer peer' es' (subscribed channel sub table) texts'
  unfolding handle_peer handle
  subscribe-IsPeer laws curl_laws peer es table texts channel sub v room =
      let (peer', es', texts', ran, v', _) =
        handle_peer-IsPeer json curl ev waiting laws curl_laws (local (Event.subscribe channel sub))
          peer es table texts v (tt, room) in
      (peer', es', texts', ran, v')

  -- the game before the first message
  abbrev opened : CString → Peer M E T J → Game M E T J
  opened endpoint peer = record {
    peer = peer;
    ev_timer_ping = ev.timers.evtimer_new;
    ev_timer_pong = ev.timers.evtimer_new;
    ping_count = 0;
    pong_count = 0;
    output = (codes "connecting to " ++ (endpoint ++ codes "\n")) ∷ [];
  }

  -- `main` behind the creation, and behind the first subscription
  abbrev behind_second : CString → Peer M E T J → Option (Game M E T J)
  behind_second endpoint p2 = send_ping json curl ev (opened endpoint p2)

  abbrev behind_first : CString → Peer M E T J → Option (Game M E T J)
  behind_first endpoint p1 =
      on_client (λ c. bayeux_client_subscribe json ev.timers c (codes "/pong") pong_subscription) p1
      >>= behind_second endpoint

  start_steps :
      (argv : List CString) (ev_base : E) (p1 p2 : Peer M E T J) (game : Game M E T J)
      → on_client
          (λ c. bayeux_client_subscribe json ev.timers c (codes "/ping") ping_subscription)
          (new_peer json curl ev (endpoint_of argv) bayeux_client_opts_defaults ev_base)
        ≡ some p1
      → on_client
          (λ c. bayeux_client_subscribe json ev.timers c (codes "/pong") pong_subscription)
          p1
        ≡ some p2
      → send_ping json curl ev (opened (endpoint_of argv) p2) ≡ some game
      → start json curl ev argv ev_base ≡ some game
  unfolding start create_peer transport_open
  start_steps argv ev_base p1 p2 game first second pinged =
      ap (λ r. r >>= behind_first (endpoint_of argv)) first
      ∙ ap (λ r. r >>= behind_second (endpoint_of argv)) second
      ∙ pinged

  -- Up to its loop, the sample never faults, whatever its arguments: then its client has the two
  -- subscriptions, and one message has been counted.
  pub start-IsGame :
      Laws json
      → CurlLaws curl waiting
      → (argv : List CString) (ev_base : E)
      → (game : Game M E T J) × (es : List (Entry J)) × (texts : Bodies) × (start json curl ev argv
            ev_base
          ≡ some game)
        × IsGame game es texts
        × (game.ping_count ≡ 1)
  unfolding str_eq
  start-IsGame laws curl_laws argv ev_base =
      let p0 = new_peer json curl ev (endpoint_of argv) bayeux_client_opts_defaults ev_base in
      let (p1, es1, texts1, first, v1) =
        subscribe-IsPeer laws curl_laws p0 [] [] [] (codes "/ping") ping_subscription
          (new_peer-IsPeer json curl ev (endpoint_of argv) bayeux_client_opts_defaults ev_base)
          (omega arith) in
      let (p2, es2, texts2, second, v2) =
        subscribe-IsPeer laws curl_laws p1 es1 ((codes "/ping", ping_subscription ∷ []) ∷ []) texts1
          (codes "/pong") pong_subscription v1 (omega arith) in
      let (game, es, texts, pinged, v, one) =
        send_ping-IsGame json curl ev waiting laws curl_laws (opened (endpoint_of argv) p2) es2
          texts2 v2 (omega arith) (omega arith) in
      (game, es, texts, start_steps argv ev_base p1 p2 game first second pinged, v, one)

  -- the game after an event
  abbrev next_game : Game M E T J → GameEvent J T → Game M E T J
  next_game game event = elim (handle_game json curl ev event game) [
    | none ↦ game
    | some game' ↦ game'
  ]

  -- Each event is admitted when its turn comes, and at the end libcurl's cleanup makes the calls that
  -- it may.
  abbrev pub AreAdmitted : Game M E T J → List (GameEvent J T) → Type 0
  AreAdmitted game [] =
      (texts : Bodies) × AreConns game.peer.transport.long_polling.conns texts
      × AreCalls curl ev (cleaned curl ev game.peer.transport.long_polling) texts
          (curl.multi_cleanup game.peer.transport.long_polling.curl_multi).0
  AreAdmitted game (event ∷ events) =
      (es : List (Entry J)) × (texts : Bodies) × IsQueue game.peer.client.outbox es
      × AreConns game.peer.transport.long_polling.conns texts
      × AdmitsGame json curl ev waiting game es texts event
      × AreAdmitted (next_game game event) events

  -- What a view of the game admits, the view of its invariant does.
  AdmitsGame-unique :
      (event : GameEvent J T) (game : Game M E T J) (es fs : List (Entry J)) (texts texts1 : Bodies)
      → IsQueue game.peer.client.outbox es
      → AreConns game.peer.transport.long_polling.conns texts
      → IsGame game fs texts1
      → AdmitsGame json curl ev waiting game es texts event
      → AdmitsGame json curl ev waiting game fs texts1 event
  AdmitsGame-unique event game es fs texts texts1 q conns v ok =
      let entries : es ≡ fs =
        IsQueue-unique game.peer.client.outbox es fs q v.peer.session.client.queue in
      let bodies : texts ≡ texts1 =
        AreConns-unique game.peer.transport.long_polling.conns texts texts1 conns v.peer.conns in
      subst (λ b. AdmitsGame json curl ev waiting game fs b event) bodies
        (subst (λ l. AdmitsGame json curl ev waiting game l texts event) entries ok)

  dispatch-IsGame :
      Laws json
      → CurlLaws curl waiting
      → (events : List (GameEvent J T)) (game : Game M E T J) (es : List (Entry J)) (texts : Bodies)
      → IsGame game es texts
      → AreAdmitted game events
      → (game' : Game M E T J) × (es' : List (Entry J)) × (texts' : Bodies) × (dispatch json curl ev
            events game
          ≡ some game')
        × IsGame game' es' texts'
        × AreAdmitted game' []
  unfolding dispatch
  dispatch-IsGame laws curl_laws [] game es texts v ok = (game, es, texts, refl, v, ok)
  dispatch-IsGame laws curl_laws (event ∷ events) game es texts v
        (fs, texts1, q, conns, ok, later) =
      let (game1, es1, texts1, ran, v1) =
        handle_game-IsGame json curl ev waiting laws curl_laws event game es texts v
          (AdmitsGame-unique event game fs es texts1 texts q conns v ok) in
      let next_is : next_game game event ≡ game1 =
        ap (λ (r : Option (Game M E T J)). elim r [ none ↦ game | some g ↦ g ]) ran in
      let (game2, es2, texts2, rest, v2, closes) =
        dispatch-IsGame laws curl_laws events game1 es1 texts1 v1
          (subst (λ g. AreAdmitted g events) next_is later) in
      (game2, es2, texts2, ap (λ r. r >>= dispatch json curl ev events) ran ∙ rest, v2, closes)

  -- the end of `main`, behind the loop
  abbrev finish : Bool → Game M E T J → Option (List CString × Option (Left M E T J))
  finish signalled played = do
    let stopped = if signalled then signal_handler played else played
    left ← bayeux_client_destroy curl ev (some stopped.peer)
    some (stopped.output, left)

  -- what has been printed when the loop has ended
  abbrev pub printed : Bool → Game M E T J → List CString
  printed signalled game =
      if signalled then game.output ++ (codes "exiting ..." ∷ []) else game.output

  finish_steps :
      (signalled : Bool) (game : Game M E T J) (left : Left M E T J)
      → bayeux_client_destroy curl ev (some game.peer) ≡ some (some left)
      → finish signalled game ≡ some (printed signalled game, some left)
  unfolding signal_handler
  finish_steps true game left destroyed = rw (destroyed, ◌>>=◌) refl
  finish_steps false game left destroyed = rw (destroyed, ◌>>=◌) refl

  main_steps :
      (argv : List CString) (ev_base : E) (events : List (GameEvent J T)) (signalled : Bool)
      (game game' : Game M E T J) (left : Left M E T J)
      → start json curl ev argv ev_base ≡ some game
      → dispatch json curl ev events game ≡ some game'
      → bayeux_client_destroy curl ev (some game'.peer) ≡ some (some left)
      → main json curl ev argv ev_base events signalled ≡ some (printed signalled game', some left)
  unfolding main signal_handler
  main_steps argv ev_base events signalled game game' left started played destroyed =
      ap (λ r. r >>= λ (g : Game M E T J). dispatch json curl ev events g >>= finish signalled)
        started
      ∙ ap (λ r. r >>= finish signalled) played
      ∙ finish_steps signalled game' left destroyed

  -- The whole sample, for a json-c and a libcurl that keep their laws, any arguments and any events up
  -- to the end of the loop, each as `AreAdmitted` asks when its turn comes (in particular, every body
  -- that arrives is an array of messages, and a handshake that is to be sent is in the outbox):
  -- `main` never faults and releases its client. It has printed what the events print and, if the
  -- signal ended the loop, that it exits.
  pub main-AreAdmitted :
      Laws json
      → CurlLaws curl waiting
      → (argv : List CString) (ev_base : E) (events : List (GameEvent J T)) (signalled : Bool)
        (game : Game M E T J)
      → start json curl ev argv ev_base ≡ some game
      → AreAdmitted game events
      → (played : Game M E T J) × (left : Left M E T J) × (dispatch json curl ev events game
          ≡ some played)
        × (main json curl ev argv ev_base events signalled
            ≡ some (printed signalled played, some left))
  main-AreAdmitted laws curl_laws argv ev_base events signalled game started ok =
      let (first, es, texts, ran, v, _) = start-IsGame laws curl_laws argv ev_base in
      let same : first ≡ game = cc in
      let (game', es', texts', played, v', closes) =
        dispatch-IsGame laws curl_laws events game es texts
          (subst (λ (g : Game M E T J). IsGame g es texts) same v) ok in
      let (texts1, conns, calls) = closes in
      let (left, destroyed) =
        bayeux_client_destroy-total curl ev waiting curl_laws game'.peer texts1 conns calls in
      (
        game',
        left,
        played,
        main_steps argv ev_base events signalled game game' left started played destroyed,
      )
