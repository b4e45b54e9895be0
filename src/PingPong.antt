-- ===== src/PingPong.antt =====
-- src/samples/pingpong/pingpong.c: two players in one process, who publish on each other's channel
-- through a client.
--
-- `s_ev_base` is the base of the client. A pointer to a function is a number. What the program prints
-- is listed in `output`. The counts are `int`s, whose overflow is undefined.
pub mod Message
pub mod Callbacks
pub mod Play
pub mod Run
use libbayeux.Prelude.{
  ℕ, Bool, ◌+◌, ◌^◌, List, [], ◌∷◌, ◌++◌, Option, none, some, length, drop, ltb, ◌==◌,
  if◌then◌else◌, ◌>>=◌,
}
use libbayeux.Prelude.Int.{pos}
use libbayeux.Libc.{CString, codes}
use libbayeux.Libc.Decimal.{print_int, snprintf}
use libbayeux.Json.{JsonC}
use libbayeux.Client.{Subscription, Effect, called, sent}
use libbayeux.Client.Api.{
  bayeux_client_opts_defaults, bayeux_client_publish, bayeux_client_subscribe,
}
use libbayeux.Transport.Libs.{Curl, Events}
use libbayeux.Peer.{Peer, create_peer, on_client}
use libbayeux.Peer.Close.{Left, bayeux_client_destroy}
use libbayeux.Peer.System.{PeerEvent, handle_peer}

pub record Game (M E T J : Type 0) : Type 0 where
  pub peer : Peer M E T J
  pub ev_timer_ping : T
  pub ev_timer_pong : T
  pub ping_count : ℕ
  pub pong_count : ℕ
  pub output : List CString

-- `&ping` and `&pong`
abbrev pub ping_callback : ℕ
ping_callback = 0

abbrev pub pong_callback : ℕ
pong_callback = 1

-- with the client as their context
abbrev pub ping_subscription : Subscription
ping_subscription = record { callback = ping_callback; context = 0 }

abbrev pub pong_subscription : Subscription
pong_subscription = record { callback = pong_callback; context = 0 }

-- `++` of an `int`
abbrev pub next_count : ℕ → Option ℕ
next_count n = if ltb (n + 1) (2 ^ 31) then some (n + 1) else none

abbrev pub ping_text : ℕ → CString
ping_text n = codes "{\"ping\": " ++ (print_int n ++ codes "}")

abbrev pub pong_text : ℕ → CString
pong_text n = codes "{\"pong\": " ++ (print_int n ++ codes "}")

-- the line that a callback prints
abbrev pub heard_line : CString → CString → CString
heard_line channel message = channel ++ (codes ": " ++ (message ++ codes "\n"))

module _ {M K E T J : Type 0} (json : JsonC J) (curl : Curl M K) (ev : Events E T) where
  unfoldable pub send_ping : Game M E T J → Option (Game M E T J)
  unfolding snprintf print_int on_client
  send_ping game = do
    let msg = snprintf 64 (ping_text game.ping_count)
    count ← next_count game.ping_count
    peer ← on_client (λ c. bayeux_client_publish json ev.timers c (codes "/ping") msg) game.peer
    some (record game { peer = peer; ping_count = count })

  unfoldable pub send_pong : Game M E T J → Option (Game M E T J)
  unfolding snprintf print_int on_client
  send_pong game = do
    let msg = snprintf 64 (pong_text game.pong_count)
    count ← next_count game.pong_count
    peer ← on_client (λ c. bayeux_client_publish json ev.timers c (codes "/pong") msg) game.peer
    some (record game { peer = peer; pong_count = count })

  unfoldable pub on_timeout_send_ping : Game M E T J → Option (Game M E T J)
  unfolding send_ping
  on_timeout_send_ping game = send_ping game

  unfoldable pub on_timeout_send_pong : Game M E T J → Option (Game M E T J)
  unfolding send_pong
  on_timeout_send_pong game = send_pong game

module _ {M E T J : Type 0} (ev : Events E T) where
  -- The answer is sent a second later.
  unfoldable pub ping : CString → Game M E T J → Game M E T J
  ping message game = record game {
    output = game.output ++ (heard_line (codes "/ping") message ∷ []);
    ev_timer_pong = ev.timers.evtimer_add game.ev_timer_pong (record { sec = pos 1; usec = pos 0 });
  }

  unfoldable pub pong : CString → Game M E T J → Game M E T J
  pong message game = record game {
    output = game.output ++ (heard_line (codes "/pong") message ∷ []);
    ev_timer_ping = ev.timers.evtimer_add game.ev_timer_ping (record { sec = pos 1; usec = pos 0 });
  }

  -- The call of a function by its pointer: that of another pointer is undefined.
  unfoldable pub call_back : ℕ → CString → Game M E T J → Option (Game M E T J)
  call_back callback message game =
      if callback == ping_callback
      then some (ping message game)
      else if callback == pong_callback
      then some (pong message game)
      else none

  -- The callbacks that the client calls, in their order.
  unfoldable pub call_all : List Effect → Game M E T J → Option (Game M E T J)
  unfolding call_back
  call_all [] game = some game
  call_all (called sub message ∷ effects) game = do
    game' ← call_back sub.callback message game
    call_all effects game'
  call_all (sent body ∷ effects) game = call_all effects game

-- What libevent finds due. `game_elapsed` is time that passes for the two timers.
pub data GameEvent (J T : Type 0) : Type 0 where
  peer_due : PeerEvent J T → GameEvent J T
  ping_due : GameEvent J T
  pong_due : GameEvent J T
  game_elapsed : T → T → GameEvent J T

-- `argv`, from the name of the program on
abbrev pub endpoint_of : List CString → CString
endpoint_of (name ∷ endpoint ∷ args) = endpoint
endpoint_of _ = codes "http://localhost:5000/faye"

module _ {M E T J : Type 0} where
  unfoldable pub signal_handler : Game M E T J → Game M E T J
  signal_handler game = record game { output = game.output ++ (codes "exiting ..." ∷ []) }

module _ {M K E T J : Type 0} (json : JsonC J) (curl : Curl M K) (ev : Events E T) where
  unfoldable pub handle_game : GameEvent J T → Game M E T J → Option (Game M E T J)
  unfolding handle_peer on_timeout_send_ping on_timeout_send_pong call_all
  handle_game (peer_due event) game = do
    peer ← handle_peer json curl ev event game.peer
    call_all ev (drop (length game.peer.client.effects) peer.client.effects)
        (record game { peer = peer })
  handle_game ping_due game = on_timeout_send_ping json curl ev game
  handle_game pong_due game = on_timeout_send_pong json curl ev game
  handle_game (game_elapsed ping_timer pong_timer) game =
      some (record game { ev_timer_ping = ping_timer; ev_timer_pong = pong_timer })

  -- `main` up to the loop.
  unfoldable pub start : List CString → E → Option (Game M E T J)
  unfolding create_peer on_client send_ping
  start argv ev_base = do
    let endpoint = endpoint_of argv
    created ← create_peer json curl ev endpoint bayeux_client_opts_defaults ev_base
    one ←
        on_client (λ c. bayeux_client_subscribe json ev.timers c (codes "/ping") ping_subscription)
          created
    two ←
        on_client (λ c. bayeux_client_subscribe json ev.timers c (codes "/pong") pong_subscription)
          one
    send_ping json curl ev (record {
      peer = two;
      ev_timer_ping = ev.timers.evtimer_new;
      ev_timer_pong = ev.timers.evtimer_new;
      ping_count = 0;
      pong_count = 0;
      output = (codes "connecting to " ++ (endpoint ++ codes "\n")) ∷ [];
    })

  -- `event_base_dispatch`, with the events up to its end.
  unfoldable pub dispatch : List (GameEvent J T) → Game M E T J → Option (Game M E T J)
  unfolding handle_game
  dispatch [] game = some game
  dispatch (event ∷ events) game = do game' ← handle_game event game; dispatch events game'

  -- What is printed, and what is left of the client. `event_base_dispatch` ends by the signal, or
  -- without it, when no event is left.
  unfoldable pub main :
      List CString → E → List (GameEvent J T) → Bool → Option (List CString × Option (Left M E T J))
  unfolding start dispatch signal_handler bayeux_client_destroy
  main argv ev_base events signalled = do
    started ← start argv ev_base
    played ← dispatch events started
    let stopped = if signalled then signal_handler played else played
    left ← bayeux_client_destroy curl ev (some stopped.peer)
    some (stopped.output, left)
