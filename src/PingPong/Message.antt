-- ===== src/PingPong/Message.antt =====
-- The messages of the two players.
use libbayeux.Prelude.{
  ℕ, ◌+◌, ◌^◌, ◌<◌, ◌≡◌, refl, subst, true, List, ◌++◌, some, ltb, ◌>>=◌, arith, length,
  length-append, All,
}
use libbayeux.Libc.{CString, codes}
use libbayeux.Libc.Decimal.{
  print_int, snprintf, snprintf_fits, length-print_int, read_digits, read_digits-print_int, IsDigit,
  print_int-IsDigit,
}
use libbayeux.Json.{JsonC}
use libbayeux.MsgQueue.{RecvFunc}
use libbayeux.MsgQueue.Entries.{Entry}
use libbayeux.MsgQueue.Append.{queued}
use libbayeux.Client.{Client}
use libbayeux.Client.Api.{bayeux_client_publish}
use libbayeux.Client.Messages.{make_publish}
use libbayeux.Client.Channels.Table.{Table}
use libbayeux.Client.Invariant.{IsClient}
use libbayeux.Client.Invariant.Calls.{called_with, bayeux_client_publish-IsClient}
use libbayeux.Transport.Libs.{Curl, Events}
use libbayeux.Peer.{Peer, on_client}
use libbayeux.PingPong.{Game, ping_text, pong_text, send_ping}

length-message :
    (key : CString) (n : ℕ) → length key ≡ 9 → length (key ++ (print_int n ++ codes "}")) < 64
length-message key n nine = omega (
  arith,
  length-append key (print_int n ++ codes "}"),
  length-append (print_int n) (codes "}"),
  length-print_int n,
)

-- The message of either player, with any count that an `int` can have, is not cut off by its buffer
-- of 64 bytes; in it are decimal digits, whose value is the count.
pub snprintf-ping_text :
    (n : ℕ)
    → n < 2 ^ 31
    → (digits : CString) × (snprintf 64 (ping_text n)
        ≡ codes "{\"ping\": " ++ (digits ++ codes "}"))
      × (snprintf 64 (pong_text n) ≡ codes "{\"pong\": " ++ (digits ++ codes "}"))
      × (read_digits 0 digits ≡ n)
      × All IsDigit digits
snprintf-ping_text n small = (
  print_int n,
  snprintf_fits 64 (ping_text n) (length-message (codes "{\"ping\": ") n (omega arith)),
  snprintf_fits 64 (pong_text n) (length-message (codes "{\"pong\": ") n (omega arith)),
  read_digits-print_int n small,
  print_int-IsDigit n,
)

module _ {M K E T J : Type 0} (json : JsonC J) (curl : Curl M K) (ev : Events E T) where
  published :
      (peer : Peer M E T J) (channel text : CString) (c' : Client J T)
      → bayeux_client_publish json ev.timers peer.client channel text ≡ some c'
      → on_client (λ c. bayeux_client_publish json ev.timers c channel text) peer
        ≡ some (record peer { client = c' })
  unfolding on_client
  published peer channel text c' ran = rw (ran, ◌>>=◌) refl

  send_ping_steps :
      (game : Game M E T J) (peer : Peer M E T J)
      → game.ping_count + 1 < 2 ^ 31
      → on_client
          (λ c.
            bayeux_client_publish json ev.timers c
              (codes "/ping")
              (snprintf 64 (ping_text game.ping_count)))
          game.peer
        ≡ some peer
      → send_ping json curl ev game
        ≡ some (record game { peer = peer; ping_count = game.ping_count + 1 })
  unfolding send_ping
  send_ping_steps game peer room ran =
      let fits : ltb (game.ping_count + 1) (2 ^ 31) ≡ true = ground arith in
      rw (fits, ◌>>=◌, ran, ◌>>=◌) refl

  -- `send_ping`, for a client with the invariant and a count whose successor is an `int`: it succeeds,
  -- counts one message, and puts one publish message on "/ping" at the end of the outbox, behind the
  -- handshake and the connect message that it may have queued. Its data is `{"ping": `, decimal digits
  -- whose value is the count, and `}`, which the buffer of 64 bytes does not cut off.
  pub send_ping-queued :
      (game : Game M E T J) (es : List (Entry J)) (table : Table)
      → IsClient game.peer.client es table
      → game.ping_count + 1 < 2 ^ 31
      → (game' : Game M E T J) × (digits : CString) × (send_ping json curl ev game ≡ some game')
        × (read_digits 0 digits ≡ game.ping_count)
        × All IsDigit digits
        × (game'.ping_count ≡ game.ping_count + 1)
        × IsClient game'.peer.client
            (called_with json ev.timers game.peer.client es (
              queued
                (make_publish json (codes "/ping") (codes "{\"ping\": " ++ (digits ++ codes "}")))
                RecvFunc.recv_publish))
            table
  send_ping-queued game es table v room =
      let (digits, whole, _, read, are_digits) = snprintf-ping_text game.ping_count (omega arith) in
      let text = snprintf 64 (ping_text game.ping_count) in
      let (c', ran, v') =
        bayeux_client_publish-IsClient json ev.timers game.peer.client es table (codes "/ping") text
          v in
      let peer = record game.peer { client = c' } in
      (
        record game { peer = peer; ping_count = game.ping_count + 1 },
        digits,
        send_ping_steps game peer room (published game.peer (codes "/ping") text c' ran),
        read,
        are_digits,
        refl,
        subst
            (λ t.
              IsClient c'
                (called_with json ev.timers game.peer.client es
                  (queued (make_publish json (codes "/ping") t) RecvFunc.recv_publish))
                table)
            whole v',
      )
