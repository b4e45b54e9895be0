-- ===== src/PingPong/Callbacks.antt =====
-- The callbacks of the sample.
use libbayeux.Prelude.{◌≡◌, inl, inr, refl, ap, ◌∙◌, List, [], ◌∷◌, Option, some, All, ◌>>=◌}
use libbayeux.Libc.{CString, codes}
use libbayeux.Client.{Effect, called, sent, Subscription}
use libbayeux.Client.Channels.Table.{Table}
use libbayeux.Client.Channels.Heard.{IsRegistered, ComesFrom}
use libbayeux.Transport.Libs.{Events}
use libbayeux.PingPong.{Game, ping_subscription, pong_subscription, ping, pong, call_back, call_all}

-- the two channels, with a subscription each
abbrev pub game_table : Table
game_table = (codes "/ping", ping_subscription ∷ []) ∷ (codes "/pong", pong_subscription ∷ []) ∷ []

module _ {M E T J : Type 0} (ev : Events E T) where
  -- Callbacks of the table run, and leave the client and the counts alone.
  abbrev pub Plays : Game M E T J → Option (Game M E T J) → Type 0
  Plays game result =
      (game' : Game M E T J) × (result ≡ some game')
      × (game'.peer ≡ game.peer)
      × (game'.ping_count ≡ game.ping_count)
      × (game'.pong_count ≡ game.pong_count)

  call_back-Plays :
      (sub : Subscription) (message : CString) (game : Game M E T J)
      → IsRegistered sub game_table
      → Plays game (call_back ev sub.callback message game)
  unfolding call_back ping pong
  call_back-Plays sub message game registered = elim registered [
    | inl first ↦ elim first [
      | inl same ↦ (
        ping ev message game,
        ap (λ (s : Subscription). call_back ev s.callback message game) same,
        refl,
        refl,
        refl,
      )
      | inr absent ↦ absurd absent
    ]
    | inr later ↦ elim later [
      | inl second ↦ elim second [
        | inl same ↦ (
          pong ev message game,
          ap (λ (s : Subscription). call_back ev s.callback message game) same,
          refl,
          refl,
          refl,
        )
        | inr absent ↦ absurd absent
      ]
      | inr absent ↦ absurd absent
    ]
  ]

  pub call_all-Plays :
      (calls : List Effect) (game : Game M E T J)
      → All (ComesFrom game_table) calls
      → Plays game (call_all ev calls game)
  unfolding call_all
  call_all-Plays [] game v = (game, refl, refl, refl, refl)
  call_all-Plays (called sub message ∷ calls) game v =
      let (game1, one, p1, a1, b1) = call_back-Plays sub message game v.0 in
      let (game2, rest, p2, a2, b2) = call_all-Plays calls game1 v.1 in
      (game2, rw (one, ◌>>=◌) rest, p2 ∙ p1, a2 ∙ a1, b2 ∙ b1)
  call_all-Plays (sent body ∷ calls) game v = call_all-Plays calls game v.1
