-- ===== src/Tests/Advice.antt =====
-- The advice to repeat the handshake.
use libbayeux.Prelude.{◌≡◌, refl, true, false, Option, some, ◌⊎◌}
use libbayeux.Libc.{codes}
use libbayeux.Json.Table.{Json, object, field, end, text, tree}
use libbayeux.Client.{Advice, Timeval, TimerLaws, reconnect_handshake, unconnected}
use libbayeux.Client.Connect.{same_reconnect, handle_advice}
use libbayeux.Client.Connect.Handled.{new_advice, handle_advice-new_advice}
use libbayeux.Tests.Base.{clock, session}

clock-TimerLaws : TimerLaws clock
clock-TimerLaws = record { pending-new = refl; pending-add = λ t tv. refl }

abbrev advising : Json
advising =
    object (
      field (codes "advice") (object (field (codes "reconnect") (text (codes "handshake")) end))
        end)

abbrev advice : Advice
advice = new_advice tree (tree.object_get (some advising) (codes "advice")) session.advice

handle_advice-new_advice_example :
    ((timer : Option Timeval) × (same_reconnect advice.reconnect reconnect_handshake ≡ true)
      × (handle_advice tree clock session (some advising)
          ≡ record session { advice = advice; state = unconnected; ev_timeout_connect = timer })
      × (clock.evtimer_pending timer ≡ true))
    ⊎ ((same_reconnect advice.reconnect reconnect_handshake ≡ false)
        × (handle_advice tree clock session (some advising) ≡ record session { advice = advice }))
handle_advice-new_advice_example =
    handle_advice-new_advice tree clock clock-TimerLaws session (some advising)
