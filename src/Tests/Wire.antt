-- ===== src/Tests/Wire.antt =====
-- A peer on the wire: a request of two messages.
use libbayeux.Prelude.{
  ℕ, ◌≡◌, ◌≢◌, refl, true, false, Bool, [], ◌∷◌, Option, none, some, arith, All, ◌==◌,
  if◌then◌else◌, Bool-cases, inl, inr,
}
use libbayeux.Prelude.Int.{pos}
use libbayeux.Libc.{CString, codes, print_hex, hex_digits, str_eq, hex_digit}
use libbayeux.Json.Table.{Json, print, tree, tree-Laws}
use libbayeux.Json.Util.{json_set_string}
use libbayeux.MsgQueue.Entries.{IsQueue}
use libbayeux.Client.{Timeval}
use libbayeux.Client.Schedule.{bump}
use libbayeux.Client.Flush.{set_client_id}
use libbayeux.Client.Flush.Spec.{outgoing, batch_text, flushed}
use libbayeux.Transport.Libs.{Curl}
use libbayeux.Transport.LongPolling.{Http}
use libbayeux.Transport.Dispatch.{Transport, transport_type_http_long_polling}
use libbayeux.Peer.{Peer, flush}
use libbayeux.Peer.Request.{requested, flush-batch_text}
use libbayeux.Tests.Base.{session, entries, outbox-IsQueue}
use libbayeux.Tests.Session.{size}
use libbayeux.Tests.Libs.{Multi, Base, curl_with, events}

-- whether a text has no 0
abbrev no_zeros : CString → Bool
no_zeros [] = true
no_zeros (c ∷ text) = if c == 0 then false else no_zeros text

plain_text : (text : CString) → no_zeros text ≡ true → All (λ c. c ≢ 0) text
plain_text [] e = tt
plain_text (c ∷ text) e = elim (Bool-cases (c == 0)) [
  | inl zero_byte ↦ absurd (cc)
  | inr other ↦ ((λ z. ground arith), plain_text text cc)
]

abbrev pub multi : Multi
multi = record { messages = []; socket_data = λ s. none }

abbrev pub base : Base
base = record { next = 0; made = λ q. none; added = λ q. none }

abbrev pub idle : Http Multi Base (Option Timeval) Json
idle = record {
  curl_multi = multi;
  http_headers = codes "Content-Type: application/json" ∷ [];
  ev_base = base;
  ev_timer = none;
  active_conn_count = pos 0;
  url = codes "/";
  conns = [];
  sockets = [];
  received = [];
}

abbrev pub polling : Transport Multi Base (Option Timeval) Json
polling = record { type_tag = transport_type_http_long_polling; long_polling = idle }

abbrev pub peer : Peer Multi Base (Option Timeval) Json
peer = record { client = session; transport = polling }

abbrev quiet : Curl Multi ℕ
quiet = curl_with [] []

two_plain : no_zeros (batch_text (outgoing tree (some (codes "c1")) 4 7 entries)) ≡ true
unfolding outgoing print set_client_id json_set_string print_hex hex_digits str_eq bump hex_digit
two_plain = refl

flush-batch_text_example :
    (peer' : Peer Multi Base (Option Timeval) Json) × (flush tree quiet events peer ≡ some peer')
    × (peer'.transport.long_polling
        ≡ requested tree quiet events idle 0 multi
            (batch_text (outgoing tree (some (codes "c1")) 4 7 entries)))
    × IsQueue peer'.client.outbox (flushed tree (some (codes "c1")) 4 7 entries)
flush-batch_text_example =
    flush-batch_text tree quiet events tree-Laws peer entries 0 multi outbox-IsQueue refl
      (omega arith) (omega (arith, size))
      (plain_text (batch_text (outgoing tree (some (codes "c1")) 4 7 entries)) two_plain) refl refl
