-- ===== src/Peer/System/Sending.antt =====
-- The flush timer of a peer never faults.
use libbayeux.Prelude.{
  ℕ, ◌≡◌, refl, ap, sym, subst, ◌∙◌, List, [], ◌∷◌, ◌++◌, Option, none, some, length, drop,
  drop-append, Bool-cases, inl, inr, ◌==◌, ◌>>=◌,
}
use libbayeux.Libc.{CString}
use libbayeux.Memory.{Block}
use libbayeux.Memory.Laws.{Holds}
use libbayeux.Json.{JsonC, Laws}
use libbayeux.MsgQueue.Entries.{Entry}
use libbayeux.Client.{sent}
use libbayeux.Client.Channels.Table.{Table}
use libbayeux.Client.Channels.Heard.{Heard}
use libbayeux.Client.System.{FitsFrom}
use libbayeux.Client.System.Flush.{flush-IsSession}
use libbayeux.Transport.Libs.{Curl, Events}
use libbayeux.Transport.LongPolling.{Http, c_string, transport_http_long_polling_request}
use libbayeux.Transport.Dispatch.{
  Transport, transport_type_http_long_polling, transport_send, after_init, added-fields, options_of,
}
use libbayeux.Transport.Calls.{Bodies, AreConns, AreConns-new}
use libbayeux.Peer.{Peer, send_all, flush}
use libbayeux.Peer.Request.{send_one, flush_steps}
use libbayeux.Peer.System.{IsPeer}

-- The text at a pointer is what stands before its first 0.
c_string-total :
    (text : CString) (block : Block ℕ)
    → Holds (text ++ (0 ∷ [])) block
    → (read : CString) × (c_string block ≡ some read)
unfolding c_string
c_string-total [] [] h = absurd h.1
c_string-total [] (b ∷ block) h = ([], rw h.0 refl)
c_string-total (c ∷ text) [] h = absurd h.1
c_string-total (c ∷ text) (b ∷ block) h =
    let (rest, read) = c_string-total text block h.1 in
    elim (Bool-cases (c == 0)) [
      | inl end ↦ ([], rw (h.0, read, ◌>>=◌, end) refl)
      | inr more ↦ (c ∷ rest, rw (h.0, read, ◌>>=◌, more) refl)
    ]

module _ {M K E T J : Type 0} (curl : Curl M K) (ev : Events E T) where
  after_init-AreConns :
      (http : Http M E T J) (msg : CString) (r : Option K × M) (texts : Bodies)
      → AreConns http.conns texts
      → (texts' : Bodies) × AreConns (after_init curl ev http msg r).conns texts'
  after_init-AreConns http msg (none, m) texts v = (texts, v)
  after_init-AreConns http msg (some k, m) texts v =
      let r = curl.multi_add_handle (curl.easy_setopt m k (options_of curl ev http msg)) k in
      (
        texts ++ (some [] ∷ []),
        subst (λ conns. AreConns conns (texts ++ (some [] ∷ [])))
            (sym (added-fields curl ev http r).1) (AreConns-new http.conns texts v),
      )

  transport_send-AreConns :
      (t : Transport M E T J) (msg : CString) (texts : Bodies)
      → AreConns t.long_polling.conns texts
      → (texts' : Bodies) × AreConns (transport_send curl ev t msg).long_polling.conns texts'
  unfolding transport_send transport_http_long_polling_request
  transport_send-AreConns t msg texts v =
      elim (Bool-cases (t.type_tag == transport_type_http_long_polling)) [
        | inl polling ↦ rw polling (
            after_init-AreConns t.long_polling msg (curl.easy_init t.long_polling.curl_multi) texts
              v)
        | inr other ↦ rw other (texts, v)
      ]

module _ {M K E T J : Type 0} (json : JsonC J) (curl : Curl M K) (ev : Events E T) where
  pub flush-IsPeer :
      Laws json
      → (peer : Peer M E T J) (es : List (Entry J)) (table : Table) (texts : Bodies)
      → IsPeer peer es table texts
      → FitsFrom json peer.client.handshake_msg_index peer.client es
      → (peer' : Peer M E T J) × (es' : List (Entry J)) × (texts' : Bodies) × (flush json curl ev
            peer
          ≡ some peer')
        × IsPeer peer' es' table texts'
        × Heard table peer.client peer'.client
  flush-IsPeer laws peer es table texts v fits =
      let (c', es', ran, v', body, text, effects, w) =
        flush-IsSession json laws peer.client es table v.session fits in
      let (msg, read) = c_string-total text body.buf w.bytes in
      let (texts', conns) = transport_send-AreConns curl ev peer.transport msg texts v.conns in
      let t' = transport_send curl ev peer.transport msg in
      let new_effects : drop (length peer.client.effects) c'.effects ≡ sent body ∷ [] =
        ap (drop (length peer.client.effects)) effects
        ∙ drop-append peer.client.effects (sent body ∷ []) in
      (
        record { client = c'; transport = t' },
        es',
        texts',
        flush_steps json curl ev peer c' t' ran (
            ap (send_all json curl ev peer.transport) new_effects
            ∙ send_one json curl ev peer.transport t' body msg read refl),
        record { session = v'; conns = conns },
        (sent body ∷ [], effects, (tt, tt)),
      )
