-- ===== src/Peer/Request.antt =====
-- From the flush timer to libcurl.
use libbayeux.Prelude.{
  ◌+◌, ◌<◌, ◌^◌, ◌≡◌, ◌≢◌, refl, ap, ◌∙◌, List, [], ◌∷◌, ◌++◌, none, some, length, drop,
  drop-append, All, ◌>>=◌, ==_iff, if◌then◌else◌,
}
use libbayeux.Libc.{CString}
use libbayeux.Str.{Str}
use libbayeux.Str.Growth.{IsText}
use libbayeux.Json.{JsonC, Laws}
use libbayeux.MsgQueue.Entries.{Entry, IsQueue}
use libbayeux.Client.{Client, sent}
use libbayeux.Client.Flush.{on_ev_timeout_flush}
use libbayeux.Client.Flush.Spec.{flushed, outgoing, batch_text}
use libbayeux.Client.Flush.Batch.{on_ev_timeout_flush-sent, flushed_client}
use libbayeux.Transport.{conn_new}
use libbayeux.Transport.Libs.{Curl, Events}
use libbayeux.Transport.LongPolling.{
  Http, c_string, timer_called, transport_http_long_polling_request,
}
use libbayeux.Transport.Bodies.{c_string-Holds}
use libbayeux.Transport.Dispatch.{
  Transport, transport_type_http_long_polling, transport_send, options_of, request_steps,
}
use libbayeux.Peer.{Peer, send_all, flush}

module _ {M K E T J : Type 0} (json : JsonC J) (curl : Curl M K) (ev : Events E T) where
  -- the transport with a request on its way
  abbrev pub requested : Http M E T J → K → M → CString → Http M E T J
  requested http k m text =
      let (timeout, multi) =
        curl.multi_add_handle (curl.easy_setopt m k (options_of curl ev http text)) k in
      timer_called curl ev timeout
        (record http { curl_multi = multi; conns = http.conns ++ (some conn_new ∷ []) })

  -- the peer after a client has sent a request
  abbrev pub after_request : Peer M E T J → Client J T → K → M → CString → Peer M E T J
  after_request peer client k m text = record {
    client = client;
    transport = record peer.transport {
      long_polling = requested peer.transport.long_polling k m text;
    };
  }

  send-requested :
      (t : Transport M E T J) (text : CString) (k : K) (m : M)
      → t.type_tag ≡ transport_type_http_long_polling
      → curl.easy_init t.long_polling.curl_multi ≡ (some k, m)
      → transport_send curl ev t text
        ≡ record t { long_polling = requested t.long_polling k m text }
  unfolding transport_send
  send-requested t text k m polling given =
      ap
        (λ b.
          if b
          then record t {
            long_polling = transport_http_long_polling_request curl ev t.long_polling text;
          }
          else t)
        ((==_iff t.type_tag transport_type_http_long_polling).1 polling)
      ∙ ap (λ (h : Http M E T J). record t { long_polling = h })
          (request_steps curl ev t.long_polling text k m given)

  pub send_one :
      (t t' : Transport M E T J) (body : Str) (text : CString)
      → c_string body.buf ≡ some text
      → transport_send curl ev t text ≡ t'
      → send_all json curl ev t (sent body ∷ []) ≡ some t'
  unfolding send_all
  send_one t t' body text read sent_it = rw (read, ◌>>=◌, sent_it) refl

  pub flush_steps :
      (peer : Peer M E T J) (client : Client J T) (transport : Transport M E T J)
      → on_ev_timeout_flush json peer.client ≡ some client
      → send_all json curl ev peer.transport (drop (length peer.client.effects) client.effects)
        ≡ some transport
      → flush json curl ev peer ≡ some (record { client = client; transport = transport })
  unfolding flush
  flush_steps peer client transport ran handed = rw (ran, ◌>>=◌, handed, ◌>>=◌) refl

  -- A client that sends one request, over a transport that has a handle for it.
  pub flush-requested :
      (peer : Peer M E T J) (client : Client J T) (body : Str) (text : CString) (k : K) (m : M)
      → peer.transport.type_tag ≡ transport_type_http_long_polling
      → curl.easy_init peer.transport.long_polling.curl_multi ≡ (some k, m)
      → on_ev_timeout_flush json peer.client ≡ some client
      → client.effects ≡ peer.client.effects ++ (sent body ∷ [])
      → IsText body text
      → All (λ c. c ≢ 0) text
      → flush json curl ev peer ≡ some (after_request peer client k m text)
  flush-requested peer client body text k m polling given ran effects v plain =
      let t' = record peer.transport {
        long_polling = requested peer.transport.long_polling k m text;
      } in
      let new_effects : drop (length peer.client.effects) client.effects ≡ sent body ∷ [] =
        ap (drop (length peer.client.effects)) effects
        ∙ drop-append peer.client.effects (sent body ∷ []) in
      flush_steps peer client t' ran (
        ap (send_all json curl ev peer.transport) new_effects
        ∙ send_one peer.transport t' body text (c_string-Holds text body.buf v.bytes plain)
            (send-requested peer.transport text k m polling given))

  -- The flush timer of a peer, with the laws of json-c, for a client whose outbox is well formed and
  -- not empty, while no handshake is pending, the batch stays below 2 ^ 32 bytes and has no 0, and
  -- libcurl gives a handle to a long-polling transport: libcurl gets one POST request, to the
  -- transport's address and with its headers, whose body is the array of the messages that were not
  -- in flight; a new, empty buffer waits for the response. If libcurl then calls the timer's callback,
  -- the timer runs for the time of that call. Nothing else of the long polling changes.
  -- The messages stay in the outbox, stamped with their ids.
  pub flush-batch_text :
      Laws json
      → (peer : Peer M E T J) (es : List (Entry J)) (k : K) (m : M) → IsQueue peer.client.outbox es
      → peer.client.handshake_msg_index ≡ none
      → 0 < length es
      → length (
            batch_text
              (outgoing json peer.client.id peer.client.batch_id peer.client.message_id es))
          + 2050
        < 2 ^ 32
      → All
          (λ c. c ≢ 0)
          (batch_text (outgoing json peer.client.id peer.client.batch_id peer.client.message_id es))
      → peer.transport.type_tag ≡ transport_type_http_long_polling
      → curl.easy_init peer.transport.long_polling.curl_multi ≡ (some k, m)
      → (peer' : Peer M E T J) × (flush json curl ev peer ≡ some peer')
        × (peer'.transport.long_polling
            ≡ requested peer.transport.long_polling k m (
                batch_text
                  (outgoing json peer.client.id peer.client.batch_id peer.client.message_id es)))
        × IsQueue peer'.client.outbox
            (flushed json peer.client.id peer.client.batch_id peer.client.message_id es)
  flush-batch_text laws peer es k m q no_handshake some_entry h plain polling given =
      let start = peer.client in
      let text = batch_text (outgoing json start.id start.batch_id start.message_id es) in
      let (body, outbox, ran, v, q') =
        on_ev_timeout_flush-sent json laws start es q no_handshake some_entry h in
      let client = record (flushed_client json start es outbox) {
        effects = start.effects ++ (sent body ∷ []);
      } in
      (
        after_request peer client k m text,
        flush-requested peer client body text k m polling given ran refl v plain,
        refl,
        q',
      )
