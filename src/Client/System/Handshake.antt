-- ===== src/Client/System/Handshake.antt =====
-- A handshake from the request to the answer.
use libbayeux.Prelude.{
  ℕ, ◌+◌, ◌<◌, ◌^◌, ◌≡◌, ◌≢◌, refl, ap, ap₂, subst, sym, ◌∙◌, true, false, List, [], ◌∷◌, ◌++◌,
  Option, some, none, length, length-map, length-append, arith, All, inl, inr,
}
use libbayeux.Libc.{CString, codes}
use libbayeux.Memory.Laws.{load-Holds}
use libbayeux.Str.{Str}
use libbayeux.Str.Growth.{IsText}
use libbayeux.Str.Append.{str_alloc-IsText}
use libbayeux.Json.{JsonC}
use libbayeux.Json.Util.{json_get_string, json_get_bool}
use libbayeux.MsgQueue.{RecvFunc}
use libbayeux.MsgQueue.Entries.{Entry, IsQueue, msgs_of, msg_ids_of}
use libbayeux.MsgQueue.Append.{queued}
use libbayeux.Client.{Client, Timers, connecting, sent, reconnect_none}
use libbayeux.Client.Schedule.{schedule_flush}
use libbayeux.Client.Messages.{make_handshake, json_get_msg_id}
use libbayeux.Client.Connect.{handle_advice, is_unconnected, same_reconnect, issue_handshake}
use libbayeux.Client.Flush.{on_ev_timeout_flush}
use libbayeux.Client.Flush.Batch.{flush_timeout_steps}
use libbayeux.Client.Flush.Spec.{batch_text}
use libbayeux.Client.Flush.Single.{sent_message, sent_entry, sent_client, msg_queue_flush_one-sent}
use libbayeux.Client.Receive.{on_msg_recv, call_recv}
use libbayeux.Client.Invariant.Steps.{handshaking, issue_handshake_lem}
use libbayeux.Client.Api.{on_ev_timeout_handshake}
use libbayeux.Client.System.Flush.{encode_one, with_request}
use libbayeux.Client.System.Answer.{
  get_elem?-last, at_index-last, answer_last, Connected, recv_handshake-Connected,
}

module _ {J T : Type 0} (json : JsonC J) (ev : Timers T) where
  -- The flush timer sends the last entry alone, if that is the one noted and it is still queued.
  flush_last :
      (c : Client J T) (es : List (Entry J)) (msg : J) (func : RecvFunc)
      → IsQueue c.outbox (es ++ (queued msg func ∷ []))
      → c.handshake_msg_index ≡ some (length es)
      → length (json.to_json_string (sent_message json c.id c.message_id msg)) + 2052 < 2 ^ 32
      → (t : Str) × (on_ev_timeout_flush json c
          ≡ some (with_request json (sent_client json c (length es) msg) t))
        × IsText t (batch_text (json.to_json_string (sent_message json c.id c.message_id msg) ∷ []))
        × IsQueue (sent_client json c (length es) msg).outbox (
            es
            ++ (sent_entry
                  (sent_message json c.id c.message_id msg)
                  c.batch_id
                  c.message_id
                  (queued msg func)
                ∷ []))
  flush_last c es msg func q noted h =
      let e = queued msg func in
      let all = es ++ (e ∷ []) in
      let g = sent_entry (sent_message json c.id c.message_id msg) c.batch_id c.message_id in
      let (s, allocated, w, _) = str_alloc-IsText 4096 (omega arith) in
      let inside : length es < length all = omega (arith, length-append es (e ∷ [])) in
      let msgs = length-map (λ (x : Entry J). x.msg) all in
      let ids = length-map (λ (x : Entry J). x.msg_id) all in
      let (t, ran, v, q') =
        msg_queue_flush_one-sent json s c all (length es) msg w q inside
          (load-Holds (msgs_of all) c.outbox.msgs (length es) q.msgs (omega (arith, inside, msgs))
            ∙ get_elem?-last (λ (x : Entry J). x.msg) es e)
          (load-Holds (msg_ids_of all) c.outbox.msg_ids (length es) q.msg_ids
              (omega (arith, inside, ids))
            ∙ get_elem?-last (λ (x : Entry J). x.msg_id) es e)
          h in
      (
        t,
        flush_timeout_steps json s t c (sent_client json c (length es) msg) allocated
            (encode_one json c.handshake_msg_index (length es) s c noted ∙ ran),
        v,
        subst (IsQueue (sent_client json c (length es) msg).outbox) (at_index-last g es e) q',
      )

  schedule_flush-fields :
      (c : Client J T)
      → ((schedule_flush ev c).id ≡ c.id)
        × ((schedule_flush ev c).message_id ≡ c.message_id)
        × ((schedule_flush ev c).handshake_msg_index ≡ c.handshake_msg_index)
        × ((schedule_flush ev c).outbox ≡ c.outbox)
  unfolding schedule_flush
  schedule_flush-fields c = (ground arith, ground arith, ground arith, ground arith)

  -- The request and the flush timer.
  request_handshake :
      (c : Client J T) (es : List (Entry J))
      → IsQueue c.outbox es
      → is_unconnected c.state ≡ true
      → same_reconnect c.advice.reconnect reconnect_none ≡ false
      → length (json.to_json_string (sent_message json c.id c.message_id (make_handshake json)))
          + 2052
        < 2 ^ 32
      → (c1 : Client J T) × (c2 : Client J T) × (t : Str) × (e : Entry J) × (issue_handshake json ev
            c
          ≡ some c1)
        × (on_ev_timeout_flush json c1 ≡ some c2)
        × (c2.effects ≡ c1.effects ++ (sent t ∷ []))
        × IsText t (
            batch_text (
              json.to_json_string (sent_message json c.id c.message_id (make_handshake json)) ∷ []))
        × IsQueue c2.outbox (es ++ (e ∷ []))
        × (e.msg_id ≡ c.message_id)
        × (e.func ≡ RecvFunc.recv_handshake)
  request_handshake c es q free allowed h = elim (issue_handshake_lem json ev c es q) [
    | inl (inl busy, _) ↦ let never : true ≡ false = sym free ∙ busy in cc
    | inl (inr forbidden, _) ↦ let never : true ≡ false = sym forbidden ∙ allowed in cc
    | inr (outbox, _, _, ran, q1) ↦
        let sender = record c {
          state = connecting;
          outbox = outbox;
          handshake_msg_index = some (length es);
        } in
        let c1 = handshaking json ev c es outbox in
        let (id, message_id, index, same) = schedule_flush-fields sender in
        let q1' : IsQueue c1.outbox
            (es ++ (queued (make_handshake json) RecvFunc.recv_handshake ∷ [])) =
          subst (λ o. IsQueue o (es ++ (queued (make_handshake json) RecvFunc.recv_handshake ∷ [])))
            (sym same) q1 in
        let message =
          ap₂ (λ i n. json.to_json_string (sent_message json i n (make_handshake json))) id
            message_id in
        let (t, sent_it, v, q2) =
          flush_last c1 es (make_handshake json) RecvFunc.recv_handshake q1' index
            (subst (λ b. length b + 2052 < 2 ^ 32) (sym message) h) in
        (
          c1,
          with_request json (sent_client json c1 (length es) (make_handshake json)) t,
          t,
          sent_entry (sent_message json c1.id c1.message_id (make_handshake json)) c1.batch_id
              c1.message_id (queued (make_handshake json) RecvFunc.recv_handshake),
          ran,
          sent_it,
          refl,
          subst (λ b. IsText t (batch_text (b ∷ []))) message v,
          q2,
          message_id,
          refl,
        )
  ]

  -- A handshake, for a client with a well-formed outbox that is unconnected, may reconnect, and has
  -- no entry with the next message id, while the request stays below 2 ^ 32 bytes: the handshake
  -- timer, the flush timer, and then an answer to that id without data that is successful, for the
  -- channel /meta/handshake and with a client id, leave the client connected under the id that the
  -- server gave, with no handshake noted and the outbox as it was. The one request that is sent
  -- holds the handshake message and nothing else.
  pub on_msg_recv-issue_handshake :
      (c : Client J T) (es : List (Entry J)) (answer : Option J) (client_id : CString)
      → IsQueue c.outbox es
      → is_unconnected c.state ≡ true
      → same_reconnect c.advice.reconnect reconnect_none ≡ false
      → All (λ e. e.msg_id ≢ c.message_id) es
      → length (json.to_json_string (sent_message json c.id c.message_id (make_handshake json)))
          + 2052
        < 2 ^ 32
      → json.object_get answer (codes "data") ≡ none
      → json_get_msg_id json answer ≡ some c.message_id
      → json_get_bool json answer (codes "successful") ≡ some true
      → json_get_string json answer (codes "channel") ≡ some (codes "/meta/handshake")
      → json_get_string json answer (codes "clientId") ≡ some client_id
      → (c1 : Client J T) × (c2 : Client J T) × (c3 : Client J T) × (t : Str)
        × (on_ev_timeout_handshake json ev c ≡ some c1)
        × (on_ev_timeout_flush json c1 ≡ some c2)
        × (c2.effects ≡ c1.effects ++ (sent t ∷ []))
        × IsText t (
            batch_text (
              json.to_json_string (sent_message json c.id c.message_id (make_handshake json)) ∷ []))
        × (on_msg_recv json ev c2 answer ≡ some c3)
        × Connected c3 client_id
        × IsQueue c3.outbox es
  unfolding on_ev_timeout_handshake call_recv
  on_msg_recv-issue_handshake c es answer client_id q free allowed others h no_data got ok channel
        id =
      let (c1, c2, t, e, asked, flushed, effects, v, q2, same, func) =
        request_handshake c es q free allowed h in
      let (outbox, ran, q3) =
        answer_last json ev c2 es e answer q2
          (subst (λ n. All (λ (e' : Entry J). e'.msg_id ≢ n) es) (sym same) others) no_data
          (got ∙ ap (λ (n : ℕ). some n) (sym same)) in
      let heard = handle_advice json ev c2 answer in
      let called : Connected (call_recv json ev e.func heard answer) client_id =
        subst (λ f. Connected (call_recv json ev f heard answer) client_id) (sym func)
          (recv_handshake-Connected json ev heard answer client_id ok channel id) in
      (
        c1,
        c2,
        record (call_recv json ev e.func heard answer) { outbox = outbox },
        t,
        asked,
        flushed,
        effects,
        v,
        ran,
        called,
        q3,
      )
