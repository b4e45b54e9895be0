-- ===== src/Client/Invariant/Flushing.antt =====
-- `on_ev_timeout_flush` and the invariant.
use libbayeux.Prelude.{
  ℕ, ◌+◌, ◌<◌, ◌^◌, ◌≡◌, refl, ap, ◌∙◌, List, [], ◌∷◌, ◌++◌, Option, none, some, arith, length,
  ◌==◌, ==_iff, Bool-cases, inl, inr,
}
use libbayeux.Libc.{CString}
use libbayeux.Str.{Str}
use libbayeux.Str.Growth.{IsText}
use libbayeux.Str.Append.{str_alloc-IsText}
use libbayeux.Json.{JsonC, Laws}
use libbayeux.MsgQueue.{MsgQueue, msg_id_invalid}
use libbayeux.MsgQueue.Entries.{Entry, IsQueue}
use libbayeux.Client.{Client, sent}
use libbayeux.Client.Schedule.{bump}
use libbayeux.Client.Ids.{IsId, bump-eq-mod}
use libbayeux.Client.Flush.{msg_queue_flush, on_ev_timeout_flush}
use libbayeux.Client.Flush.Spec.{
  flushed, outgoing, next_after, batch_text, spec_queued, spec_in_flight,
}
use libbayeux.Client.Flush.Batch.{
  flushed_client, on_ev_timeout_flush-sent, flush_timeout_steps, encode_all,
}
use libbayeux.Client.Channels.Table.{Table, HasTable-same}
use libbayeux.Client.Invariant.{IsClient, connects, count_connects}
use libbayeux.Client.Invariant.Steps.{SameCore-IsClient}

pub bump-IsId : (id : ℕ) → IsId id → IsId (bump msg_id_invalid id)
bump-IsId id h = omega (arith, bump-eq-mod id h)

module _ {J : Type 0} (json : JsonC J) (client_id : Option CString) (batch : ℕ) where
  count_connects-flushed :
      (next : ℕ) (es : List (Entry J))
      → count_connects (flushed json client_id batch next es) ≡ count_connects es
  unfolding flushed
  count_connects-flushed next [] = refl
  count_connects-flushed next (e ∷ es) = elim (Bool-cases (e.msg_id == msg_id_invalid)) [
    | inl queued ↦
        rw (spec_queued json client_id batch next e es queued).2
          (ap (λ n. connects e.func + n) (count_connects-flushed (bump msg_id_invalid next) es))
    | inr busy ↦
        rw (spec_in_flight json client_id batch next e es busy).2
          (ap (λ n. connects e.func + n) (count_connects-flushed next es))
  ]

module _ {J : Type 0} where
  next_after-IsId : (next : ℕ) (es : List (Entry J)) → IsId next → IsId (next_after next es)
  unfolding next_after
  next_after-IsId next [] h = h
  next_after-IsId next (e ∷ es) h = elim (Bool-cases (e.msg_id == msg_id_invalid)) [
    | inl queued ↦ rw queued (next_after-IsId (bump msg_id_invalid next) es (bump-IsId next h))
    | inr busy ↦ rw busy (next_after-IsId next es h)
  ]

module _ {J : Type 0} (json : JsonC J) where
  -- the body of the request that the flush timer sends: of an empty outbox it is empty
  abbrev pub request_text : Option CString → ℕ → ℕ → List (Entry J) → CString
  request_text client_id batch next [] = []
  request_text client_id batch next (e ∷ es) =
      batch_text (outgoing json client_id batch next (e ∷ es))

module _ {J T : Type 0} (json : JsonC J) where
  flush_empty :
      (s : Str) (c : Client J T) → c.outbox.count ≡ 0 → msg_queue_flush json s c ≡ some (s, c)
  unfolding msg_queue_flush
  flush_empty s c empty = rw ((==_iff c.outbox.count 0).1 empty)

  flushed-IsClient :
      (c : Client J T) (es : List (Entry J)) (table : Table) (outbox : MsgQueue J) (body : Str)
      → IsClient c es table
      → IsQueue outbox (flushed json c.id c.batch_id c.message_id es)
      → IsClient
          (record (flushed_client json c es outbox) { effects = c.effects ++ (sent body ∷ []) })
          (flushed json c.id c.batch_id c.message_id es)
          table
  flushed-IsClient c es table outbox body v q = record {
    queue = q;
    one_connect = count_connects-flushed json c.id c.batch_id c.message_id es ∙ v.one_connect;
    message_id = next_after-IsId c.message_id es v.message_id;
    batch_id = bump-IsId c.batch_id v.batch_id;
    table_held =
        HasTable-same c
          (record (flushed_client json c es outbox) { effects = c.effects ++ (sent body ∷ []) })
          table refl refl refl v.table_held;
  }

  -- The flush timer, while no handshake is pending and the batch stays below 2 ^ 32 bytes, sends
  -- one request without a fault, the array of the messages that were not in flight, or nothing for an
  -- empty outbox, and keeps the invariant: the entries stay in the outbox, in their
  -- order, the queued ones stamped with ids, and `handshake_msg_index` stays none.
  pub on_ev_timeout_flush-IsClient :
      Laws json
      → (c : Client J T) (es : List (Entry J)) (table : Table) → IsClient c es table
      → c.handshake_msg_index ≡ none
      → length (batch_text (outgoing json c.id c.batch_id c.message_id es)) + 2050 < 2 ^ 32
      → (c' : Client J T) × (body : Str) × (on_ev_timeout_flush json c ≡ some c')
        × (c'.effects ≡ c.effects ++ (sent body ∷ []))
        × IsText body (request_text json c.id c.batch_id c.message_id es)
        × (c'.handshake_msg_index ≡ c.handshake_msg_index)
        × IsClient c' (flushed json c.id c.batch_id c.message_id es) table
  unfolding flushed
  on_ev_timeout_flush-IsClient laws c [] table v no_handshake h =
      let (s, allocated, w, _) = str_alloc-IsText 4096 (omega arith) in
      let idle = record c { effects = c.effects ++ (sent s ∷ []) } in
      (
        idle,
        s,
        flush_timeout_steps json s s c c allocated (
            encode_all json c.handshake_msg_index s c no_handshake ∙ flush_empty s c v.queue.count),
        refl,
        w,
        refl,
        SameCore-IsClient c idle [] table
            (record {
              outbox = refl;
              flag = refl;
              message_id = refl;
              batch_id = refl;
              channels = refl;
              channel_count = refl;
              channel_capacity = refl;
            })
            v,
      )
  on_ev_timeout_flush-IsClient laws c (e ∷ es) table v no_handshake h =
      let (body, outbox, ran, w, q) =
        on_ev_timeout_flush-sent json laws c (e ∷ es) v.queue no_handshake (omega arith) h in
      (
        record (flushed_client json c (e ∷ es) outbox) { effects = c.effects ++ (sent body ∷ []) },
        body,
        ran,
        refl,
        w,
        refl,
        flushed-IsClient c (e ∷ es) table outbox body v q,
      )
