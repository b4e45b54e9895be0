-- ===== src/Client/Flush/Batch.antt =====
-- `msg_queue_flush` and `on_ev_timeout_flush`, against the list of entries.
use libbayeux.Prelude.{
  ℕ, ◌+◌, ◌^◌, ◌<◌, ◌≡◌, refl, ap, ◌∙◌, true, List, [], ◌∷◌, ◌++◌, Option, none, some, arith,
  length, length-append, ◌>>=◌, ==_ne,
}
use libbayeux.Libc.{codes}
use libbayeux.Str.{Str, str_cat, str_alloc}
use libbayeux.Str.Growth.{IsText}
use libbayeux.Str.Append.{str_cat-append, str_alloc-IsText}
use libbayeux.Json.{JsonC, Laws}
use libbayeux.MsgQueue.{MsgQueue, batch_id_invalid}
use libbayeux.MsgQueue.Entries.{Entry, IsQueue}
use libbayeux.Client.{Client, sent}
use libbayeux.Client.Schedule.{bump, next_batch_id}
use libbayeux.Client.Flush.{
  flush_from, flush_all, msg_queue_flush, encode_batch, on_ev_timeout_flush,
}
use libbayeux.Client.Flush.Spec.{
  flushed, outgoing, next_after, batch_text, joined, accumulated-joined, outgoing-Nonempty,
}
use libbayeux.Client.Flush.Loop.{flush_from-Flushes}

module _ {J T : Type 0} (json : JsonC J) where
  -- the client after a flush
  abbrev pub flushed_client : Client J T → List (Entry J) → MsgQueue J → Client J T
  flushed_client c es outbox = record c {
    batch_id = bump batch_id_invalid c.batch_id;
    message_id = next_after c.message_id es;
    outbox = outbox;
  }

  flush_all_steps :
      (s s1 s2 s3 : Str) (c c2 : Client J T)
      → str_cat true s (codes "[") ≡ some s1
      → flush_from json s1
          (record c { batch_id = bump batch_id_invalid c.batch_id })
          c.batch_id
          c.outbox.count
          0
        ≡ some (s2, c2)
      → str_cat true s2 (codes "]") ≡ some s3
      → flush_all json s c ≡ some (s3, c2)
  unfolding flush_all next_batch_id
  flush_all_steps s s1 s2 s3 c c2 opened encoded closed =
      rw (opened, ◌>>=◌, encoded, ◌>>=◌, closed, ◌>>=◌) refl

  flush_all-batch_text :
      Laws json
      → (s : Str) (c : Client J T) (es : List (Entry J)) → IsText s []
      → IsQueue c.outbox es
      → length (batch_text (outgoing json c.id c.batch_id c.message_id es)) + 2050 < 2 ^ 32
      → (t : Str) × (outbox : MsgQueue J) × (flush_all json s c
          ≡ some (t, flushed_client c es outbox))
        × IsText t (batch_text (outgoing json c.id c.batch_id c.message_id es))
        × IsQueue outbox (flushed json c.id c.batch_id c.message_id es)
  flush_all-batch_text laws s c es v q h =
      let texts = outgoing json c.id c.batch_id c.message_id es in
      let plain =
        accumulated-joined texts (outgoing-Nonempty json laws c.id c.batch_id c.message_id es) in
      let size = length-append (joined texts) (codes "]") in
      let (s1, opened, v1) = str_cat-append s [] (codes "[") v (omega arith) in
      let (s2, outbox, encoded, v2, q2) =
        flush_from-Flushes json s1 (codes "[")
          (record c { batch_id = bump batch_id_invalid c.batch_id }) c.batch_id [] es v1 q
          (rw plain (omega (arith, size))) in
      let (s3, closed, v3) =
        str_cat-append s2 (b'[' ∷ joined texts) (codes "]") (rw plain at v2)
          (omega (arith, size)) in
      (
        s3,
        outbox,
        flush_all_steps s s1 s2 s3 c (flushed_client c es outbox) opened
            (ap
                (λ n.
                  flush_from json s1 (record c { batch_id = bump batch_id_invalid c.batch_id })
                    c.batch_id n 0)
                q.count
              ∙ encoded)
            closed,
        v3,
        q2,
      )

  -- A flush of a well-formed outbox that is not empty, into an empty buffer and with a batch below
  -- 2 ^ 32 bytes, takes one batch id, gives every message that is not in flight the next message
  -- id, the batch id and the client's id, and encodes exactly those messages, in their order, as
  -- one JSON array. Besides the outbox it changes only the two counters of the client.
  pub msg_queue_flush-batch_text :
      Laws json
      → (s : Str) (c : Client J T) (es : List (Entry J)) → IsText s []
      → IsQueue c.outbox es
      → 0 < length es
      → length (batch_text (outgoing json c.id c.batch_id c.message_id es)) + 2050 < 2 ^ 32
      → (t : Str) × (outbox : MsgQueue J) × (msg_queue_flush json s c
          ≡ some (t, flushed_client c es outbox))
        × IsText t (batch_text (outgoing json c.id c.batch_id c.message_id es))
        × IsQueue outbox (flushed json c.id c.batch_id c.message_id es)
  unfolding msg_queue_flush
  msg_queue_flush-batch_text laws s c es v q some_entry h =
      rw (==_ne c.outbox.count 0 (λ e. omega (arith, q.count)))
        (flush_all-batch_text laws s c es v q h)

  pub flush_timeout_steps :
      (s t : Str) (c c1 : Client J T)
      → str_alloc true 4096 ≡ some s
      → encode_batch json c.handshake_msg_index s c ≡ some (t, c1)
      → on_ev_timeout_flush json c ≡ some (record c1 { effects = c1.effects ++ (sent t ∷ []) })
  unfolding on_ev_timeout_flush
  flush_timeout_steps s t c c1 allocated encoded = rw (allocated, ◌>>=◌, encoded, ◌>>=◌) refl

  pub encode_all :
      (h : Option ℕ) (s : Str) (c : Client J T)
      → h ≡ none
      → encode_batch json h s c ≡ msg_queue_flush json s c
  unfolding encode_batch
  encode_all none s c e = refl
  encode_all (some i) s c e = cc

  -- The flush timer, for a well-formed outbox that is not empty, while no handshake is pending and
  -- the batch stays below 2 ^ 32 bytes: it sends one request, the array of the messages that were
  -- not in flight, and leaves them in the outbox, stamped with their ids.
  pub on_ev_timeout_flush-sent :
      Laws json
      → (c : Client J T) (es : List (Entry J)) → IsQueue c.outbox es
      → c.handshake_msg_index ≡ none
      → 0 < length es
      → length (batch_text (outgoing json c.id c.batch_id c.message_id es)) + 2050 < 2 ^ 32
      → (t : Str) × (outbox : MsgQueue J) × (on_ev_timeout_flush json c
          ≡ some (record (flushed_client c es outbox) { effects = c.effects ++ (sent t ∷ []) }))
        × IsText t (batch_text (outgoing json c.id c.batch_id c.message_id es))
        × IsQueue outbox (flushed json c.id c.batch_id c.message_id es)
  on_ev_timeout_flush-sent laws c es q no_handshake some_entry h =
      let (s, allocated, v, _) = str_alloc-IsText 4096 (omega arith) in
      let (t, outbox, encoded, w, q') = msg_queue_flush-batch_text laws s c es v q some_entry h in
      (
        t,
        outbox,
        flush_timeout_steps s t c (flushed_client c es outbox) allocated
            (encode_all c.handshake_msg_index s c no_handshake ∙ encoded),
        w,
        q',
      )
