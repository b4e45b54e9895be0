-- ===== src/Client/System/Flush.antt =====
-- `on_ev_timeout_flush` keeps a session, also while a handshake is noted.
use libbayeux.Prelude.{
  ◌<◌, ◌^◌, length, ℕ, zero, suc, ◌+◌, ◌≡◌, ◌≢◌, refl, ap, ◌∙◌, List, [], ◌∷◌, ◌++◌, Option, none,
  some, arith, ◌==◌, ==_iff, Bool-cases, inl, inr,
}
use libbayeux.Memory.{load}
use libbayeux.Str.{Str}
use libbayeux.Str.Growth.{IsText}
use libbayeux.Str.Append.{str_alloc-IsText}
use libbayeux.Json.{JsonC, Laws}
use libbayeux.MsgQueue.{msg_id_invalid}
use libbayeux.MsgQueue.Entries.{Entry, IsQueue}
use libbayeux.MsgQueue.Pending.{entry-IsPending}
use libbayeux.Libc.{CString}
use libbayeux.Client.{Client, sent}
use libbayeux.Client.Flush.{encode_batch, msg_queue_flush_one, on_ev_timeout_flush}
use libbayeux.Client.Flush.Batch.{flush_timeout_steps}
use libbayeux.Client.Flush.Single.{
  at_index, sent_message, sent_entry, sent_client, flush_one_in_flight, msg_queue_flush_one-sent,
}
use libbayeux.Client.Channels.Table.{Table, HasTable-same}
use libbayeux.Client.Invariant.{IsClient, connects, count_connects}
use libbayeux.Client.Invariant.Steps.{SameCore-IsClient}
use libbayeux.Client.Invariant.Flushing.{bump-IsId, on_ev_timeout_flush-IsClient}
use libbayeux.Client.System.{FitsFrom}
use libbayeux.Client.System.Pending.{IsSession}

module _ {J : Type 0} where
  count_connects-at_index :
      (g : Entry J → Entry J) (es : List (Entry J)) (i : ℕ)
      → ((e : Entry J) → (g e).func ≡ e.func)
      → count_connects (at_index g es i) ≡ count_connects es
  count_connects-at_index g [] i h = refl
  count_connects-at_index g (e ∷ es) zero h = ap (λ f. connects f + count_connects es) (h e)
  count_connects-at_index g (e ∷ es) (suc i) h =
      ap (λ n. connects e.func + n) (count_connects-at_index g es i h)

module _ {J T : Type 0} (json : JsonC J) where
  pub encode_one :
      (h : Option ℕ) (i : ℕ) (s : Str) (c : Client J T)
      → h ≡ some i
      → encode_batch json h s c ≡ msg_queue_flush_one json s c i
  unfolding encode_batch
  encode_one none i s c e = cc
  encode_one (some k) i s c e =
      let same : k ≡ i = cc in ap (λ n. msg_queue_flush_one json s c n) same

  -- What the flush timer leaves.
  abbrev pub Flushes : Client J T → Table → Type 0
  Flushes c table =
      (c' : Client J T) × (es' : List (Entry J)) × (on_ev_timeout_flush json c ≡ some c')
      × IsSession c' es' table
      × (body : Str) × (text : CString) × (c'.effects ≡ c.effects ++ (sent body ∷ []))
      × IsText body text

  abbrev pub with_request : Client J T → Str → Client J T
  with_request c body = record c { effects = c.effects ++ (sent body ∷ []) }

  with_request-IsSession :
      (c : Client J T) (body : Str) (es : List (Entry J)) (table : Table)
      → IsSession c es table
      → IsSession (with_request c body) es table
  with_request-IsSession c body es table v = record {
    client =
        SameCore-IsClient c (with_request c body) es table
          (record {
            outbox = refl;
            flag = refl;
            message_id = refl;
            batch_id = refl;
            channels = refl;
            channel_count = refl;
            channel_capacity = refl;
          })
          v.client;
  }

  flush_all-IsSession :
      Laws json
      → (c : Client J T) (es : List (Entry J)) (table : Table) → IsSession c es table
      → c.handshake_msg_index ≡ none
      → FitsFrom json none c es
      → Flushes c table
  flush_all-IsSession laws c es table v free fits =
      let (c', body, ran, effects, text, same, v') =
        on_ev_timeout_flush-IsClient json laws c es table v.client free fits in
      (c', _, ran, record { client = v' }, body, _, effects, text)

  -- The noted message has been sent before: an empty request.
  flush_again-IsSession :
      (c : Client J T) (es : List (Entry J)) (table : Table) (i id : ℕ)
      → IsSession c es table
      → c.handshake_msg_index ≡ some i
      → load c.outbox.msg_ids i ≡ some id
      → id ≢ msg_id_invalid
      → Flushes c table
  flush_again-IsSession c es table i id v noted read ne =
      let (s, allocated, w, _) = str_alloc-IsText 4096 (omega arith) in
      (
        with_request c s,
        es,
        flush_timeout_steps json s s c c allocated (
            encode_one c.handshake_msg_index i s c noted
            ∙ flush_one_in_flight json s c i id read ne),
        with_request-IsSession c s es table v,
        s,
        [],
        refl,
        w,
      )

  sent_client-IsClient :
      (c : Client J T) (es : List (Entry J)) (table : Table) (i : ℕ) (msg : J)
      → IsClient c es table
      → IsQueue (sent_client json c i msg).outbox (
          at_index
            (sent_entry (sent_message json c.id c.message_id msg) c.batch_id c.message_id)
            es
            i)
      → IsClient
          (sent_client json c i msg)
          (at_index
            (sent_entry (sent_message json c.id c.message_id msg) c.batch_id c.message_id)
            es
            i)
          table
  sent_client-IsClient c es table i msg v q = record {
    queue = q;
    one_connect =
        count_connects-at_index
          (sent_entry (sent_message json c.id c.message_id msg) c.batch_id c.message_id) es i
          (λ e. refl)
        ∙ v.one_connect;
    message_id = bump-IsId c.message_id v.message_id;
    batch_id = bump-IsId c.batch_id v.batch_id;
    table_held = HasTable-same c (sent_client json c i msg) table refl refl refl v.table_held;
  }

  flush_one-IsSession :
      (c : Client J T) (es : List (Entry J)) (table : Table) (i : ℕ) (msg : J)
      → IsSession c es table
      → c.handshake_msg_index ≡ some i
      → i < length es
      → load c.outbox.msgs i ≡ some msg
      → load c.outbox.msg_ids i ≡ some msg_id_invalid
      → ((msg : J)
          → load c.outbox.msgs i ≡ some msg
          → length (json.to_json_string (sent_message json c.id c.message_id msg)) + 2052 < 2 ^ 32)
      → Flushes c table
  flush_one-IsSession c es table i msg v noted inside read queued fits =
      let (s, allocated, w, _) = str_alloc-IsText 4096 (omega arith) in
      let (t, ran, text, q) =
        msg_queue_flush_one-sent json s c es i msg w v.client.queue inside read queued
          (fits msg read) in
      let es' =
        at_index (sent_entry (sent_message json c.id c.message_id msg) c.batch_id c.message_id) es
          i in
      (
        with_request (sent_client json c i msg) t,
        es',
        flush_timeout_steps json s t c (sent_client json c i msg) allocated
            (encode_one c.handshake_msg_index i s c noted ∙ ran),
        with_request-IsSession (sent_client json c i msg) t es' table
            (record { client = sent_client-IsClient c es table i msg v.client q }),
        t,
        _,
        refl,
        text,
      )

  flush_noted-IsSession :
      (c : Client J T) (es : List (Entry J)) (table : Table) (i : ℕ)
      → IsSession c es table
      → c.handshake_msg_index ≡ some i
      → i < length es
      → ((msg : J)
          → load c.outbox.msgs i ≡ some msg
          → length (json.to_json_string (sent_message json c.id c.message_id msg)) + 2052 < 2 ^ 32)
      → Flushes c table
  flush_noted-IsSession c es table i v noted inside fits =
      let p = entry-IsPending c.outbox es i v.client.queue inside in
      let (msg, read) = p.msg in
      let (id, read_id) = p.msg_id in
      elim (Bool-cases (id == msg_id_invalid)) [
        | inl queued ↦
            flush_one-IsSession c es table i msg v noted inside read
              (read_id ∙ ap (λ n. some n) ((==_iff id msg_id_invalid).0 queued)) fits
        | inr busy ↦
            flush_again-IsSession c es table i id v noted read_id
              (λ e. let yes_it_is = (==_iff id msg_id_invalid).1 e in cc)
      ]

  flush-cases :
      Laws json
      → (c : Client J T) (es : List (Entry J)) (table : Table) (h : Option ℕ) → IsSession c es table
      → c.handshake_msg_index ≡ h
      → FitsFrom json h c es
      → Flushes c table
  flush-cases laws c es table none v e fits = flush_all-IsSession laws c es table v e fits
  flush-cases laws c es table (some i) v e (inside, fits) =
      flush_noted-IsSession c es table i v e inside fits

  pub flush-IsSession :
      Laws json
      → (c : Client J T) (es : List (Entry J)) (table : Table) → IsSession c es table
      → FitsFrom json c.handshake_msg_index c es
      → Flushes c table
  flush-IsSession laws c es table v fits =
      flush-cases laws c es table c.handshake_msg_index v refl fits
