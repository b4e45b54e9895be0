-- ===== src/Client/Flush/Single.antt =====
-- `msg_queue_flush_one`, at the index of an entry.
use libbayeux.Prelude.{
  ℕ, zero, suc, ◌+◌, ◌<◌, ◌^◌, ◌≡◌, ◌≢◌, refl, ap, ◌∙◌, true, List, [], ◌∷◌, map, Option, some,
  arith, length, set, length-set, ==_ne, ◌>>=◌,
}
use libbayeux.Libc.{CString, codes}
use libbayeux.Memory.{load, store}
use libbayeux.Memory.Laws.{store_inside}
use libbayeux.Memory.Cells.{Holds-set_any}
use libbayeux.Str.{Str, str_cat}
use libbayeux.Str.Growth.{IsText}
use libbayeux.Str.Append.{str_cat-append}
use libbayeux.Json.{JsonC}
use libbayeux.Json.Util.{json_set_string}
use libbayeux.Libc.{print_hex}
use libbayeux.MsgQueue.{MsgQueue, msg_id_invalid, batch_id_invalid}
use libbayeux.MsgQueue.Entries.{Entry, IsQueue, msgs_of, batch_ids_of, msg_ids_of}
use libbayeux.Client.{Client}
use libbayeux.Client.Schedule.{bump, next_batch_id}
use libbayeux.Client.Messages.{json_set_msg_id}
use libbayeux.Client.Flush.{set_client_id, assign_ids, flush_only, msg_queue_flush_one}
use libbayeux.Client.Flush.Spec.{batch_text}

module _ {J : Type 0} where
  -- an entry replaced, where the index is one
  abbrev pub at_index : (Entry J → Entry J) → List (Entry J) → ℕ → List (Entry J)
  at_index g [] i = []
  at_index g (e ∷ es) zero = g e ∷ es
  at_index g (e ∷ es) (suc i) = e ∷ at_index g es i

  length-at_index :
      (g : Entry J → Entry J) (es : List (Entry J)) (i : ℕ) → length (at_index g es i) ≡ length es
  length-at_index g [] i = refl
  length-at_index g (e ∷ es) zero = refl
  length-at_index g (e ∷ es) (suc i) = ap suc (length-at_index g es i)

  map-at_index-set {ℓ} :
      {A : Type ℓ} (f : Entry J → A) (g : Entry J → Entry J) (v : A) (es : List (Entry J)) (i : ℕ)
      → ((e : Entry J) → f (g e) ≡ v)
      → map f (at_index g es i) ≡ set (map f es) i v
  map-at_index-set f g v [] i h = refl
  map-at_index-set f g v (e ∷ es) zero h = ap (λ a. a ∷ map f es) (h e)
  map-at_index-set f g v (e ∷ es) (suc i) h = ap (λ t. f e ∷ t) (map-at_index-set f g v es i h)

  map-at_index_same {ℓ} :
      {A : Type ℓ} (f : Entry J → A) (g : Entry J → Entry J) (es : List (Entry J)) (i : ℕ)
      → ((e : Entry J) → f (g e) ≡ f e)
      → map f (at_index g es i) ≡ map f es
  map-at_index_same f g [] i h = refl
  map-at_index_same f g (e ∷ es) zero h = ap (λ a. a ∷ map f es) (h e)
  map-at_index_same f g (e ∷ es) (suc i) h = ap (λ t. f e ∷ t) (map-at_index_same f g es i h)

  -- a message as it is sent
  abbrev pub sent_message : JsonC J → Option CString → ℕ → J → J
  sent_message json client_id next msg =
      set_client_id json client_id (json_set_string json msg (codes "id") (print_hex next))

  -- an entry whose message was sent as this one
  abbrev pub sent_entry : J → ℕ → ℕ → Entry J → Entry J
  sent_entry msg batch next e = record e { msg = msg; batch_id = batch; msg_id = next }

  -- The arrays with the message and the ids at the index replaced.
  abbrev pub replaced : MsgQueue J → ℕ → J → ℕ → ℕ → MsgQueue J
  replaced q i msg batch next = record q {
    msgs = set q.msgs i (some msg);
    batch_ids = set q.batch_ids i (some batch);
    msg_ids = set q.msg_ids i (some next);
  }

  replaced-IsQueue :
      (q : MsgQueue J) (es : List (Entry J)) (i : ℕ) (msg : J) (batch next : ℕ)
      → IsQueue q es
      → IsQueue (replaced q i msg batch next) (at_index (sent_entry msg batch next) es i)
  replaced-IsQueue q es i msg batch next v =
      let g = sent_entry msg batch next in
      let len = length-at_index g es i in
      record {
        count = omega (arith, v.count, len);
        within = omega (arith, v.within, len);
        msgs =
            rw (map-at_index-set (λ (e : Entry J). e.msg) g msg es i (λ e. refl))
              (Holds-set_any (msgs_of es) q.msgs i msg v.msgs);
        batch_ids =
            rw (map-at_index-set (λ (e : Entry J). e.batch_id) g batch es i (λ e. refl))
              (Holds-set_any (batch_ids_of es) q.batch_ids i batch v.batch_ids);
        msg_ids =
            rw (map-at_index-set (λ (e : Entry J). e.msg_id) g next es i (λ e. refl))
              (Holds-set_any (msg_ids_of es) q.msg_ids i next v.msg_ids);
        funcs = rw (map-at_index_same (λ (e : Entry J). e.func) g es i (λ e. refl)) v.funcs;
        msgs_size = length-set q.msgs i (some msg) ∙ v.msgs_size;
        batch_ids_size = length-set q.batch_ids i (some batch) ∙ v.batch_ids_size;
        msg_ids_size = length-set q.msg_ids i (some next) ∙ v.msg_ids_size;
        funcs_size = v.funcs_size;
      }

module _ {J T : Type 0} (json : JsonC J) where
  assign_ids_at :
      (c : Client J T) (batch i : ℕ) (msg : J)
      → load c.outbox.msgs i ≡ some msg
      → store c.outbox.msg_ids i c.message_id ≡ some (set c.outbox.msg_ids i (some c.message_id))
      → store c.outbox.msgs i (sent_message json c.id c.message_id msg)
        ≡ some (set c.outbox.msgs i (some (sent_message json c.id c.message_id msg)))
      → store c.outbox.batch_ids i batch ≡ some (set c.outbox.batch_ids i (some batch))
      → assign_ids json c batch i
        ≡ some (
          sent_message json c.id c.message_id msg,
          record c {
            message_id = bump msg_id_invalid c.message_id;
            outbox =
                replaced c.outbox i (sent_message json c.id c.message_id msg) batch c.message_id;
          },
        )
  unfolding assign_ids json_set_msg_id
  assign_ids_at c batch i msg read x y z = rw (read, ◌>>=◌, x, ◌>>=◌, y, ◌>>=◌, z, ◌>>=◌) refl

  flush_only_steps :
      (s s1 s2 s3 : Str) (c c2 : Client J T) (i : ℕ) (msg : J)
      → str_cat true s (codes "[") ≡ some s1
      → assign_ids json (record c { batch_id = bump batch_id_invalid c.batch_id }) c.batch_id i
        ≡ some (msg, c2)
      → str_cat true s1 (json.to_json_string msg) ≡ some s2
      → str_cat true s2 (codes "]") ≡ some s3
      → flush_only json s c i ≡ some (s3, c2)
  unfolding flush_only next_batch_id
  flush_only_steps s s1 s2 s3 c c2 i msg opened assigned encoded closed =
      rw (opened, ◌>>=◌, assigned, ◌>>=◌, encoded, ◌>>=◌, closed, ◌>>=◌) refl

  -- the client after `msg_queue_flush_one` has sent a message
  abbrev pub sent_client : Client J T → ℕ → J → Client J T
  sent_client c i msg = record c {
    batch_id = bump batch_id_invalid c.batch_id;
    message_id = bump msg_id_invalid c.message_id;
    outbox = replaced c.outbox i (sent_message json c.id c.message_id msg) c.batch_id c.message_id;
  }

  flush_one_queued :
      (s : Str) (c : Client J T) (i : ℕ)
      → load c.outbox.msg_ids i ≡ some msg_id_invalid
      → msg_queue_flush_one json s c i ≡ flush_only json s c i
  unfolding msg_queue_flush_one
  flush_one_queued s c i read = rw (read, ◌>>=◌)

  -- A message that is in flight is not sent again.
  pub flush_one_in_flight :
      (s : Str) (c : Client J T) (i id : ℕ)
      → load c.outbox.msg_ids i ≡ some id
      → id ≢ msg_id_invalid
      → msg_queue_flush_one json s c i ≡ some (s, c)
  unfolding msg_queue_flush_one
  flush_one_in_flight s c i id read ne = rw (read, ◌>>=◌, ==_ne id msg_id_invalid ne)

  -- `msg_queue_flush_one`, with an empty buffer and a well-formed outbox, at the index of an
  -- entry that is not in flight, while the text stays below 2 ^ 32 bytes: it does not fault, and
  -- writes the message of that entry alone, with the next id and the client id, as an array. The
  -- entry gets the message and the ids, and the others stay as they are.
  pub msg_queue_flush_one-sent :
      (s : Str) (c : Client J T) (es : List (Entry J)) (i : ℕ) (msg : J)
      → IsText s []
      → IsQueue c.outbox es
      → i < length es
      → load c.outbox.msgs i ≡ some msg
      → load c.outbox.msg_ids i ≡ some msg_id_invalid
      → length (json.to_json_string (sent_message json c.id c.message_id msg)) + 2052 < 2 ^ 32
      → (t : Str) × (msg_queue_flush_one json s c i ≡ some (t, sent_client c i msg))
        × IsText t (batch_text (json.to_json_string (sent_message json c.id c.message_id msg) ∷ []))
        × IsQueue (sent_client c i msg).outbox (
            at_index
              (sent_entry (sent_message json c.id c.message_id msg) c.batch_id c.message_id)
              es
              i)
  msg_queue_flush_one-sent s c es i msg v q below read queued h =
      let out = sent_message json c.id c.message_id msg in
      let body = json.to_json_string out in
      let inside : i < length c.outbox.msgs =
        omega (arith, below, q.count, q.within, q.msgs_size) in
      let stores_id =
        store_inside c.outbox.msg_ids i c.message_id
          (omega (arith, inside, q.msgs_size, q.msg_ids_size)) in
      let stores_msg = store_inside c.outbox.msgs i out inside in
      let stores_batch =
        store_inside c.outbox.batch_ids i c.batch_id
          (omega (arith, inside, q.msgs_size, q.batch_ids_size)) in
      let (s1, opened, v1) = str_cat-append s [] (codes "[") v (omega arith) in
      let (s2, encoded, v2) = str_cat-append s1 (codes "[") body v1 (omega arith) in
      let (s3, closed, v3) = str_cat-append s2 (b'[' ∷ body) (codes "]") v2 (omega arith) in
      (
        s3,
        flush_one_queued s c i queued
            ∙ flush_only_steps s s1 s2 s3 c (sent_client c i msg) i out opened
                (assign_ids_at (record c { batch_id = bump batch_id_invalid c.batch_id }) c.batch_id
                  i msg read stores_id stores_msg stores_batch)
                encoded closed,
        v3,
        replaced-IsQueue c.outbox es i out c.batch_id c.message_id q,
      )
