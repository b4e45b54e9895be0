-- ===== src/MsgQueue/Append.antt =====
-- `msg_queue_push`, over the list of entries.
use libbayeux.Prelude.{
  ℕ, ◌+◌, ◌≤◌, ◌<◌, ◌≡◌, refl, sym, ◌∙◌, List, [], ◌∷◌, ◌++◌, map, some, arith, length, leb, set,
  length-set, length-append, length-map, Bool-cases, inl, inr, ◌>>=◌,
}
use mathlib.Core.List.{map-append}
use libbayeux.Memory.{Block, store, realloc}
use libbayeux.Memory.Laws.{Holds, Holds-realloc, length-realloc, Holds-set_end, store_inside}
use libbayeux.MsgQueue.{
  MsgQueue, RecvFunc, batch_id_invalid, msg_id_invalid, make_room, msg_queue_push,
}
use libbayeux.MsgQueue.Entries.{Entry, IsQueue}

-- A value stored behind the held ones is held.
append_cell {ℓ} :
    {A : Type ℓ} {E : Type 0} (f : E → A) (es : List E) (e : E) (b : Block A) (n : ℕ)
    → Holds (map f es) b
    → n ≡ length es
    → n < length b
    → (b' : Block A) × (store b n (f e) ≡ some b')
      × Holds (map f (es ++ (e ∷ []))) b'
      × (length b' ≡ length b)
append_cell f es e b n h at lt =
    let behind : n ≡ length (map f es) = at ∙ sym (length-map f es) in
    (
      set b n (some (f e)),
      store_inside b n (f e) lt,
      rw (map-append f es (e ∷ []), behind)
          (Holds-set_end (map f es) b (f e) h (omega (arith, behind))),
      length-set b n (some (f e)),
    )

module _ {J : Type 0} where
  resize_cells {ℓ} :
      {A : Type ℓ} (f : Entry J → A) (es : List (Entry J)) (b : Block A) (n : ℕ)
      → Holds (map f es) b
      → length es ≤ n
      → Holds (map f es) (realloc b n)
  resize_cells f es b n h le = Holds-realloc (map f es) b n h (omega (arith, length-map f es))

  -- Growing keeps the entries and leaves a place free.
  make_room-IsQueue :
      (q : MsgQueue J) (es : List (Entry J))
      → IsQueue q es
      → IsQueue (make_room q) es
        × (length es < (make_room q).capacity)
        × ((make_room q).count ≡ q.count)
  unfolding make_room
  make_room-IsQueue q es v = elim (Bool-cases (leb q.capacity q.count)) [
    | inl full ↦ rw full (
      record {
        count = v.count;
        within = omega (arith, v.count);
        msgs = resize_cells (λ e. e.msg) es q.msgs (q.count + 64) v.msgs (omega (arith, v.count));
        batch_ids =
            resize_cells (λ e. e.batch_id) es q.batch_ids (q.count + 64) v.batch_ids
              (omega (arith, v.count));
        msg_ids =
            resize_cells (λ e. e.msg_id) es q.msg_ids (q.count + 64) v.msg_ids
              (omega (arith, v.count));
        funcs =
            resize_cells (λ e. e.func) es q.funcs (q.count + 64) v.funcs (omega (arith, v.count));
        msgs_size = length-realloc q.msgs (q.count + 64);
        batch_ids_size = length-realloc q.batch_ids (q.count + 64);
        msg_ids_size = length-realloc q.msg_ids (q.count + 64);
        funcs_size = length-realloc q.funcs (q.count + 64);
      },
      omega (arith, v.count),
      refl,
    )
    | inr free ↦ rw free (v, ground (arith, v.count), refl)
  ]

  -- what `msg_queue_push` adds: a message that is not in flight
  abbrev pub queued : J → RecvFunc → Entry J
  queued msg func = record {
    msg = msg;
    batch_id = batch_id_invalid;
    msg_id = msg_id_invalid;
    func = func;
  }

  push_steps :
      (full queue : MsgQueue J) (idx : ℕ) (msg : J) (func : RecvFunc) (ms : Block J)
      (bs is : Block ℕ) (fs : Block RecvFunc)
      → make_room full ≡ queue
      → queue.count ≡ idx
      → store queue.msgs queue.count msg ≡ some ms
      → store queue.batch_ids queue.count batch_id_invalid ≡ some bs
      → store queue.msg_ids queue.count msg_id_invalid ≡ some is
      → store queue.funcs queue.count func ≡ some fs
      → msg_queue_push full msg func
        ≡ some (
          idx,
          record {
            msgs = ms;
            batch_ids = bs;
            msg_ids = is;
            funcs = fs;
            capacity = queue.capacity;
            count = queue.count + 1;
          },
        )
  unfolding msg_queue_push
  push_steps full queue idx msg func ms bs is fs room at a b c d =
      rw (room, a, ◌>>=◌, b, ◌>>=◌, c, ◌>>=◌, d, ◌>>=◌, at) refl

  push_into :
      (full queue : MsgQueue J) (es : List (Entry J)) (msg : J) (func : RecvFunc)
      → make_room full ≡ queue
      → IsQueue queue es
      → length es < queue.capacity
      → (q' : MsgQueue J) × (msg_queue_push full msg func ≡ some (length es, q'))
        × IsQueue q' (es ++ (queued msg func ∷ []))
  push_into full queue es msg func room v lt =
      let new = queued msg func in
      let fits : queue.count < queue.capacity = omega (arith, v.count) in
      let (ms, a, ha, sa) =
        append_cell (λ e. e.msg) es new queue.msgs queue.count v.msgs v.count
          (omega (arith, fits, v.msgs_size)) in
      let (bs, b, hb, sb) =
        append_cell (λ e. e.batch_id) es new queue.batch_ids queue.count v.batch_ids v.count
          (omega (arith, fits, v.batch_ids_size)) in
      let (is, c, hc, sc) =
        append_cell (λ e. e.msg_id) es new queue.msg_ids queue.count v.msg_ids v.count
          (omega (arith, fits, v.msg_ids_size)) in
      let (fs, d, hd, sd) =
        append_cell (λ e. e.func) es new queue.funcs queue.count v.funcs v.count
          (omega (arith, fits, v.funcs_size)) in
      (
        record {
          msgs = ms;
          batch_ids = bs;
          msg_ids = is;
          funcs = fs;
          capacity = queue.capacity;
          count = queue.count + 1;
        },
        push_steps full queue (length es) msg func ms bs is fs room v.count a b c d,
        record {
          count = omega (arith, v.count, length-append es (new ∷ []));
          within = omega (arith, lt, length-append es (new ∷ []));
          msgs = ha;
          batch_ids = hb;
          msg_ids = hc;
          funcs = hd;
          msgs_size = sa ∙ v.msgs_size;
          batch_ids_size = sb ∙ v.batch_ids_size;
          msg_ids_size = sc ∙ v.msg_ids_size;
          funcs_size = sd ∙ v.funcs_size;
        },
      )

  -- In a well-formed queue, `msg_queue_push` appends the message as an entry that is not in
  -- flight, growing the arrays if they are full, keeps every entry before it, and returns the
  -- index of the new one.
  pub msg_queue_push-append :
      (q : MsgQueue J) (es : List (Entry J)) (msg : J) (func : RecvFunc)
      → IsQueue q es
      → (q' : MsgQueue J) × (msg_queue_push q msg func ≡ some (length es, q'))
        × IsQueue q' (es ++ (queued msg func ∷ []))
  msg_queue_push-append q es msg func v =
      let (room, lt, _) = make_room-IsQueue q es v in
      push_into q (make_room q) es msg func refl room lt
