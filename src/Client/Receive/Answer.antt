-- ===== src/Client/Receive/Answer.antt =====
-- `on_msg_recv` on a message without data.
use libbayeux.Prelude.{
  ℕ, zero, suc, ◌<◌, ◌≡◌, ◌≢◌, refl, sym, ap, subst, ◌∙◌, ◌⊎◌, inl, inr, List, [], ◌∷◌, Option,
  none, some, arith, length, take, All, get_elem?, erase_idx, ◌>>=◌, length-map,
}
use libbayeux.Libc.{codes}
use libbayeux.Memory.{load}
use libbayeux.Memory.Laws.{load-Holds}
use libbayeux.Json.{JsonC}
use libbayeux.MsgQueue.{MsgQueue, RecvFunc, msg_queue_remove_ordered}
use libbayeux.MsgQueue.Entries.{Entry, IsQueue, funcs_of}
use libbayeux.MsgQueue.Remove.{msg_queue_remove_ordered-erase_idx}
use libbayeux.MsgQueue.Search.{Answers, msg_queue_find_by_msg_id-Answers}
use libbayeux.Client.{Client, Timers}
use libbayeux.Client.Schedule.{schedule_connect}
use libbayeux.Client.Messages.{json_get_msg_id}
use libbayeux.Client.Connect.{handle_advice}
use libbayeux.Client.Receive.{
  call_recv, recv_connect, recv_handshake, recv_handshake_success, answer_at, answer_found,
  answer_id, recv_answer, dispatch, on_msg_recv,
}

-- The fields that no handler of a message touches.
pub record SameStore {J T : Type 0} (c d : Client J T) : Type 0 where
  pub outbox : d.outbox ≡ c.outbox
  pub channels : d.channels ≡ c.channels
  pub channel_count : d.channel_count ≡ c.channel_count
  pub channel_capacity : d.channel_capacity ≡ c.channel_capacity
  pub effects : d.effects ≡ c.effects
  pub message_id : d.message_id ≡ c.message_id
  pub batch_id : d.batch_id ≡ c.batch_id

module _ {J T : Type 0} (json : JsonC J) (ev : Timers T) where
  pub handle_advice-SameStore :
      (c : Client J T) (msg : Option J) → SameStore c (handle_advice json ev c msg)
  unfolding handle_advice schedule_connect
  handle_advice-SameStore c msg = record {
    outbox = ground arith;
    channels = ground arith;
    channel_count = ground arith;
    channel_capacity = ground arith;
    effects = ground arith;
    message_id = ground arith;
    batch_id = ground arith;
  }

  recv_handshake_success-SameStore :
      (c : Client J T) (msg : Option J) → SameStore c (recv_handshake_success json ev c msg)
  unfolding recv_handshake_success
  recv_handshake_success-SameStore c msg = record {
    outbox = ground arith;
    channels = ground arith;
    channel_count = ground arith;
    channel_capacity = ground arith;
    effects = ground arith;
    message_id = ground arith;
    batch_id = ground arith;
  }

  recv_handshake-SameStore :
      (c : Client J T) (msg : Option J) → SameStore c (recv_handshake json ev c msg)
  unfolding recv_handshake
  recv_handshake-SameStore c msg = record {
    outbox = ground arith;
    channels = ground arith;
    channel_count = ground arith;
    channel_capacity = ground arith;
    effects = ground arith;
    message_id = ground arith;
    batch_id = ground arith;
  }

  pub call_recv-SameStore :
      (func : RecvFunc) (c : Client J T) (msg : Option J)
      → SameStore c (call_recv json ev func c msg)
  unfolding call_recv recv_connect schedule_connect
  call_recv-SameStore RecvFunc.recv_connect c msg = record {
    outbox = ground arith;
    channels = ground arith;
    channel_count = ground arith;
    channel_capacity = ground arith;
    effects = ground arith;
    message_id = ground arith;
    batch_id = ground arith;
  }
  call_recv-SameStore RecvFunc.recv_handshake c msg = recv_handshake-SameStore c msg
  call_recv-SameStore RecvFunc.recv_publish c msg = record {
    outbox = refl;
    channels = refl;
    channel_count = refl;
    channel_capacity = refl;
    effects = refl;
    message_id = refl;
    batch_id = refl;
  }
  call_recv-SameStore RecvFunc.recv_subscribe c msg = record {
    outbox = refl;
    channels = refl;
    channel_count = refl;
    channel_capacity = refl;
    effects = refl;
    message_id = refl;
    batch_id = refl;
  }
  call_recv-SameStore RecvFunc.recv_unsubscribe c msg = record {
    outbox = refl;
    channels = refl;
    channel_count = refl;
    channel_capacity = refl;
    effects = refl;
    message_id = refl;
    batch_id = refl;
  }

  get_elem?-map :
      (es : List (Entry J)) (i : ℕ) (e : Entry J)
      → get_elem? es i ≡ some e
      → get_elem? (funcs_of es) i ≡ some e.func
  get_elem?-map [] i e h = cc
  get_elem?-map (x ∷ es) zero e h = cc
  get_elem?-map (x ∷ es) (suc i) e h = get_elem?-map es i e h

  pub get_elem?-lt :
      (es : List (Entry J)) (i : ℕ) (e : Entry J) → get_elem? es i ≡ some e → i < length es
  get_elem?-lt [] i e h = cc
  get_elem?-lt (x ∷ es) zero e h = omega arith
  get_elem?-lt (x ∷ es) (suc i) e h = omega (arith, get_elem?-lt es i e h)

  answer_steps :
      (c : Client J T) (msg : Option J) (i : ℕ) (func : RecvFunc) (outbox : MsgQueue J)
      → load c.outbox.funcs i ≡ some func
      → msg_queue_remove_ordered (call_recv json ev func c msg).outbox i ≡ some outbox
      → answer_at json ev c msg i ≡ some (record (call_recv json ev func c msg) { outbox = outbox })
  unfolding answer_at
  answer_steps c msg i func outbox read removed = rw (read, ◌>>=◌, removed, ◌>>=◌) refl

  -- The function of the entry is called, and that entry alone leaves the outbox.
  answer_at-erase_idx :
      (c : Client J T) (msg : Option J) (es : List (Entry J)) (i : ℕ) (e : Entry J)
      → IsQueue c.outbox es
      → get_elem? es i ≡ some e
      → (outbox : MsgQueue J) × (answer_at json ev c msg i
          ≡ some (record (call_recv json ev e.func c msg) { outbox = outbox }))
        × (msg_queue_remove_ordered c.outbox i ≡ some outbox)
        × IsQueue outbox (erase_idx es i)
  answer_at-erase_idx c msg es i e q at =
      let inside = get_elem?-lt es i e at in
      let (outbox, removed, q') = msg_queue_remove_ordered-erase_idx c.outbox es i q inside in
      (
        outbox,
        answer_steps c msg i e.func outbox
            (load-Holds (funcs_of es) c.outbox.funcs i q.funcs
                (omega (arith, length-map (λ (e : Entry J). e.func) es))
              ∙ get_elem?-map es i e at)
            (ap (λ o. msg_queue_remove_ordered o i) (call_recv-SameStore e.func c msg).outbox
              ∙ removed),
        removed,
        q',
      )

  -- What an answer with this id does: nothing where no entry has the id, and else the call for the
  -- first entry with it, which leaves the outbox.
  abbrev pub Answered : Client J T → Option J → List (Entry J) → ℕ → Option (Client J T) → Type 0
  Answered c msg es id result =
      (All (λ e. e.msg_id ≢ id) es × (result ≡ some c))
      ⊎ ((i : ℕ) × (e : Entry J) × (outbox : MsgQueue J) × (get_elem? es i ≡ some e)
          × (e.msg_id ≡ id)
          × All (λ e'. e'.msg_id ≢ id) (take i es)
          × (result ≡ some (record (call_recv json ev e.func c msg) { outbox = outbox }))
          × (msg_queue_remove_ordered c.outbox i ≡ some outbox)
          × IsQueue outbox (erase_idx es i))

  answer_found-Answered :
      (c : Client J T) (msg : Option J) (es : List (Entry J)) (id : ℕ) (found : Option ℕ)
      → IsQueue c.outbox es
      → Answers es id found
      → Answered c msg es id (answer_found json ev c msg found)
  unfolding answer_found
  answer_found-Answered c msg es id none q a = inl (a, refl)
  answer_found-Answered c msg es id (some i) q (e, at, same, before) =
      let (outbox, ran, removed, q') = answer_at-erase_idx c msg es i e q at in
      inr (i, e, outbox, at, same, before, ran, removed, q')

  pub answer_id-Answered :
      (c : Client J T) (msg : Option J) (es : List (Entry J)) (id : ℕ)
      → IsQueue c.outbox es
      → Answered c msg es id (answer_id json ev c msg (some id))
  unfolding answer_id
  answer_id-Answered c msg es id q =
      let (found, searched, a) = msg_queue_find_by_msg_id-Answers c.outbox es id q in
      rw (searched, ◌>>=◌) (answer_found-Answered c msg es id found q a)

  -- A message without data and with an id, for a well-formed outbox: after the advice in it was
  -- taken, an answer with an unknown id changes nothing more, and one with the id of an entry
  -- calls the function of the first such entry and takes that entry alone out of the outbox. It
  -- never faults.
  pub on_msg_recv-Answered :
      (c : Client J T) (msg : Option J) (es : List (Entry J)) (id : ℕ)
      → IsQueue c.outbox es
      → json.object_get msg (codes "data") ≡ none
      → json_get_msg_id json msg ≡ some id
      → Answered (handle_advice json ev c msg) msg es id (on_msg_recv json ev c msg)
  unfolding on_msg_recv recv_answer
  on_msg_recv-Answered c msg es id q no_data got =
      rw (no_data, dispatch, recv_answer, got)
        (answer_id-Answered (handle_advice json ev c msg) msg es id
          (subst (λ o. IsQueue o es) (sym (handle_advice-SameStore c msg).outbox) q))
