-- ===== src/Client/Flush/Loop.antt =====
-- The loop of `msg_queue_flush`, against the list of entries.
use libbayeux.Prelude.{
  ℕ, suc, ◌+◌, ◌^◌, ◌<◌, ◌≡◌, refl, sym, ap, ◌∙◌, true, List, [], ◌∷◌, ◌++◌, some, arith, length,
  ltb, dec_lt, lt→ltb, le→ltb, ◌==◌, if◌then◌else◌, length-append, append_assoc, Bool-cases, inl,
  inr, ◌>>=◌,
}
use libbayeux.Libc.{CString, codes}
use libbayeux.Memory.{load}
use libbayeux.Str.{Str, str_cat, str_len}
use libbayeux.Str.Growth.{IsText}
use libbayeux.Str.Append.{str_cat-append}
use libbayeux.Json.{JsonC}
use libbayeux.MsgQueue.{MsgQueue, msg_id_invalid}
use libbayeux.MsgQueue.Entries.{Entry, IsQueue}
use libbayeux.MsgQueue.Update.{load_at}
use libbayeux.Client.{Client}
use libbayeux.Client.Schedule.{bump}
use libbayeux.Client.Flush.{assign_ids, flush_msg, flush_from}
use libbayeux.Client.Flush.Spec.{
  spec_queued, spec_in_flight, stamped, flushed, outgoing, next_after, separated, accumulated,
  length-accumulated, length-separated,
}
use libbayeux.Client.Flush.Assign.{assign_ids-stamped}

-- The comma in front of a message.
add_comma :
    (s : Str) (text : CString)
    → IsText s text
    → length text + 1 + 1 + 2047 < 2 ^ 32
    → (t : Str) × ((if ltb 1 (str_len s) then str_cat true s (codes ",") else some s) ≡ some t)
      × IsText t (separated text)
unfolding str_len
add_comma s text v h = elim (dec_lt 1 (length text)) [
  | yes long ↦
      let (t, e, w) = str_cat-append s text (codes ",") v h in
      (t, rw (lt→ltb 1 s.len (omega (arith, v.count))) e, rw (lt→ltb 1 (length text) long) w)
  | no short ↦
      (s, rw (le→ltb 1 s.len (omega (arith, v.count))), rw (le→ltb 1 (length text) (omega arith)) v)
]

module _ {J T : Type 0} (json : JsonC J) where
  flush_msg_steps :
      (s s1 s2 : Str) (c c1 : Client J T) (batch i : ℕ) (msg : J)
      → assign_ids json c batch i ≡ some (msg, c1)
      → (if ltb 1 (str_len s) then str_cat true s (codes ",") else some s) ≡ some s1
      → str_cat true s1 (json.to_json_string msg) ≡ some s2
      → flush_msg json s c batch i ≡ some (s2, c1)
  unfolding flush_msg
  flush_msg_steps s s1 s2 c c1 batch i msg assigned comma encoded =
      rw (assigned, ◌>>=◌, comma, ◌>>=◌, encoded, ◌>>=◌) refl

  flush_msg-stamped :
      (s : Str) (text : CString) (c : Client J T) (batch : ℕ) (before : List (Entry J))
      (e : Entry J) (rest : List (Entry J))
      → IsText s text
      → IsQueue c.outbox (before ++ (e ∷ rest))
      → length (separated text ++ json.to_json_string (stamped json c.id batch c.message_id e).msg)
          + 2049
        < 2 ^ 32
      → (t : Str) × (outbox : MsgQueue J) × (flush_msg json s c batch (length before)
          ≡ some (t, record c { message_id = bump msg_id_invalid c.message_id; outbox = outbox }))
        × IsText t
            (separated text ++ json.to_json_string (stamped json c.id batch c.message_id e).msg)
        × IsQueue outbox (before ++ (stamped json c.id batch c.message_id e ∷ rest))
  flush_msg-stamped s text c batch before e rest v q h =
      let new = stamped json c.id batch c.message_id e in
      let (outbox, assigned, w) = assign_ids-stamped json c batch before e rest q in
      let (s1, comma, v1) =
        add_comma s text v (omega (arith, length-separated text (json.to_json_string new.msg))) in
      let (s2, encoded, v2) =
        str_cat-append s1 (separated text) (json.to_json_string new.msg) v1
          (omega (arith, length-append (separated text) (json.to_json_string new.msg))) in
      (
        s2,
        outbox,
        flush_msg_steps s s1 s2 c
            (record c { message_id = bump msg_id_invalid c.message_id; outbox = outbox }) batch
            (length before) new.msg assigned comma encoded,
        v2,
        w,
      )

  flush_from_step :
      (s s1 : Str) (c c1 : Client J T) (batch n i id : ℕ)
      → load c.outbox.msg_ids i ≡ some id
      → (if id == msg_id_invalid then flush_msg json s c batch i else some (s, c)) ≡ some (s1, c1)
      → flush_from json s c batch (suc n) i ≡ flush_from json s1 c1 batch n (i + 1)
  unfolding flush_from
  flush_from_step s s1 c c1 batch n i id read round = rw (read, ◌>>=◌, round, ◌>>=◌) refl

  -- the outcome of the loop: the text that it has built, and the entries that it has stamped
  abbrev Flushes : Str → CString → Client J T → ℕ → List (Entry J) → List (Entry J) → Type 0
  Flushes s text c batch before es =
      (t : Str) × (outbox : MsgQueue J) × (flush_from json s c batch (length es) (length before)
        ≡ some (t, record c { message_id = next_after c.message_id es; outbox = outbox }))
      × IsText t (accumulated text (outgoing json c.id batch c.message_id es))
      × IsQueue outbox (before ++ flushed json c.id batch c.message_id es)

  -- A place further: an entry that has been dealt with counts among those before.
  shifted :
      (s : Str) (text : CString) (c : Client J T) (batch : ℕ) (before : List (Entry J))
      (e : Entry J) (es : List (Entry J))
      → Flushes s text c batch (before ++ (e ∷ [])) es
      → (t : Str) × (outbox : MsgQueue J) × (flush_from json s c batch
            (length es)
            (length before + 1)
          ≡ some (t, record c { message_id = next_after c.message_id es; outbox = outbox }))
        × IsText t (accumulated text (outgoing json c.id batch c.message_id es))
        × IsQueue outbox (before ++ (e ∷ flushed json c.id batch c.message_id es))
  shifted s text c batch before e es (t, outbox, run, v, q) = (
    t,
    outbox,
    rw (sym (length-append before (e ∷ []))) run,
    v,
    rw (append_assoc before (e ∷ []) (flushed json c.id batch c.message_id es)) at q,
  )

  flush_from_end :
      (s : Str) (text : CString) (c : Client J T) (batch : ℕ) (before : List (Entry J))
      → IsText s text
      → IsQueue c.outbox (before ++ [])
      → Flushes s text c batch before []
  unfolding flush_from next_after outgoing flushed
  flush_from_end s text c batch before v q = (s, c.outbox, refl, v, q)

  pub flush_from-Flushes :
      (s : Str) (text : CString) (c : Client J T) (batch : ℕ) (before es : List (Entry J))
      → IsText s text
      → IsQueue c.outbox (before ++ es)
      → length (accumulated text (outgoing json c.id batch c.message_id es)) + 2049 < 2 ^ 32
      → Flushes s text c batch before es
  flush_from-Flushes s text c batch before [] v q h = flush_from_end s text c batch before v q
  flush_from-Flushes s text c batch before (e ∷ es) v q h =
      elim (Bool-cases (e.msg_id == msg_id_invalid)) [
        | inl queued ↦
            let spec = spec_queued json c.id batch c.message_id e es queued in
            let new = stamped json c.id batch c.message_id e in
            let fits = ap (λ ts. length (accumulated text ts)) spec.1 in
            let (s1, outbox, encoded, v1, q1) = flush_msg-stamped s text c batch before e es v q (
              omega (
                arith,
                fits,
                length-accumulated (separated text ++ json.to_json_string new.msg)
                    (outgoing json c.id batch (bump msg_id_invalid c.message_id) es),
              )) in
            let c1 = record c { message_id = bump msg_id_invalid c.message_id; outbox = outbox } in
            let (t, outbox', run, v2, q2) =
              shifted s1 (separated text ++ json.to_json_string new.msg) c1 batch before new es (
                flush_from-Flushes s1 (separated text ++ json.to_json_string new.msg) c1 batch
                  (before ++ (new ∷ [])) es v1 (rw (append_assoc before (new ∷ []) es) q1)
                  (omega (arith, fits))) in
            rw (spec.0, spec.1, spec.2)
              (
                t,
                outbox',
                flush_from_step s s1 c c1 batch (length es) (length before) e.msg_id
                      (load_at (λ (e : Entry J). e.msg_id) before e es c.outbox.msg_ids q.msg_ids)
                      (rw queued encoded)
                    ∙ run,
                v2,
                q2,
              )
        | inr sent ↦
            let spec = spec_in_flight json c.id batch c.message_id e es sent in
            let fits = ap (λ ts. length (accumulated text ts)) spec.1 in
            let (t, outbox', run, v2, q2) = shifted s text c batch before e es (
              flush_from-Flushes s text c batch (before ++ (e ∷ [])) es v
                (rw (append_assoc before (e ∷ []) es) q) (omega (arith, fits))) in
            rw (spec.0, spec.1, spec.2)
              (
                t,
                outbox',
                flush_from_step s s c c batch (length es) (length before) e.msg_id
                      (load_at (λ (e : Entry J). e.msg_id) before e es c.outbox.msg_ids q.msg_ids)
                      (rw sent refl)
                    ∙ run,
                v2,
                q2,
              )
      ]
