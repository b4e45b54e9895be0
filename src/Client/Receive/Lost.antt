-- ===== src/Client/Receive/Lost.antt =====
-- `on_batch_send_err`, against the list of entries.
use libbayeux.Prelude.{
  ℕ, ◌≡◌, ◌≢◌, ◌⊎◌, refl, ap, ap₂, ◌∙◌, List, [], ◌∷◌, map, Option, some, arith, ◌==◌, All,
  Bool-cases, inl, inr, ◌>>=◌, length-map,
}
use libbayeux.Libc.{CString}
use libbayeux.Memory.{Block}
use libbayeux.Json.{JsonC}
use libbayeux.MsgQueue.{MsgQueue, forget_batch, batch_id_invalid, msg_id_invalid}
use libbayeux.MsgQueue.Entries.{Entry, IsQueue}
use libbayeux.MsgQueue.Resend.{requeued, forget_batch-requeued}
use libbayeux.Client.{Client, Timers}
use libbayeux.Client.Schedule.{bump, schedule_flush}
use libbayeux.Client.Flush.Spec.{stamped, flushed, spec_queued, spec_in_flight}
use libbayeux.Client.Receive.{on_batch_send_err}

module _ {J : Type 0} where
  map-requeued {ℓ} :
      {A : Type ℓ} (f : Entry J → A) (batch : ℕ) (es : List (Entry J))
      → ((e : Entry J) → f (requeued batch e) ≡ f e)
      → map f (map (requeued batch) es) ≡ map f es
  map-requeued f batch [] h = refl
  map-requeued f batch (e ∷ es) h = ap₂ ◌∷◌ (h e) (map-requeued f batch es h)

  msg-requeued : (batch : ℕ) (e : Entry J) → (requeued batch e).msg ≡ e.msg
  msg-requeued batch e = ground arith

  func-requeued : (batch : ℕ) (e : Entry J) → (requeued batch e).func ≡ e.func
  func-requeued batch e = ground arith

module _ {J T : Type 0} (ev : Timers T) where
  send_err_steps :
      (c : Client J T) (batch : ℕ) (bs is : Block ℕ)
      → forget_batch batch c.outbox.count 0 (c.outbox.batch_ids, c.outbox.msg_ids) ≡ some (bs, is)
      → on_batch_send_err ev c batch
        ≡ some (
            schedule_flush ev
              (record c { outbox = record c.outbox { batch_ids = bs; msg_ids = is } }))
  unfolding on_batch_send_err
  send_err_steps c batch bs is ran = rw (ran, ◌>>=◌) refl

  pub on_batch_send_err-requeued :
      (c : Client J T) (es : List (Entry J)) (batch : ℕ)
      → IsQueue c.outbox es
      → (outbox : MsgQueue J) × (on_batch_send_err ev c batch
          ≡ some (schedule_flush ev (record c { outbox = outbox })))
        × IsQueue outbox (map (requeued batch) es)
  on_batch_send_err-requeued c es batch q =
      let (bs, is, ran, hb, hi, lb, li) =
        forget_batch-requeued batch es c.outbox.batch_ids c.outbox.msg_ids q.batch_ids q.msg_ids in
      let len = length-map (requeued batch) es in
      (
        record c.outbox { batch_ids = bs; msg_ids = is },
        send_err_steps c batch bs is
            (ap (λ n. forget_batch batch n 0 (c.outbox.batch_ids, c.outbox.msg_ids)) q.count ∙ ran),
        record {
          count = omega (arith, q.count, len);
          within = omega (arith, q.within, len);
          msgs = rw (map-requeued (λ (e : Entry J). e.msg) batch es (msg-requeued batch)) q.msgs;
          batch_ids = hb;
          msg_ids = hi;
          funcs =
              rw (map-requeued (λ (e : Entry J). e.func) batch es (func-requeued batch)) q.funcs;
          msgs_size = q.msgs_size;
          batch_ids_size = lb ∙ q.batch_ids_size;
          msg_ids_size = li ∙ q.msg_ids_size;
          funcs_size = q.funcs_size;
        },
      )

-- An entry is either queued, with neither id, or in flight in another batch than this.
abbrev pub IsSettled : {J : Type 0} → ℕ → Entry J → Type 0
IsSettled batch e =
    ((e.msg_id ≡ msg_id_invalid) × (e.batch_id ≡ batch_id_invalid))
    ⊎ ((e.msg_id ≢ msg_id_invalid) × (e.batch_id ≢ batch))

-- the ids of an entry
abbrev pub ids : {J : Type 0} → Entry J → ℕ × ℕ
ids e = (e.batch_id, e.msg_id)

module _ {J : Type 0} (json : JsonC J) where
  ids-requeued-stamped :
      (client_id : Option CString) (batch next : ℕ) (e : Entry J)
      → IsSettled batch e
      → e.msg_id ≡ msg_id_invalid
      → ids (requeued batch (stamped json client_id batch next e)) ≡ ids e
  ids-requeued-stamped client_id batch next e h queued = ground arith

  ids-requeued_in_flight :
      (batch : ℕ) (e : Entry J)
      → IsSettled batch e
      → e.msg_id ≢ msg_id_invalid
      → ids (requeued batch e) ≡ ids e
  ids-requeued_in_flight batch e h in_flight = ground arith

  flushed_nil :
      (client_id : Option CString) (batch next : ℕ)
      → map ids (map (requeued batch) (flushed json client_id batch next [])) ≡ []
  unfolding flushed
  flushed_nil client_id batch next = refl

  -- A flush followed by the report that its batch was lost restores the ids of every entry: exactly
  -- the messages that were queued before are queued again, and none that was in flight.
  pub requeued-flushed :
      (client_id : Option CString) (batch next : ℕ) (es : List (Entry J))
      → All (IsSettled batch) es
      → map ids (map (requeued batch) (flushed json client_id batch next es)) ≡ map ids es
  requeued-flushed client_id batch next [] h = flushed_nil client_id batch next
  requeued-flushed client_id batch next (e ∷ es) h =
      elim (Bool-cases (e.msg_id == msg_id_invalid)) [
        | inl queued ↦ rw (spec_queued json client_id batch next e es queued).2 (
            ap₂ ◌∷◌ (ids-requeued-stamped client_id batch next e h.0 (ground arith))
              (requeued-flushed client_id batch (bump msg_id_invalid next) es h.1))
        | inr sent ↦ rw (spec_in_flight json client_id batch next e es sent).2 (
            ap₂ ◌∷◌ (ids-requeued_in_flight batch e h.0 (ground arith))
              (requeued-flushed client_id batch next es h.1))
      ]
