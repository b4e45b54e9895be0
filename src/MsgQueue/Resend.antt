-- ===== src/MsgQueue/Resend.antt =====
-- The loop of `on_batch_send_err`, over the list of entries.
use libbayeux.Prelude.{
  ℕ, zero, suc, ◌+◌, ◌≡◌, refl, ap, ◌∙◌, List, [], ◌∷◌, map, Option, some, arith, length, ◌==◌,
  if◌then◌else◌, Option-cases, inl, inr, ◌>>=◌,
}
use libbayeux.Memory.{Block, load, store}
use libbayeux.Memory.Laws.{Holds}
use libbayeux.MsgQueue.{forget_at, forget_batch, batch_id_invalid, msg_id_invalid}
use libbayeux.MsgQueue.Entries.{Entry, msg_ids_of, batch_ids_of}

forget_at-shift :
    (c d : Option ℕ) (batch i : ℕ) (bs is : Block ℕ)
    → forget_at batch (suc i) (c ∷ bs, d ∷ is)
      ≡ (forget_at batch i (bs, is) >>= λ (bs', is'). some (c ∷ bs', d ∷ is'))
unfolding forget_at load store
forget_at-shift c d batch i bs is = ground arith

forget_batch-shift :
    (c d : Option ℕ) (batch rounds i : ℕ) (bs is : Block ℕ)
    → forget_batch batch rounds (suc i) (c ∷ bs, d ∷ is)
      ≡ (forget_batch batch rounds i (bs, is) >>= λ (bs', is'). some (c ∷ bs', d ∷ is'))
unfolding forget_batch
forget_batch-shift c d batch zero i bs is = refl
forget_batch-shift c d batch (suc rounds) i bs is =
    elim (Option-cases (forget_at batch i (bs, is))) [
      | inl e ↦ rw (forget_at-shift c d batch i bs is, e, ◌>>=◌)
      | inr ((bs', is'), e) ↦
          rw (forget_at-shift c d batch i bs is, e, ◌>>=◌)
            (ap (λ n. forget_batch batch rounds n (c ∷ bs', d ∷ is')) (omega arith)
              ∙ forget_batch-shift c d batch rounds (i + 1) bs' is')
    ]

module _ {J : Type 0} where
  -- an entry after its batch was reported lost
  abbrev pub requeued : ℕ → Entry J → Entry J
  requeued batch e =
      if e.batch_id == batch
      then record e { batch_id = batch_id_invalid; msg_id = msg_id_invalid }
      else e

  forget_first :
      (batch : ℕ) (e : Entry J) (c d : Option ℕ) (bs is : Block ℕ)
      → c ≡ some e.batch_id
      → d ≡ some e.msg_id
      → forget_at batch 0 (c ∷ bs, d ∷ is)
        ≡ some (some (requeued batch e).batch_id ∷ bs, some (requeued batch e).msg_id ∷ is)
  unfolding forget_at load store
  forget_first batch e c d bs is hc hd = ground arith

  pub forget_batch-requeued :
      (batch : ℕ) (es : List (Entry J)) (bs is : Block ℕ)
      → Holds (batch_ids_of es) bs
      → Holds (msg_ids_of es) is
      → (bs' is' : Block ℕ) × (forget_batch batch (length es) 0 (bs, is) ≡ some (bs', is'))
        × Holds (batch_ids_of (map (requeued batch) es)) bs'
        × Holds (msg_ids_of (map (requeued batch) es)) is'
        × (length bs' ≡ length bs)
        × (length is' ≡ length is)
  unfolding forget_batch
  forget_batch-requeued batch [] bs is hb hi = (bs, is, refl, tt, tt, refl, refl)
  forget_batch-requeued batch (e ∷ es) [] is hb hi = absurd hb.1
  forget_batch-requeued batch (e ∷ es) (c ∷ bs) [] hb hi = absurd hi.1
  forget_batch-requeued batch (e ∷ es) (c ∷ bs) (d ∷ is) hb hi =
      let (bs', is', done, hb', hi', lb, li) = forget_batch-requeued batch es bs is hb.1 hi.1 in
      (
        some (requeued batch e).batch_id ∷ bs',
        some (requeued batch e).msg_id ∷ is',
        rw
            (
              forget_first batch e c d bs is hb.0 hi.0,
              ◌>>=◌,
              forget_batch-shift (some (requeued batch e).batch_id) (some (requeued batch e).msg_id)
                  batch (length es) 0 bs is,
            )
            (rw (done, ◌>>=◌) refl),
        (refl, hb'),
        (refl, hi'),
        ap suc lb,
        ap suc li,
      )
