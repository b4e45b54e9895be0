-- ===== src/MsgQueue/Pending.antt =====
-- The places of the entries can be read.
use libbayeux.Prelude.{ℕ, ◌<◌, List, arith, length, length-map}
use libbayeux.Memory.Cells.{IsCell, Holds-IsCell}
use libbayeux.MsgQueue.{MsgQueue}
use libbayeux.MsgQueue.Entries.{Entry, IsQueue, msgs_of, msg_ids_of}

module _ {J : Type 0} where
  -- The message and the message id at the index are written.
  pub record IsPending (q : MsgQueue J) (i : ℕ) : Type 0 where
    pub msg : IsCell q.msgs i
    pub msg_id : IsCell q.msg_ids i

  -- The entries of a queue can be read.
  pub entry-IsPending :
      (q : MsgQueue J) (es : List (Entry J)) (i : ℕ) → IsQueue q es → i < length es → IsPending q i
  entry-IsPending q es i v lt = record {
    msg =
        Holds-IsCell (msgs_of es) q.msgs i v.msgs
          (omega (arith, length-map (λ (e : Entry J). e.msg) es));
    msg_id =
        Holds-IsCell (msg_ids_of es) q.msg_ids i v.msg_ids
          (omega (arith, length-map (λ (e : Entry J). e.msg_id) es));
  }
