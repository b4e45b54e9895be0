-- ===== src/MsgQueue/Entries.antt =====
-- The abstract view of the outbox: one list of entries, oldest first.
use libbayeux.Prelude.{ℕ, ◌≤◌, ◌≡◌, refl, List, [], map, arith, length}
use libbayeux.Memory.Laws.{Holds, length-malloc}
use libbayeux.MsgQueue.{MsgQueue, RecvFunc, msg_queue_create}

pub record Entry (J : Type 0) : Type 0 where
  pub msg : J
  pub batch_id : ℕ
  pub msg_id : ℕ
  pub func : RecvFunc

module _ {J : Type 0} where
  abbrev pub msgs_of : List (Entry J) → List J
  msgs_of = map λ e. e.msg

  abbrev pub batch_ids_of : List (Entry J) → List ℕ
  batch_ids_of = map λ e. e.batch_id

  abbrev pub msg_ids_of : List (Entry J) → List ℕ
  msg_ids_of = map λ e. e.msg_id

  abbrev pub funcs_of : List (Entry J) → List RecvFunc
  funcs_of = map λ e. e.func

  -- The four arrays hold these entries side by side, within their common capacity.
  pub record IsQueue (q : MsgQueue J) (es : List (Entry J)) : Type 0 where
    pub count : q.count ≡ length es
    pub within : length es ≤ q.capacity
    pub msgs : Holds (msgs_of es) q.msgs
    pub batch_ids : Holds (batch_ids_of es) q.batch_ids
    pub msg_ids : Holds (msg_ids_of es) q.msg_ids
    pub funcs : Holds (funcs_of es) q.funcs
    pub msgs_size : length q.msgs ≡ q.capacity
    pub batch_ids_size : length q.batch_ids ≡ q.capacity
    pub msg_ids_size : length q.msg_ids ≡ q.capacity
    pub funcs_size : length q.funcs ≡ q.capacity

-- A new queue has no entry.
pub create-IsQueue : (J : Type 0) → IsQueue (msg_queue_create J) []
unfolding msg_queue_create
create-IsQueue J = record {
  count = refl;
  within = omega arith;
  msgs = tt;
  batch_ids = tt;
  msg_ids = tt;
  funcs = tt;
  msgs_size = length-malloc J 64;
  batch_ids_size = length-malloc ℕ 64;
  msg_ids_size = length-malloc ℕ 64;
  funcs_size = length-malloc RecvFunc 64;
}
