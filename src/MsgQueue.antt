-- ===== src/MsgQueue.antt =====
-- src/bayeux.c, `MsgQueue`: the outbox of a client, four arrays of one capacity side by side.
-- The counts are `int`s that stay far below 2 ^ 31. `none` is undefined behaviour: an access outside
-- an array or of a cell that was never written. Every `malloc` and `realloc` is granted: this file
-- of the program tests none of them.
pub mod Entries
pub mod Append
pub mod Remove
pub mod Search
pub mod Resend
pub mod Update
pub mod Pending
use libbayeux.Prelude.{
  set, ℕ, zero, suc, ◌+◌, ◌-◌, Bool, List, [], ◌∷◌, Option, none, some, ltb, leb, ◌==◌,
  if◌then◌else◌, ◌>>=◌,
}
use libbayeux.Memory.{Block, malloc, realloc, load, store, memmove}

abbrev pub batch_id_invalid : ℕ
batch_id_invalid = 0xffffffff

abbrev pub msg_id_invalid : ℕ
msg_id_invalid = 0xffffffff

-- A `RecvFunc` is a pointer to one of these functions.
pub data RecvFunc : Type 0 where
  recv_connect recv_handshake recv_publish recv_subscribe recv_unsubscribe : RecvFunc

pub record MsgQueue (J : Type 0) : Type 0 where
  pub msgs : Block J
  pub batch_ids : Block ℕ
  pub msg_ids : Block ℕ
  pub funcs : Block RecvFunc
  pub capacity : ℕ
  pub count : ℕ

-- The loop of `msg_queue_find_by_msg_id` with `rounds` rounds left; the inner `none` is -1.
unfoldable pub find_from : Block ℕ → ℕ → ℕ → ℕ → Option (Option ℕ)
find_from ids id zero index = some none
find_from ids id (suc rounds) index =
    let rest = find_from ids id rounds (index + 1) in
    load ids index >>= λ msg_id. if id == msg_id then some (some index) else rest

-- One round of the loop of `on_batch_send_err`, over the arrays of batch and message ids.
unfoldable pub forget_at : ℕ → ℕ → Block ℕ × Block ℕ → Option (Block ℕ × Block ℕ)
forget_at batch_id index (batch_ids, msg_ids) = do
  sent ← load batch_ids index
  let cleared : Option (Block ℕ × Block ℕ) = do
    batch_ids' ← store batch_ids index batch_id_invalid
    msg_ids' ← store msg_ids index msg_id_invalid
    some (batch_ids', msg_ids')
  if sent == batch_id then cleared else some (batch_ids, msg_ids)

-- That loop with `rounds` rounds left.
unfoldable pub forget_batch : ℕ → ℕ → ℕ → Block ℕ × Block ℕ → Option (Block ℕ × Block ℕ)
forget_batch batch_id zero index ids = some ids
forget_batch batch_id (suc rounds) index ids = do
  ids' ← forget_at batch_id index ids
  forget_batch batch_id rounds (index + 1) ids'

module _ {J : Type 0} where
  -- The queue grows by 64 places when it is full.
  unfoldable pub make_room : MsgQueue J → MsgQueue J
  make_room queue =
      let capacity = queue.count + 64 in
      if leb queue.capacity queue.count
      then record {
        msgs = realloc queue.msgs capacity;
        batch_ids = realloc queue.batch_ids capacity;
        msg_ids = realloc queue.msg_ids capacity;
        funcs = realloc queue.funcs capacity;
        capacity = capacity;
        count = queue.count;
      }
      else queue

  -- The new queue stands beside the index that the call returns.
  unfoldable pub msg_queue_push : MsgQueue J → J → RecvFunc → Option (ℕ × MsgQueue J)
  msg_queue_push full msg func = do
    let queue = make_room full
    let idx = queue.count
    msgs ← store queue.msgs idx msg
    batch_ids ← store queue.batch_ids idx batch_id_invalid
    msg_ids ← store queue.msg_ids idx msg_id_invalid
    funcs ← store queue.funcs idx func
    some (
      idx,
      record {
        msgs = msgs;
        batch_ids = batch_ids;
        msg_ids = msg_ids;
        funcs = funcs;
        capacity = queue.capacity;
        count = idx + 1;
      },
    )

  -- the four `memmove`s
  unfoldable pub move_down : MsgQueue J → ℕ → ℕ → Option (MsgQueue J)
  move_down queue remove_index move_count = do
    msgs ← memmove queue.msgs remove_index (suc remove_index) move_count
    batch_ids ← memmove queue.batch_ids remove_index (suc remove_index) move_count
    msg_ids ← memmove queue.msg_ids remove_index (suc remove_index) move_count
    funcs ← memmove queue.funcs remove_index (suc remove_index) move_count
    some (record queue { msgs = msgs; batch_ids = batch_ids; msg_ids = msg_ids; funcs = funcs })

  -- The read of `msgs[remove_index]` is for the reference that the queue gives back, the last one to
  -- that document. The callers pass an index below `count`, so that `--count` stays above 0. The place
  -- behind the last entry keeps a pointer: to the freed document, if the last entry was removed, or
  -- else a second one to the document of the entry that is now last, which is freed with that entry.
  -- Nothing may rely on it, and here it cannot be read.
  unfoldable pub msg_queue_remove_ordered : MsgQueue J → ℕ → Option (MsgQueue J)
  msg_queue_remove_ordered queue remove_index = do
    msg ← load queue.msgs remove_index
    let move_count = queue.count - remove_index - 1
    let moved = move_down queue remove_index move_count
    queue' ← if ltb remove_index (queue.count - 1) then moved else some queue
    some (record queue' { msgs = set queue'.msgs (queue.count - 1) none; count = queue.count - 1 })

  unfoldable pub msg_queue_find_by_msg_id : MsgQueue J → ℕ → Option (Option ℕ)
  msg_queue_find_by_msg_id queue id = find_from queue.msg_ids id queue.count 0

module _ (J : Type 0) where
  unfoldable pub msg_queue_create : MsgQueue J
  msg_queue_create = record {
    msgs = malloc 64;
    batch_ids = malloc 64;
    msg_ids = malloc 64;
    funcs = malloc 64;
    capacity = 64;
    count = 0;
  }

  -- `memset(queue, 0, …)`: no array is left
  unfoldable pub msg_queue_destroy : MsgQueue J → MsgQueue J
  msg_queue_destroy queue = record {
    msgs = [];
    batch_ids = [];
    msg_ids = [];
    funcs = [];
    capacity = 0;
    count = 0;
  }
