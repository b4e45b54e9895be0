-- ===== src/Client/Invariant.antt =====
-- The invariant of a client: its arrays hold entries and channels, its counters hold ids, and the
-- flag `connect_msg_in_flight` tells whether there is a connect message in the outbox.
pub mod Steps
pub mod Request
pub mod Handlers
pub mod Batch
pub mod Calls
pub mod Flushing
use libbayeux.Prelude.{
  ℕ, zero, suc, ◌+◌, ◌<◌, ◌≤◌, ◌≡◌, refl, Bool, true, false, List, [], ◌∷◌, ◌++◌, map, Option, some,
  arith, get_elem?, erase_idx, if◌then◌else◌,
}
use libbayeux.Libc.{CString}
use libbayeux.MsgQueue.{MsgQueue, RecvFunc}
use libbayeux.MsgQueue.Entries.{Entry, IsQueue}
use libbayeux.Client.{Client, Timers}
use libbayeux.Client.Ids.{IsId}
use libbayeux.Client.Channels.Table.{Table, HasTable}

abbrev pub connects : RecvFunc → ℕ
connects RecvFunc.recv_connect = 1
connects RecvFunc.recv_handshake = 0
connects RecvFunc.recv_publish = 0
connects RecvFunc.recv_subscribe = 0
connects RecvFunc.recv_unsubscribe = 0

-- the number of connect messages in the outbox
abbrev pub count_connects : {J : Type 0} → List (Entry J) → ℕ
count_connects [] = 0
count_connects (e ∷ es) = connects e.func + count_connects es

abbrev pub flag : Bool → ℕ
flag true = 1
flag false = 0

pub record IsClient {J T : Type 0} (c : Client J T) (es : List (Entry J)) (table : Table)
    : Type 0 where
  pub queue : IsQueue c.outbox es
  pub one_connect : count_connects es ≡ flag c.connect_msg_in_flight
  pub message_id : IsId c.message_id
  pub batch_id : IsId c.batch_id
  pub table_held : HasTable c table

module _ {J : Type 0} where
  pub count_connects-append :
      (es : List (Entry J)) (e : Entry J)
      → count_connects (es ++ (e ∷ [])) ≡ count_connects es + connects e.func
  count_connects-append [] e = omega arith
  count_connects-append (x ∷ es) e = omega (arith, count_connects-append es e)

  pub count_connects-erase_idx :
      (es : List (Entry J)) (i : ℕ) (e : Entry J)
      → get_elem? es i ≡ some e
      → count_connects (erase_idx es i) + connects e.func ≡ count_connects es
  count_connects-erase_idx [] i e h = cc
  count_connects-erase_idx (x ∷ es) zero e h = ground (arith)
  count_connects-erase_idx (x ∷ es) (suc i) e h = omega (arith, count_connects-erase_idx es i e h)
