-- ===== src/Client.antt =====
-- src/bayeux.c: the state of a client, and the libraries that it runs on.
--
-- The pointers to the transport and to the event base are not fields: the code never changes them
-- after `bayeux_client_create`. `effects` is no field of the C struct: it lists, in order, what the
-- client has asked of the outside.
pub mod Schedule
pub mod Ids
pub mod Messages
pub mod Channels
pub mod Connect
pub mod Receive
pub mod Flush
pub mod Api
pub mod Invariant
pub mod System
use libbayeux.Prelude.{ℕ, ◌≡◌, Bool, true, false, List, Option}
use libbayeux.Prelude.Int.{ℤ}
use libbayeux.Libc.{CString}
use libbayeux.Memory.{Block}
use libbayeux.Str.{Str}
use libbayeux.MsgQueue.{MsgQueue}

-- `EReconnect`
pub data Reconnect : Type 0 where
  reconnect_handshake reconnect_none reconnect_retry : Reconnect

-- `EState`
pub data State : Type 0 where
  unconnected connecting connected : State

pub record Advice : Type 0 where
  pub reconnect : Reconnect
  pub interval_ms : ℤ
  pub timeout_ms : ℤ

-- `callback` and `context` are pointers of the application.
pub record Subscription : Type 0 where
  pub callback : ℕ
  pub context : ℕ

pub record Channel : Type 0 where
  pub name : CString
  pub subscriptions : Block Subscription
  pub capacity : ℕ
  pub count : ℕ

-- A call of a subscription's callback, and a call of `transport_send`.
pub data Effect : Type 0 where
  called : Subscription → CString → Effect
  sent : Str → Effect

-- `struct timeval`
pub record Timeval : Type 0 where
  pub sec : ℤ
  pub usec : ℤ

-- libevent's timers, which are not part of the repository: a timer is a value of the parameter `T`.
pub record Timers (T : Type 0) : Type 0 where
  pub evtimer_new : T
  pub evtimer_pending : T → Bool
  pub evtimer_add : T → Timeval → T

-- What libevent documents of them.
pub record TimerLaws {T : Type 0} (ev : Timers T) : Type 0 where
  pub pending-new : ev.evtimer_pending ev.evtimer_new ≡ false
  pub pending-add : (t : T) (tv : Timeval) → ev.evtimer_pending (ev.evtimer_add t tv) ≡ true

-- `struct BayeuxClient`; `none` for `handshake_msg_index` is -1, and for `id` it is null.
pub record Client (J T : Type 0) : Type 0 where
  pub advice : Advice
  pub endpoint : CString
  pub id : Option CString
  pub batch_id : ℕ
  pub message_id : ℕ
  pub state : State
  pub ev_timeout_connect : T
  pub ev_timeout_flush : T
  pub ev_timeout_handshake : T
  pub owns_ev_base : Bool
  pub channels : Block Channel
  pub channel_capacity : ℕ
  pub channel_count : ℕ
  pub outbox : MsgQueue J
  pub handshake_msg_index : Option ℕ
  pub connect_msg_in_flight : Bool
  pub effects : List Effect
