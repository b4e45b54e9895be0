-- ===== src/Transport/Libs.antt =====
-- libcurl and libevent, as far as the long-polling transport calls them. They are not part of the
-- repository: their states are parameters, and what is assumed of them is in the two records of
-- laws. The constants are those of their headers.
use libbayeux.Prelude.{ℕ, ◌≡◌, ◌≢◌, List, [], ◌∷◌, Option, none, some, Bool, All}
use libbayeux.Prelude.Int.{ℤ}
use libbayeux.Libc.{CString}
use libbayeux.Client.{Timers}

abbrev pub curl_poll_in : ℕ
curl_poll_in = 1

abbrev pub curl_poll_out : ℕ
curl_poll_out = 2

abbrev pub curl_poll_remove : ℕ
curl_poll_remove = 4

abbrev pub curl_cselect_in : ℕ
curl_cselect_in = 1

abbrev pub curl_cselect_out : ℕ
curl_cselect_out = 2

abbrev pub ev_read : ℕ
ev_read = 2

abbrev pub ev_write : ℕ
ev_write = 4

abbrev pub ev_persist : ℕ
ev_persist = 16

-- `CURLMsg`: whether it is `CURLMSG_DONE`, and whose it is
pub record CurlMsg (K : Type 0) : Type 0 where
  pub is_done : Bool
  pub easy_handle : K

-- the options of an easy handle; `CURLOPT_PRIVATE` and `CURLOPT_WRITEDATA` are the same pointer
pub record Options : Type 0 where
  pub copypostfields : CString
  pub httpheader : List CString
  pub private_data : ℕ
  pub url : CString

-- A call of libcurl back to the program.
pub data CurlCall : Type 0 where
  socket_call : ℕ → ℕ → CurlCall
  timer_call : ℤ → CurlCall
  write_call : ℕ → CString → ℕ → ℕ → CurlCall

-- What `curl_multi_socket_action` does: the calls that it makes, in order, the number of transfers
-- that are still running, and the state after it.
pub record Action (M : Type 0) : Type 0 where
  pub calls : List CurlCall
  pub running : ℤ
  pub after : M

-- libcurl with its state `M`, the multi handle and the easy handles `K`. A socket that is none is
-- `CURL_SOCKET_TIMEOUT`. `socket_data` is the pointer that a socket's callback is given.
-- `multi_cleanup` too may call back, for the sockets that it closes, and `multi_add_handle` may call
-- the timer's callback: it gives the timeout of that call, if there is one.
pub record Curl (M K : Type 0) : Type 0 where
  pub multi_init : M
  pub multi_cleanup : M → List CurlCall × M
  pub easy_init : M → Option K × M
  pub easy_setopt : M → K → Options → M
  pub easy_getinfo_private : M → K → ℕ
  pub easy_cleanup : M → K → M
  pub multi_add_handle : M → K → Option ℤ × M
  pub multi_remove_handle : M → K → M
  pub multi_info_read : M → Option (CurlMsg K) × M
  pub multi_socket_action : M → Option ℕ → ℕ → Action M
  pub multi_assign : M → ℕ → ℕ → M
  pub socket_data : M → ℕ → Option ℕ

-- libevent: the base `E`, on which an event is a number, and the timers.
pub record Events (E T : Type 0) : Type 0 where
  pub event_new : E → ℕ → ℕ → ℕ × E
  pub event_add : E → ℕ → E
  pub event_del : E → ℕ → E
  pub timers : Timers T
  pub evtimer_del : T → T

-- The messages that libcurl has queued are read one by one, first in first out. To remove a handle
-- takes away no message of another handle, and to assign a pointer to a socket none at all.
pub record CurlLaws {M K : Type 0} (curl : Curl M K) (waiting : M → List (CurlMsg K)) : Type 0 where
  pub read_none : (m : M) → waiting m ≡ [] → curl.multi_info_read m ≡ (none, m)
  pub read_some :
      (m : M) (msg : CurlMsg K) (msgs : List (CurlMsg K))
      → waiting m ≡ msg ∷ msgs
      → (m' : M) × (curl.multi_info_read m ≡ (some msg, m'))
        × (waiting m' ≡ msgs)
        × ((k : K) → curl.easy_getinfo_private m' k ≡ curl.easy_getinfo_private m k)
  pub waiting_removed :
      (m : M) (k : K)
      → All (λ msg. msg.easy_handle ≢ k) (waiting m)
      → waiting (curl.easy_cleanup (curl.multi_remove_handle m k) k) ≡ waiting m
  pub private_removed :
      (m : M) (k j : K)
      → j ≢ k
      → curl.easy_getinfo_private (curl.easy_cleanup (curl.multi_remove_handle m k) k) j
        ≡ curl.easy_getinfo_private m j
  pub data_assigned : (m : M) (s p : ℕ) → curl.socket_data (curl.multi_assign m s p) s ≡ some p
  pub waiting_assigned : (m : M) (s p : ℕ) → waiting (curl.multi_assign m s p) ≡ waiting m
  pub private_assigned :
      (m : M) (s p : ℕ) (k : K)
      → curl.easy_getinfo_private (curl.multi_assign m s p) k ≡ curl.easy_getinfo_private m k

-- `watched e p` is the descriptor and the kind that an added event waits for.
pub record EventLaws {E T : Type 0} (ev : Events E T) (watched : E → ℕ → Option (ℕ × ℕ))
    : Type 0 where
  pub new_added :
      (e : E) (fd kind : ℕ)
      → watched
          (ev.event_add (ev.event_new e fd kind).1 (ev.event_new e fd kind).0)
          (ev.event_new e fd kind).0
        ≡ some (fd, kind)
  pub new_others : (e : E) (fd kind q : ℕ) → watched (ev.event_new e fd kind).1 q ≡ watched e q
  pub add_others : (e : E) (p q : ℕ) → q ≢ p → watched (ev.event_add e p) q ≡ watched e q
  pub del_this : (e : E) (p : ℕ) → watched (ev.event_del e p) p ≡ none
  pub del_others : (e : E) (p q : ℕ) → q ≢ p → watched (ev.event_del e p) q ≡ watched e q
