-- ===== src/Transport/Sockets.antt =====
-- The sockets and the timer that libcurl asks for.
use libbayeux.Prelude.{
  ℕ, ◌+◌, ◌*◌, ◌/◌, ◌%◌, ◌<◌, ◌≡◌, refl, sym, subst, ◌⊎◌, [], ◌∷◌, ◌++◌, Option, some, none, length,
  arith, set, ◌==◌, ==_iff, ==_ne, if◌then◌else◌, ◌>>=◌, ℕ_discrete,
}
use libbayeux.Prelude.Int.{pos}
use libbayeux.Memory.{Block, load}
use libbayeux.Memory.Cells.{cell-lt-length}
use libbayeux.Memory.Laws.{load-set}
use libbayeux.Transport.Libs.{Curl, Events, EventLaws, curl_poll_remove}
use libbayeux.Transport.LongPolling.{
  Http, SocketInfo, release, socket_kind, del_event, socket_destroy, on_curl_multi_socket,
  on_curl_multi_timer,
}

module _ {A : Type 0} where
  pub load_end : (b : Block A) (v : Option A) → load (b ++ (v ∷ [])) (length b) ≡ v
  unfolding load
  load_end [] v = refl
  load_end (c ∷ b) v = load_end b v

-- what is watched when this event, if it is one, was deleted
abbrev pub without : {A : Type 0} → Option ℕ → ℕ → Option A → Option A
without none q w = w
without (some event) q w = if q == event then none else w

module _ {E T : Type 0} (ev : Events E T) (watched : E → ℕ → Option (ℕ × ℕ))
    (laws : EventLaws ev watched) where
  del_event-without :
      (old : Option ℕ) (base : E) (q : ℕ)
      → watched (del_event ev old base) q ≡ without old q (watched base q)
  del_event-without none base q = refl
  del_event-without (some event) base q = elim (ℕ_discrete q event) [
    | yes e ↦
        rw ((==_iff q event).1 e) (
          subst (λ p. watched (ev.event_del base event) p ≡ none) (sym e)
            (laws.del_this base event))
    | no ne ↦ rw (==_ne q event ne) (laws.del_others base event q ne)
  ]

-- The socket's event is added, and waits for what libcurl wants to know of the socket.
pub record Watches {M E T J : Type 0} (watched : E → ℕ → Option (ℕ × ℕ)) (http : Http M E T J)
    (sock s what event : ℕ) : Type 0 where
  pub info : load http.sockets sock ≡ some (record { sock_fd = s; action = what; ev = some event })
  pub waits : watched http.ev_base event ≡ some (s, socket_kind what)

module _ {M K E T J : Type 0} (curl : Curl M K) (ev : Events E T) (watched : E → ℕ → Option (ℕ × ℕ))
    (laws : EventLaws ev watched) where
  -- What a socket has after an update, and that of the other events only its old one is gone.
  abbrev pub Updated : Http M E T J → Option ℕ → ℕ → ℕ → ℕ → ℕ → Http M E T J → Type 0
  Updated http old s what q sock http' =
      (event : ℕ) × Watches watched http' sock s what event
      × ((q ≡ event) ⊎ (watched http'.ev_base q ≡ without old q (watched http.ev_base q)))

  -- the event that a socket has before the call
  abbrev pub event_of : Http M E T J → Option ℕ → Option ℕ
  event_of http none = none
  event_of http (some sock) = load http.sockets sock >>= λ info. info.ev

  -- a pointer that libcurl may pass: null, or that of a socket that is not freed
  abbrev pub IsSocket : Http M E T J → Option ℕ → Type 0
  IsSocket http none = Unit
  IsSocket http (some sock) = (info : SocketInfo) × (load http.sockets sock ≡ some info)

  -- A new socket's cell is the first behind the others, and libcurl has it as the socket's data.
  abbrev pub IsCreated : Http M E T J → ℕ → ℕ → Http M E T J → Type 0
  IsCreated http s p http' =
      (p ≡ length http.sockets) × (curl.socket_data http'.curl_multi s ≡ some p)

  -- A libevent with its laws, and a socket that libcurl removes: its `SocketInfo` is freed and its
  -- event deleted, and all other events are watched as before.
  pub on_curl_multi_socket-socket_destroy :
      (http : Http M E T J) (s q sock : ℕ) (info : SocketInfo)
      → load http.sockets sock ≡ some info
      → (http' : Http M E T J) × (on_curl_multi_socket curl ev http s curl_poll_remove (some sock)
          ≡ some http')
        × (load http'.sockets sock ≡ none)
        × (watched http'.ev_base q ≡ without info.ev q (watched http.ev_base q))
  unfolding on_curl_multi_socket socket_destroy release
  on_curl_multi_socket-socket_destroy http s q sock info at = (
    record http {
      ev_base = del_event ev info.ev http.ev_base;
      sockets = set http.sockets sock none;
    },
    rw (at, ◌>>=◌) refl,
    load-set http.sockets sock none (cell-lt-length http.sockets sock (info, at)),
    del_event-without ev watched laws info.ev http.ev_base q,
  )

module _ {M K E T J : Type 0} (curl : Curl M K) (ev : Events E T) where
  -- For a timeout that is not negative, libcurl's timer is set to exactly that time, with fewer than
  -- a million microseconds beside the seconds, and nothing else changes.
  pub on_curl_multi_timer_lem :
      (http : Http M E T J) (ms : ℕ)
      → (sec : ℕ) × (usec : ℕ) × (on_curl_multi_timer curl ev http (pos ms) ≡ record http {
        ev_timer = ev.timers.evtimer_add http.ev_timer (record { sec = pos sec; usec = pos usec });
      })
        × (sec * 1000000 + usec ≡ ms * 1000)
        × (usec < 1000000)
  unfolding on_curl_multi_timer
  on_curl_multi_timer_lem http ms = (ms / 1000, ms % 1000 * 1000, refl, omega arith, omega arith)
