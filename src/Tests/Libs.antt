-- ===== src/Tests/Libs.antt =====
-- Instances of libcurl and libevent that keep their laws.
use libbayeux.Prelude.{
  ℕ, ◌+◌, refl, ap, List, [], ◌∷◌, Option, none, some, ◌==◌, ==_iff, ==_ne, if◌then◌else◌,
}
use libbayeux.Prelude.Int.{pos}
use libbayeux.Client.{Timeval}
use libbayeux.Transport.Libs.{Curl, CurlMsg, CurlCall, CurlLaws, Events, EventLaws}
use libbayeux.Tests.Base.{clock}

-- a multi handle: its messages, and the data of the sockets
pub record Multi : Type 0 where
  pub messages : List (CurlMsg ℕ)
  pub socket_data : ℕ → Option ℕ

abbrev read_msgs : Multi → List (CurlMsg ℕ) → Option (CurlMsg ℕ) × Multi
read_msgs m [] = (none, m)
read_msgs m (msg ∷ msgs) = (some msg, record m { messages = msgs })

-- An easy handle is the number of its connection. Each action makes these calls, as the cleanup
-- does, and leaves these messages.
abbrev pub curl_with : List CurlCall → List (CurlMsg ℕ) → Curl Multi ℕ
curl_with calls messages = record {
  multi_init = record { messages = []; socket_data = λ s. none };
  multi_cleanup = λ m. (calls, m);
  easy_init = λ m. (some 0, m);
  easy_setopt = λ m k options. m;
  easy_getinfo_private = λ m k. k;
  easy_cleanup = λ m k. m;
  multi_add_handle = λ m k. (some (pos 0), m);
  multi_remove_handle = λ m k. m;
  multi_info_read = λ m. read_msgs m m.messages;
  multi_socket_action = λ m fd action. record {
    calls = calls;
    running = pos 0;
    after = record m { messages = messages };
  };
  multi_assign =
      λ m s p. record m { socket_data = λ t. if t == s then some p else m.socket_data t };
  socket_data = λ m s. m.socket_data s;
}

abbrev pub waiting : Multi → List (CurlMsg ℕ)
waiting m = m.messages

pub curl_with-CurlLaws :
    (calls : List CurlCall) (messages : List (CurlMsg ℕ))
    → CurlLaws (curl_with calls messages) waiting
curl_with-CurlLaws calls messages = record {
  read_none = λ m none_left. ap (read_msgs m) none_left;
  read_some = λ m msg msgs some_left.
      (record m { messages = msgs }, ap (read_msgs m) some_left, refl, λ k. refl);
  waiting_removed = λ m k others. refl;
  private_removed = λ m k j other. refl;
  waiting_assigned = λ m s p. refl;
  private_assigned = λ m s p k. refl;
  data_assigned = λ m s p. ap (λ b. if b then some p else m.socket_data s) ((==_iff s s).1 refl);
}

-- a base: the number of events made, what they are for, and which are added
pub record Base : Type 0 where
  pub next : ℕ
  pub made : ℕ → Option (ℕ × ℕ)
  pub added : ℕ → Option (ℕ × ℕ)

abbrev pub events : Events Base (Option Timeval)
events = record {
  event_new = λ e fd kind. (
    e.next,
    record e { next = e.next + 1; made = λ q. if q == e.next then some (fd, kind) else e.made q },
  );
  event_add = λ e p. record e { added = λ q. if q == p then e.made q else e.added q };
  event_del = λ e p. record e { added = λ q. if q == p then none else e.added q };
  timers = clock;
  evtimer_del = λ t. none;
}

abbrev pub watched : Base → ℕ → Option (ℕ × ℕ)
watched e q = e.added q

pub events-EventLaws : EventLaws events watched
events-EventLaws = record {
  new_added = λ e fd kind. rw ((==_iff e.next e.next).1 refl) refl;
  new_others = λ e fd kind q. refl;
  add_others = λ e p q ne. ap (λ b. if b then e.made q else e.added q) (==_ne q p ne);
  del_this = λ e p. ap (λ b. if b then none else e.added p) ((==_iff p p).1 refl);
  del_others = λ e p q ne. ap (λ b. if b then none else e.added q) (==_ne q p ne);
}
