-- ===== src/Client/Connect/Handled.antt =====
-- `handle_advice`, on every branch.
use libbayeux.Prelude.{
  ◌≡◌, refl, ap, ◌∙◌, ◌⊎◌, true, false, Option, none, some, if◌then◌else◌, Bool-cases, inl, inr,
  ◌>>=◌,
}
use libbayeux.Prelude.Int.{quot, rem}
use libbayeux.Libc.{CString, codes}
use libbayeux.Json.{JsonC}
use libbayeux.Json.Util.{json_get_string, json_get_int}
use libbayeux.Client.{
  Client, Timers, TimerLaws, Advice, Reconnect, Timeval, reconnect_handshake, unconnected,
}
use libbayeux.Client.Schedule.{schedule_connect}
use libbayeux.Client.Connect.{
  same_reconnect, match_reconnect, reconnect_strs, take_advice, advised, handle_advice, or_else,
}
use libbayeux.Client.Connect.Advised.{word_advice, match_reconnect_lem}

module _ {J : Type 0} (json : JsonC J) where
  -- the advice after a message: what it says, and for the rest what held before
  abbrev pub new_advice : Option J → Advice → Advice
  new_advice none advice = advice
  new_advice (some said) advice = record advice {
    reconnect =
        or_else (json_get_string json (some said) (codes "reconnect") >>= word_advice)
          advice.reconnect;
    interval_ms = or_else (json_get_int json (some said) (codes "interval")) advice.interval_ms;
  }

  word_taken :
      (word : Option CString) (current : Reconnect)
      → elim word [ none ↦ current | some w ↦ match_reconnect reconnect_strs w current ]
        ≡ or_else (word >>= word_advice) current
  word_taken none current = refl
  word_taken (some w) current = match_reconnect_lem w current

  take_advice_lem :
      (said : J) (advice : Advice) → take_advice json said advice ≡ new_advice (some said) advice
  unfolding take_advice
  take_advice_lem said advice =
      ap
        (λ r. record advice {
          reconnect = r;
          interval_ms =
              or_else (json_get_int json (some said) (codes "interval")) advice.interval_ms;
        })
        (word_taken (json_get_string json (some said) (codes "reconnect")) advice.reconnect)

  advised_lem :
      (said : Option J) (advice : Advice)
      → elim said [ none ↦ advice | some msg_advice ↦ take_advice json msg_advice advice ]
        ≡ new_advice said advice
  advised_lem none advice = refl
  advised_lem (some said) advice = take_advice_lem said advice

module _ {J T : Type 0} (json : JsonC J) (ev : Timers T) where
  schedule_connect-pending :
      TimerLaws ev
      → (c : Client J T)
      → (timer : T) × (schedule_connect ev c ≡ record c { ev_timeout_connect = timer })
        × (ev.evtimer_pending timer ≡ true)
  unfolding schedule_connect
  schedule_connect-pending laws c = elim (Bool-cases (ev.evtimer_pending c.ev_timeout_connect)) [
    | inl set ↦ (c.ev_timeout_connect, rw set refl, set)
    | inr unset ↦
        let tv : Timeval = record {
          sec = quot c.advice.interval_ms 1000000;
          usec = rem c.advice.interval_ms 1000000;
        } in
        (
          ev.evtimer_add c.ev_timeout_connect tv,
          rw unset refl,
          laws.pending-add c.ev_timeout_connect tv,
        )
  ]

  advised_client :
      (c : Client J T) (msg : Option J)
      → handle_advice json ev c msg ≡ (
          let client' = record c {
            advice = new_advice json (json.object_get msg (codes "advice")) c.advice;
          } in
          if same_reconnect client'.advice.reconnect reconnect_handshake
          then schedule_connect ev (record client' { state = unconnected })
          else client')
  unfolding handle_advice advised
  advised_client c msg =
      ap
        (λ (a : Advice).
          if same_reconnect a.reconnect reconnect_handshake
          then schedule_connect ev (record c { advice = a; state = unconnected })
          else record c { advice = a })
        (advised_lem json (json.object_get msg (codes "advice")) c.advice)

  -- `handle_advice`, for a libevent that keeps its laws: the client's advice becomes what the message
  -- says, and stays where it says nothing or uses an unknown word. If the advice that then holds,
  -- new or old, is to repeat the handshake, then the client becomes unconnected and its connect timer
  -- is pending; otherwise nothing else changes.
  pub handle_advice-new_advice :
      TimerLaws ev
      → (c : Client J T) (msg : Option J)
      → ((timer : T) × (same_reconnect
              (new_advice json (json.object_get msg (codes "advice")) c.advice).reconnect
              reconnect_handshake
            ≡ true)
          × (handle_advice json ev c msg ≡ record c {
            advice = new_advice json (json.object_get msg (codes "advice")) c.advice;
            state = unconnected;
            ev_timeout_connect = timer;
          })
          × (ev.evtimer_pending timer ≡ true))
        ⊎ ((same_reconnect
                (new_advice json (json.object_get msg (codes "advice")) c.advice).reconnect
                reconnect_handshake
              ≡ false)
            × (handle_advice json ev c msg ≡ record c {
              advice = new_advice json (json.object_get msg (codes "advice")) c.advice;
            }))
  handle_advice-new_advice laws c msg =
      let a = new_advice json (json.object_get msg (codes "advice")) c.advice in
      let advised_c = record c { advice = a; state = unconnected } in
      let (timer, scheduled, pending) = schedule_connect-pending laws advised_c in
      elim (Bool-cases (same_reconnect a.reconnect reconnect_handshake)) [
        | inl again ↦ inl (
          timer,
          again,
          advised_client c msg
              ∙ ap (λ b. if b then schedule_connect ev advised_c else record c { advice = a }) again
              ∙ scheduled,
          pending,
        )
        | inr fine ↦ inr (
          fine,
          advised_client c msg
              ∙ ap (λ b. if b then schedule_connect ev advised_c else record c { advice = a }) fine,
        )
      ]
