-- ===== src/Transport/Actions.antt =====
-- A whole action of libcurl, and the responses that it completes.
use libbayeux.Prelude.{
  ℕ, ◌<◌, ◌≡◌, ◌≢◌, ap, sym, subst, ◌∙◌, true, List, [], ◌∷◌, ◌++◌, map, Option, none, some, length,
  get_elem?, set, All, inl, inr, ◌>>=◌,
}
use mathlib.Core.Path.{fun_ext}
use libbayeux.Libc.{CString}
use libbayeux.Memory.{Block}
use libbayeux.Memory.Laws.{Holds}
use libbayeux.Transport.{ConnInfo}
use libbayeux.Transport.Libs.{Curl, CurlMsg, CurlLaws, Events}
use libbayeux.Transport.LongPolling.{
  Http, socket_action, check_curl_multi, on_ev_event, on_ev_timer, event_action, stop_timer,
}
use libbayeux.Transport.Bodies.{AreBodies, freed}
use libbayeux.Transport.Complete.{check_curl_multi-AreBodies}
use libbayeux.Transport.Response.{stop_timer-kept, on_ev_event_steps, socket_action_steps}
use libbayeux.Transport.Calls.{Bodies, IsConn, AreConns, AreConns-load, AreConns-freed, after_calls}
use libbayeux.Transport.Interleave.{AreCalls, called_back-AreConns}

text_ended :
    (conn : ConnInfo) (text : CString)
    → IsConn conn text
    → text ≢ []
    → Holds (text ++ (0 ∷ [])) conn.data_block
text_ended conn text v ne = elim v.ended [ inl empty ↦ absurd (ne empty) | inr ended ↦ ended ]

module _ {K : Type 0} where
  -- The messages are of transfers that are done, each of another handle and another connection; the
  -- connections are not freed, and these are their texts, which are not empty and have no 0.
  abbrev pub AreDone : (K → ℕ) → Bodies → List (CurlMsg K) → List CString → Type 0
  AreDone conn_of texts [] [] = Unit
  AreDone conn_of texts [] (text ∷ bodies) = ⊥
  AreDone conn_of texts (msg ∷ msgs) [] = ⊥
  AreDone conn_of texts (msg ∷ msgs) (text ∷ bodies) =
      (msg.is_done ≡ true)
      × (get_elem? texts (conn_of msg.easy_handle) ≡ some (some text))
      × (text ≢ [])
      × All (λ c. c ≢ 0) text
      × All (λ other. other.easy_handle ≢ msg.easy_handle) msgs
      × All (λ other. conn_of other.easy_handle ≢ conn_of msg.easy_handle) msgs
      × AreDone conn_of texts msgs bodies

  AreDone-AreBodies :
      (conn_of : K → ℕ) (conns : Block ConnInfo) (texts : Bodies) (msgs : List (CurlMsg K))
      (bodies : List CString)
      → AreConns conns texts
      → AreDone conn_of texts msgs bodies
      → AreBodies conn_of conns msgs bodies
  AreDone-AreBodies conn_of conns texts [] [] v d = tt
  AreDone-AreBodies conn_of conns texts [] (text ∷ bodies) v d = absurd d
  AreDone-AreBodies conn_of conns texts (msg ∷ msgs) [] v d = absurd d
  AreDone-AreBodies conn_of conns texts (msg ∷ msgs) (text ∷ bodies) v
        (is_done, at, ne, plain, handles, others, d) =
      let (conn, loaded, w) = AreConns-load conns texts (conn_of msg.easy_handle) text v at in
      (
        is_done,
        record { conn = conn; at = loaded; bytes = text_ended conn text w ne; plain = plain },
        handles,
        others,
        AreDone-AreBodies conn_of conns texts msgs bodies v d,
      )

  freed-AreConns :
      (conn_of : K → ℕ) (msgs : List (CurlMsg K)) (conns : Block ConnInfo) (texts : Bodies)
      → AreConns conns texts
      → AreConns (freed conn_of msgs conns) (freed conn_of msgs texts)
  freed-AreConns conn_of [] conns texts v = v
  freed-AreConns conn_of (msg ∷ msgs) conns texts v =
      freed-AreConns conn_of msgs (set conns (conn_of msg.easy_handle) none)
        (set texts (conn_of msg.easy_handle) none)
        (AreConns-freed conns texts (conn_of msg.easy_handle) v)

module _ {M K E T J : Type 0} (curl : Curl M K) (ev : Events E T)
    (waiting : M → List (CurlMsg K)) where
  -- What is asked of libcurl's action on a socket, or on its timeout: its calls are as `AreCalls`
  -- says, and then these transfers are done, with these bodies.
  pub record Acts (http : Http M E T J) (texts : Bodies) (s : Option ℕ) (mask : ℕ)
      (msgs : List (CurlMsg K)) (bodies : List CString) : Type 0 where
    pub calls :
        AreCalls curl ev
          (record http { curl_multi = (curl.multi_socket_action http.curl_multi s mask).after })
          texts
          (curl.multi_socket_action http.curl_multi s mask).calls
    pub reported : waiting (curl.multi_socket_action http.curl_multi s mask).after ≡ msgs
    pub are_done :
        AreDone
          (curl.easy_getinfo_private (curl.multi_socket_action http.curl_multi s mask).after)
          (after_calls texts (curl.multi_socket_action http.curl_multi s mask).calls)
          msgs
          bodies

module _ {M K E T J : Type 0} (curl : Curl M K) where
  -- the texts that are left when the action's transfers are finished
  abbrev pub texts_left : Http M E T J → Bodies → Option ℕ → ℕ → List (CurlMsg K) → Bodies
  texts_left http texts s mask msgs =
      freed (curl.easy_getinfo_private (curl.multi_socket_action http.curl_multi s mask).after) msgs
        (after_calls texts (curl.multi_socket_action http.curl_multi s mask).calls)

module _ {M K E T J : Type 0} (curl : Curl M K) (ev : Events E T) (parse : CString → Option J)
    (waiting : M → List (CurlMsg K)) (laws : CurlLaws curl waiting) where
  action-AreConns :
      (fuel : ℕ) (http : Http M E T J) (texts : Bodies) (s : Option ℕ) (mask : ℕ)
      (msgs : List (CurlMsg K)) (bodies : List CString)
      → AreConns http.conns texts
      → Acts curl ev waiting http texts s mask msgs bodies
      → length msgs < fuel
      → (http1 : Http M E T J) × (http2 : Http M E T J) × (socket_action curl ev http s mask
          ≡ some http1)
        × (check_curl_multi curl ev parse fuel http1 ≡ some http2)
        × (http2.received ≡ http.received ++ map parse bodies)
        × (waiting http2.curl_multi ≡ [])
        × AreConns http2.conns (texts_left curl http texts s mask msgs)
  action-AreConns fuel http texts s mask msgs bodies v a enough =
      let action = curl.multi_socket_action http.curl_multi s mask in
      let started = record http { curl_multi = action.after } in
      let (called, ran, v1, kept) =
        called_back-AreConns curl ev waiting laws started texts action.calls v a.calls in
      let acted = socket_action_steps curl ev http called s mask ran in
      let http1 = record called { active_conn_count = action.running } in
      let texts1 = after_calls texts action.calls in
      let same : curl.easy_getinfo_private action.after
          ≡ curl.easy_getinfo_private called.curl_multi =
        fun_ext (λ k. sym (kept.private_same k)) in
      let done =
        AreDone-AreBodies (curl.easy_getinfo_private called.curl_multi) called.conns texts1 msgs
          bodies v1 (subst (λ (f : K → ℕ). AreDone f texts1 msgs bodies) same a.are_done) in
      let (http2, checked, got, empty, conns) =
        check_curl_multi-AreBodies curl ev parse waiting laws fuel http1 msgs bodies
          (kept.waiting_same ∙ a.reported) done enough in
      (
        http1,
        http2,
        acted,
        checked,
        got ∙ ap (λ r. r ++ map parse bodies) kept.received,
        empty,
        subst
            (λ (b : Block ConnInfo).
              AreConns b (freed (curl.easy_getinfo_private action.after) msgs texts1))
            (sym conns)
            (subst
              (λ (f : K → ℕ).
                AreConns (freed f msgs called.conns)
                  (freed (curl.easy_getinfo_private action.after) msgs texts1))
              same
              (freed-AreConns (curl.easy_getinfo_private action.after) msgs called.conns texts1
                v1)),
      )

  -- For a libcurl that keeps its laws and acts as `Acts` says, and fuel above the number of transfers
  -- that are done: `on_ev_event` ends without a fault, however the calls for the connections are
  -- mixed. `recv_callback` gets the document of each complete body, in the order of libcurl's
  -- messages; their connections are freed, and the others have the text that has come for them.
  pub on_ev_event-AreConns :
      (fuel fd kind : ℕ) (http : Http M E T J) (texts : Bodies) (msgs : List (CurlMsg K))
      (bodies : List CString)
      → AreConns http.conns texts
      → Acts curl ev waiting http texts (some fd) (event_action kind) msgs bodies
      → length msgs < fuel
      → (http' : Http M E T J) × (on_ev_event curl ev parse fuel fd kind http ≡ some http')
        × (http'.received ≡ http.received ++ map parse bodies)
        × (waiting http'.curl_multi ≡ [])
        × AreConns http'.conns (texts_left curl http texts (some fd) (event_action kind) msgs)
  on_ev_event-AreConns fuel fd kind http texts msgs bodies v a enough =
      let (http1, http2, acted, checked, got, empty, conns) =
        action-AreConns fuel http texts (some fd) (event_action kind) msgs bodies v a enough in
      let (received, multi, same) = stop_timer-kept curl ev parse http2 in
      (
        stop_timer curl ev parse http2,
        on_ev_event_steps curl ev parse fuel fd kind http http1 http2 acted checked,
        received ∙ got,
        ap waiting multi ∙ empty,
        subst
            (λ (b : Block ConnInfo).
              AreConns b (texts_left curl http texts (some fd) (event_action kind) msgs))
            (sym same) conns,
      )

  -- The timeout of libcurl likewise.
  pub on_ev_timer-AreConns :
      (fuel : ℕ) (http : Http M E T J) (texts : Bodies) (msgs : List (CurlMsg K))
      (bodies : List CString)
      → AreConns http.conns texts
      → Acts curl ev waiting http texts none 0 msgs bodies
      → length msgs < fuel
      → (http' : Http M E T J) × (on_ev_timer curl ev parse fuel http ≡ some http')
        × (http'.received ≡ http.received ++ map parse bodies)
        × (waiting http'.curl_multi ≡ [])
        × AreConns http'.conns (texts_left curl http texts none 0 msgs)
  unfolding on_ev_timer
  on_ev_timer-AreConns fuel http texts msgs bodies v a enough =
      let (http1, http2, acted, checked, got, empty, conns) =
        action-AreConns fuel http texts none 0 msgs bodies v a enough in
      (http2, rw (acted, ◌>>=◌) checked, got, empty, conns)
