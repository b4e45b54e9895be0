-- ===== src/Transport/Interleave.antt =====
-- The calls that libcurl makes during one action: no call faults, and no two responses mix.
use libbayeux.Prelude.{
  ℕ, ◌+◌, ◌*◌, ◌<◌, ◌^◌, ◌≡◌, refl, ap, sym, subst, ◌∙◌, List, [], ◌∷◌, ◌++◌, Option, none, some,
  length, get_elem?, set, ◌>>=◌, >>=-eq-some,
}
use libbayeux.Libc.{CString}
use libbayeux.Transport.Libs.{
  Curl, CurlMsg, CurlCall, CurlLaws, socket_call, timer_call, write_call, Events,
}
use libbayeux.Transport.LongPolling.{
  Http, on_curl_multi_socket, on_curl_multi_timer, write_conn, called_back,
}
use libbayeux.Transport.Calls.{
  Bodies, AreConns, after_call, after_calls, text_or_nil, write_conn-AreConns,
}
use libbayeux.Transport.SocketCalls.{
  IsLive, Kept, Kept-refl, Kept-trans, on_curl_multi_socket-SocketDone,
}

module _ {M K E T J : Type 0} (curl : Curl M K) (ev : Events E T) where
  -- What a call asks for: a chunk goes to a connection that is not freed, and the sizes stay within
  -- `size_t`; the data of a socket is null or not freed.
  abbrev pub Allowed : Http M E T J → Bodies → CurlCall → Type 0
  Allowed http texts (socket_call s what) = IsLive http.sockets (curl.socket_data http.curl_multi s)
  Allowed http texts (timer_call ms) = Unit
  Allowed http texts (write_call p buf size count) =
      (text : CString) × (get_elem? texts p ≡ some (some text))
      × (size * count ≡ length buf)
      × (length text + length buf + 4094 < 2 ^ 64)

  -- the transport after one call
  abbrev pub next : Http M E T J → CurlCall → Http M E T J
  next http call = elim (called_back curl ev http (call ∷ [])) [ none ↦ http | some http' ↦ http' ]

  -- the same of each call, when its turn comes
  abbrev pub AreCalls : Http M E T J → Bodies → List CurlCall → Type 0
  AreCalls http texts [] = Unit
  AreCalls http texts (call ∷ calls) =
      Allowed http texts call × AreCalls (next http call) (after_call texts call) calls

  called_back_cons :
      (http http' : Http M E T J) (call : CurlCall) (calls : List CurlCall)
      → called_back curl ev http (call ∷ []) ≡ some http'
      → called_back curl ev http (call ∷ calls) ≡ called_back curl ev http' calls
  unfolding called_back
  called_back_cons http http' (socket_call s what) calls ran =
      let (h, one, same) =
        >>=-eq-some (on_curl_multi_socket curl ev http s what (curl.socket_data http.curl_multi s))
          _ ran in
      let it : h ≡ http' = cc in
      ap (λ r. r >>= λ (x : Http M E T J). called_back curl ev x calls) one
      ∙ ap (λ x. called_back curl ev x calls) it
  called_back_cons http http' (timer_call ms) calls ran =
      let it : on_curl_multi_timer curl ev http ms ≡ http' = cc in
      ap (λ x. called_back curl ev x calls) it
  called_back_cons http http' (write_call p buf size count) calls ran =
      let (h, one, same) = >>=-eq-some (write_conn curl ev http p buf size count) _ ran in
      let it : h ≡ http' = cc in
      ap (λ r. r >>= λ (x : Http M E T J). called_back curl ev x calls) one
      ∙ ap (λ x. called_back curl ev x calls) it

module _ {M K E T J : Type 0} (curl : Curl M K) (ev : Events E T) (waiting : M → List (CurlMsg K))
    (laws : CurlLaws curl waiting) where
  write_conn-Kept :
      (http : Http M E T J) (texts : Bodies) (p : ℕ) (buf : CString) (size count : ℕ)
      (text : CString)
      → AreConns http.conns texts
      → get_elem? texts p ≡ some (some text)
      → size * count ≡ length buf
      → length text + length buf + 4094 < 2 ^ 64
      → (http' : Http M E T J) × (write_conn curl ev http p buf size count ≡ some http')
        × AreConns http'.conns (set texts p (some (text ++ buf)))
        × Kept curl waiting http http'
  write_conn-Kept http texts p buf size count text v at bytes h =
      let (http', ran, conns, (received, multi)) =
        write_conn-AreConns curl ev http texts p buf size count text v at bytes h in
      (
        http',
        ran,
        conns,
        record {
          received = received;
          waiting_same = ap waiting multi;
          private_same = λ k. ap (λ (m : M). curl.easy_getinfo_private m k) multi;
        },
      )

  -- One call.
  call-AreConns :
      (http : Http M E T J) (texts : Bodies) (call : CurlCall)
      → AreConns http.conns texts
      → Allowed curl ev http texts call
      → (http' : Http M E T J) × (called_back curl ev http (call ∷ []) ≡ some http')
        × AreConns http'.conns (after_call texts call)
        × Kept curl waiting http http'
  unfolding called_back
  call-AreConns http texts (socket_call s what) v ok =
      let (http', ran, conns, kept) =
        on_curl_multi_socket-SocketDone curl ev waiting laws http s what
          (curl.socket_data http.curl_multi s) ok in
      (http', rw (ran, ◌>>=◌) refl, subst (λ b. AreConns b texts) (sym conns) v, kept)
  call-AreConns http texts (timer_call ms) v ok = (
    on_curl_multi_timer curl ev http ms,
    refl,
    unfold on_curl_multi_timer in v,
    unfold on_curl_multi_timer in
        record { received = refl; waiting_same = refl; private_same = λ k. refl },
  )
  call-AreConns http texts (write_call p buf size count) v (text, at, bytes, h) =
      let (http', ran, conns, kept) =
        write_conn-Kept http texts p buf size count text v at bytes h in
      (
        http',
        rw (ran, ◌>>=◌) refl,
        subst (λ t. AreConns http'.conns (set texts p (some (text_or_nil t ++ buf)))) (sym at)
            conns,
        kept,
      )

  -- For a libcurl that keeps its laws: the calls of one action, of any kind, for any number of
  -- connections and in any order, run without a fault, if each chunk goes to a connection that is not
  -- freed and the sizes stay within `size_t`, and if the data of each socket is null or not freed when
  -- it is used. Each connection then has the text that it had and the chunks that were written to it,
  -- in their order, and nothing of the others; no document has been received, and libcurl's messages
  -- are those that it had.
  pub called_back-AreConns :
      (http : Http M E T J) (texts : Bodies) (calls : List CurlCall)
      → AreConns http.conns texts
      → AreCalls curl ev http texts calls
      → (http' : Http M E T J) × (called_back curl ev http calls ≡ some http')
        × AreConns http'.conns (after_calls texts calls)
        × Kept curl waiting http http'
  unfolding called_back
  called_back-AreConns http texts [] v ok = (http, refl, v, Kept-refl curl waiting http)
  called_back-AreConns http texts (call ∷ calls) v (allowed, ok) =
      let (http1, ran, v1, kept) = call-AreConns http texts call v allowed in
      let next_is : next curl ev http call ≡ http1 =
        ap (λ (r : Option (Http M E T J)). elim r [ none ↦ http | some h ↦ h ]) ran in
      let (http2, ran2, v2, kept2) = called_back-AreConns http1 (after_call texts call) calls v1 (
        subst (λ (h : Http M E T J). AreCalls curl ev h (after_call texts call) calls) next_is
          ok) in
      (
        http2,
        called_back_cons curl ev http http1 call calls ran ∙ ran2,
        v2,
        Kept-trans curl waiting http http1 http2 kept kept2,
      )
