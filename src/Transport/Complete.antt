-- ===== src/Transport/Complete.antt =====
-- `check_curl_multi`: the transfers that are done.
use libbayeux.Prelude.{
  ℕ, zero, suc, ◌<◌, ◌≡◌, ◌≢◌, refl, sym, ap, subst, ◌∙◌, true, List, [], ◌∷◌, ◌++◌, map, Option,
  some, none, length, arith, All, set, if◌then◌else◌, append-nil, append_assoc, ◌>>=◌,
}
use libbayeux.Libc.{CString}
use libbayeux.Memory.{load}
use libbayeux.Transport.{ConnInfo}
use libbayeux.Transport.Libs.{Curl, CurlMsg, CurlLaws, Events}
use libbayeux.Transport.LongPolling.{Http, c_string, finish_conn, finish_msg, check_curl_multi}
use libbayeux.Transport.Bodies.{
  c_string-Holds, HasBody, AreBodies, freed, freed_same, AreBodies-released,
}

module _ {M K E T J : Type 0} (curl : Curl M K) (ev : Events E T) (parse : CString → Option J) where
  -- the transport after a transfer was finished
  abbrev finished_http : Http M E T J → K → CString → Http M E T J
  finished_http http k text = record http {
    curl_multi = curl.easy_cleanup (curl.multi_remove_handle http.curl_multi k) k;
    conns = set http.conns (curl.easy_getinfo_private http.curl_multi k) none;
    received = http.received ++ (parse text ∷ []);
  }

  finish_conn_steps :
      (http : Http M E T J) (k : K) (conn : ConnInfo) (text : CString)
      → load http.conns (curl.easy_getinfo_private http.curl_multi k) ≡ some conn
      → c_string conn.data_block ≡ some text
      → finish_conn curl ev parse http k ≡ some (finished_http http k text)
  unfolding finish_conn
  finish_conn_steps http k conn text at read = rw (at, ◌>>=◌, read, ◌>>=◌) refl

  finish_msg-HasBody :
      (http : Http M E T J) (msg : CurlMsg K) (text : CString)
      → msg.is_done ≡ true
      → HasBody http.conns (curl.easy_getinfo_private http.curl_multi msg.easy_handle) text
      → finish_msg curl ev parse http msg ≡ some (finished_http http msg.easy_handle text)
  unfolding finish_msg
  finish_msg-HasBody http msg text is_done v =
      let whole =
        finish_conn_steps http msg.easy_handle v.conn text v.at
          (c_string-Holds text v.conn.data_block v.bytes v.plain) in
      ap (λ b. if b then finish_conn curl ev parse http msg.easy_handle else some http) is_done
      ∙ whole

  -- a round of the loop, after the read
  abbrev after_read : Http M E T J → ℕ → Option (CurlMsg K) × M → Option (Http M E T J)
  after_read http fuel r = elim r.0 [
    | none ↦ some (record http { curl_multi = r.1 })
    | some msg ↦
        finish_msg curl ev parse (record http { curl_multi = r.1 }) msg
        >>= check_curl_multi curl ev parse fuel
  ]

  check_end :
      (http : Http M E T J) (fuel : ℕ)
      → curl.multi_info_read http.curl_multi ≡ (none, http.curl_multi)
      → check_curl_multi curl ev parse (suc fuel) http ≡ some http
  unfolding check_curl_multi
  check_end http fuel e = ap (after_read http fuel) e

  check_next :
      (http http' : Http M E T J) (fuel : ℕ) (msg : CurlMsg K) (m : M)
      → curl.multi_info_read http.curl_multi ≡ (some msg, m)
      → finish_msg curl ev parse (record http { curl_multi = m }) msg ≡ some http'
      → check_curl_multi curl ev parse (suc fuel) http ≡ check_curl_multi curl ev parse fuel http'
  unfolding check_curl_multi
  check_next http http' fuel msg m e finished =
      ap (after_read http fuel) e ∙ ap (λ r. r >>= check_curl_multi curl ev parse fuel) finished

  -- For a libcurl that keeps its laws, the loop of `check_curl_multi` ends: where all messages that
  -- are waiting are of transfers that are done, each of another handle and another connection, and
  -- each with a body, fuel above their number is enough. `recv_callback` is then called with the
  -- document of each body, in their order, no access is undefined, no message is left, and the
  -- connections of these transfers, and no others, are freed.
  pub check_curl_multi-AreBodies :
      (waiting : M → List (CurlMsg K))
      → CurlLaws curl waiting
      → (fuel : ℕ) (http : Http M E T J) (msgs : List (CurlMsg K)) (texts : List CString)
      → waiting http.curl_multi ≡ msgs
      → AreBodies (curl.easy_getinfo_private http.curl_multi) http.conns msgs texts
      → length msgs < fuel
      → (http' : Http M E T J) × (check_curl_multi curl ev parse fuel http ≡ some http')
        × (http'.received ≡ http.received ++ map parse texts)
        × (waiting http'.curl_multi ≡ [])
        × (http'.conns ≡ freed (curl.easy_getinfo_private http.curl_multi) msgs http.conns)
  check_curl_multi-AreBodies waiting laws zero http msgs texts queued v lt = absurd (omega arith)
  check_curl_multi-AreBodies waiting laws (suc fuel) http [] [] queued v lt = (
    http,
    check_end http fuel (laws.read_none http.curl_multi queued),
    sym (append-nil http.received),
    queued,
    refl,
  )
  check_curl_multi-AreBodies waiting laws (suc fuel) http [] (text ∷ texts) queued v lt = absurd v
  check_curl_multi-AreBodies waiting laws (suc fuel) http (msg ∷ msgs) [] queued v lt = absurd v
  check_curl_multi-AreBodies waiting laws (suc fuel) http (msg ∷ msgs) (text ∷ texts) queued
        (is_done, has, handles, others, v) lt =
      let (m, read, rest, same) = laws.read_some http.curl_multi msg msgs queued in
      let k = msg.easy_handle in
      let p = curl.easy_getinfo_private http.curl_multi k in
      let http1 = record http { curl_multi = m } in
      let next = finished_http http1 k text in
      let at_m : p ≡ curl.easy_getinfo_private m k = sym (same k) in
      let finished =
        finish_msg-HasBody http1 msg text is_done
          (subst (λ q. HasBody http.conns q text) at_m has) in
      let later : AreBodies (curl.easy_getinfo_private next.curl_multi) (set http.conns p none) msgs
          texts =
        AreBodies-released (curl.easy_getinfo_private http.curl_multi)
          (curl.easy_getinfo_private next.curl_multi) http.conns k p msgs texts
          (λ j ne. laws.private_removed m k j ne ∙ same j) handles others v in
      let left : waiting next.curl_multi ≡ msgs =
        laws.waiting_removed m k
          (subst (λ l. All (λ (other : CurlMsg K). other.easy_handle ≢ k) l) (sym rest) handles)
        ∙ rest in
      let (http', ran, got, empty, conns) =
        check_curl_multi-AreBodies waiting laws fuel next msgs texts left
          (subst
            (λ q.
              AreBodies (curl.easy_getinfo_private next.curl_multi) (set http.conns q none) msgs
                texts)
            at_m later)
          (omega arith) in
      (
        http',
        check_next http next fuel msg m read finished ∙ ran,
        got ∙ append_assoc http.received (parse text ∷ []) (map parse texts),
        empty,
        conns
            ∙ freed_same (curl.easy_getinfo_private http.curl_multi)
                (curl.easy_getinfo_private next.curl_multi) k msgs next.conns
                (λ j ne. laws.private_removed m k j ne ∙ same j) handles
            ∙ ap
                (λ q.
                  freed (curl.easy_getinfo_private http.curl_multi) msgs (set http.conns q none))
                (sym at_m),
      )
