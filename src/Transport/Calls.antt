-- ===== src/Transport/Calls.antt =====
-- libcurl's calls, of any kind and for any connections, in any order.
use libbayeux.Prelude.{
  ℕ, zero, suc, ◌+◌, ◌*◌, ◌<◌, ◌^◌, ◌≡◌, refl, subst, List, [], ◌∷◌, ◌++◌, Option, none, some,
  length, get_elem?, set, arith, inl, inr, ◌⊎◌, ◌>>=◌,
}
use libbayeux.Libc.{CString}
use libbayeux.Memory.{Block, load}
use libbayeux.Memory.Laws.{Holds, store_inside}
use libbayeux.Memory.Cells.{cell-lt-length}
use libbayeux.Transport.{ConnInfo, conn_new, on_curl_write}
use libbayeux.Transport.Write.{IsResponse, on_curl_write-append}
use libbayeux.Transport.Libs.{Curl, CurlCall, socket_call, timer_call, write_call, Events}
use libbayeux.Transport.LongPolling.{Http, write_conn}

-- A connection with what has come of its body.
pub record IsConn (conn : ConnInfo) (text : CString) : Type 0 where
  pub response : IsResponse conn text
  pub ended : (text ≡ []) ⊎ Holds (text ++ (0 ∷ [])) conn.data_block

-- the texts of the connections, in the order of their pointers; none for one that was freed
abbrev pub Bodies : Type 0
Bodies = List (Option CString)

abbrev pub AreConns : Block ConnInfo → Bodies → Type 0
AreConns [] [] = Unit
AreConns [] (text ∷ texts) = ⊥
AreConns (conn ∷ conns) [] = ⊥
AreConns (none ∷ conns) (none ∷ texts) = AreConns conns texts
AreConns (none ∷ conns) (some text ∷ texts) = ⊥
AreConns (some conn ∷ conns) (none ∷ texts) = ⊥
AreConns (some conn ∷ conns) (some text ∷ texts) = IsConn conn text × AreConns conns texts

pub AreConns-load :
    (conns : Block ConnInfo) (texts : Bodies) (p : ℕ) (text : CString)
    → AreConns conns texts
    → get_elem? texts p ≡ some (some text)
    → (conn : ConnInfo) × (load conns p ≡ some conn) × IsConn conn text
unfolding load
AreConns-load [] [] p text v at = cc
AreConns-load [] (t ∷ texts) p text v at = absurd v
AreConns-load (conn ∷ conns) [] p text v at = absurd v
AreConns-load (none ∷ conns) (none ∷ texts) zero text v at = cc
AreConns-load (none ∷ conns) (none ∷ texts) (suc p) text v at =
    AreConns-load conns texts p text v at
AreConns-load (none ∷ conns) (some t ∷ texts) p text v at = absurd v
AreConns-load (some conn ∷ conns) (none ∷ texts) p text v at = absurd v
AreConns-load (some conn ∷ conns) (some t ∷ texts) zero text v at =
    let same : t ≡ text = cc in (conn, refl, subst (IsConn conn) same v.0)
AreConns-load (some conn ∷ conns) (some t ∷ texts) (suc p) text v at =
    AreConns-load conns texts p text v.1 at

-- A cell that is written, and the text beside it.
pub AreConns-set :
    (conns : Block ConnInfo) (texts : Bodies) (p : ℕ) (conn : ConnInfo) (text : CString)
    → AreConns conns texts
    → IsConn conn text
    → AreConns (set conns p (some conn)) (set texts p (some text))
AreConns-set [] [] p conn text v w = tt
AreConns-set [] (t ∷ texts) p conn text v w = absurd v
AreConns-set (c ∷ conns) [] p conn text v w = absurd v
AreConns-set (none ∷ conns) (none ∷ texts) zero conn text v w = (w, v)
AreConns-set (none ∷ conns) (none ∷ texts) (suc p) conn text v w =
    AreConns-set conns texts p conn text v w
AreConns-set (none ∷ conns) (some t ∷ texts) p conn text v w = absurd v
AreConns-set (some c ∷ conns) (none ∷ texts) p conn text v w = absurd v
AreConns-set (some c ∷ conns) (some t ∷ texts) zero conn text v w = (w, v.1)
AreConns-set (some c ∷ conns) (some t ∷ texts) (suc p) conn text v w =
    (v.0, AreConns-set conns texts p conn text v.1 w)

pub AreConns-freed :
    (conns : Block ConnInfo) (texts : Bodies) (p : ℕ)
    → AreConns conns texts
    → AreConns (set conns p none) (set texts p none)
AreConns-freed [] [] p v = tt
AreConns-freed [] (t ∷ texts) p v = absurd v
AreConns-freed (c ∷ conns) [] p v = absurd v
AreConns-freed (none ∷ conns) (none ∷ texts) zero v = v
AreConns-freed (none ∷ conns) (none ∷ texts) (suc p) v = AreConns-freed conns texts p v
AreConns-freed (none ∷ conns) (some t ∷ texts) p v = absurd v
AreConns-freed (some c ∷ conns) (none ∷ texts) p v = absurd v
AreConns-freed (some c ∷ conns) (some t ∷ texts) zero v = v.1
AreConns-freed (some c ∷ conns) (some t ∷ texts) (suc p) v = (v.0, AreConns-freed conns texts p v.1)

-- A new connection.
pub AreConns-new :
    (conns : Block ConnInfo) (texts : Bodies)
    → AreConns conns texts
    → AreConns (conns ++ (some conn_new ∷ [])) (texts ++ (some [] ∷ []))
AreConns-new [] [] v = (
  record {
    response = record { size = refl; word = omega arith; count = refl; bytes = tt };
    ended = inl refl;
  },
  tt,
)
AreConns-new [] (t ∷ texts) v = absurd v
AreConns-new (c ∷ conns) [] v = absurd v
AreConns-new (none ∷ conns) (none ∷ texts) v = AreConns-new conns texts v
AreConns-new (none ∷ conns) (some t ∷ texts) v = absurd v
AreConns-new (some c ∷ conns) (none ∷ texts) v = absurd v
AreConns-new (some c ∷ conns) (some t ∷ texts) v = (v.0, AreConns-new conns texts v.1)

-- the texts after a call: only a write adds to one
abbrev pub text_or_nil : Option (Option CString) → CString
text_or_nil none = []
text_or_nil (some none) = []
text_or_nil (some (some text)) = text

abbrev pub after_call : Bodies → CurlCall → Bodies
after_call texts (socket_call s what) = texts
after_call texts (timer_call ms) = texts
after_call texts (write_call p buf size count) =
    set texts p (some (text_or_nil (get_elem? texts p) ++ buf))

abbrev pub after_calls : Bodies → List CurlCall → Bodies
after_calls texts [] = texts
after_calls texts (call ∷ calls) = after_calls (after_call texts call) calls

module _ {M K E T J : Type 0} (curl : Curl M K) (ev : Events E T) where
  pub write_steps :
      (http : Http M E T J) (p : ℕ) (buf : CString) (size count : ℕ) (conn conn' : ConnInfo)
      (bytes : ℕ)
      → load http.conns p ≡ some conn
      → on_curl_write buf size count conn ≡ some (bytes, conn')
      → write_conn curl ev http p buf size count
        ≡ some (record http { conns = set http.conns p (some conn') })
  unfolding write_conn
  write_steps http p buf size count conn conn' bytes at wrote =
      let stored = store_inside http.conns p conn' (cell-lt-length http.conns p (conn, at)) in
      rw (at, ◌>>=◌, wrote, ◌>>=◌, stored, ◌>>=◌) refl

  -- A chunk for a connection that is not freed.
  pub write_conn-AreConns :
      (http : Http M E T J) (texts : Bodies) (p : ℕ) (buf : CString) (size count : ℕ)
      (text : CString)
      → AreConns http.conns texts
      → get_elem? texts p ≡ some (some text)
      → size * count ≡ length buf
      → length text + length buf + 4094 < 2 ^ 64
      → (http' : Http M E T J) × (write_conn curl ev http p buf size count ≡ some http')
        × AreConns http'.conns (set texts p (some (text ++ buf)))
        × ((http'.received ≡ http.received) × (http'.curl_multi ≡ http.curl_multi))
  write_conn-AreConns http texts p buf size count text v at bytes h =
      let (conn, loaded, w) = AreConns-load http.conns texts p text v at in
      let (conn', wrote, w', ended) =
        on_curl_write-append buf size count conn text w.response bytes (omega arith) in
      (
        record http { conns = set http.conns p (some conn') },
        write_steps http p buf size count conn conn' (length buf) loaded wrote,
        AreConns-set http.conns texts p conn' (text ++ buf) v
            (record { response = w'; ended = inr ended }),
        (refl, refl),
      )
