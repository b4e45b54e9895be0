-- ===== src/Transport/Write.antt =====
-- The body of a response, chunk by chunk.
use libbayeux.Prelude.{
  ℕ, ◌+◌, ◌*◌, ◌^◌, ◌≤◌, ◌<◌, ◌≡◌, refl, ap, ◌∙◌, List, [], ◌∷◌, ◌++◌, Option, some, arith, length,
  length-append, take_all, ltb, Bool-cases, inl, inr, set, length-set, append_assoc, append-nil,
  bit_and_4093, ◌>>=◌,
}
use libbayeux.Libc.{CString}
use libbayeux.Memory.{Block, realloc, store, memcpy}
use libbayeux.Memory.Laws.{
  Holds, Holds-realloc, length-realloc, memcpy-Holds, Holds-prefix, Holds-set_end, store_inside,
}
use libbayeux.Transport.{ConnInfo, conn_new, size_t, response_capacity, resize_data, on_curl_write}

-- What has come of the body so far.
pub record IsResponse (conn : ConnInfo) (text : CString) : Type 0 where
  pub size : length conn.data_block ≡ conn.data_capacity
  pub word : conn.data_capacity < 2 ^ 64
  pub count : conn.data_count ≡ length text
  pub bytes : Holds text conn.data_block

-- While nothing wraps: the mask is no power of two, but what it gives is never too small. It holds
-- the bytes that are needed, and at most 4093 more.
pub response_capacity_bounds :
    (n : ℕ) → n + 4093 < 2 ^ 64 → (n ≤ response_capacity n) × (response_capacity n ≤ n + 4093)
unfolding response_capacity
response_capacity_bounds n h =
    let exact : size_t (n + 4093) ≡ n + 4093 = omega arith in
    let masked = bit_and_4093 (n + 4093) h in
    rw exact (omega (masked, arith), omega (masked, arith))

resize_data-IsResponse :
    (conn : ConnInfo) (text : CString) (n : ℕ)
    → IsResponse conn text
    → length text < n
    → n + 4093 < 2 ^ 64
    → IsResponse (resize_data conn n) text × (n ≤ (resize_data conn n).data_capacity)
unfolding resize_data
resize_data-IsResponse conn text n v lt h = elim (Bool-cases (ltb conn.data_capacity n)) [
  | inl short ↦
      let (enough, bound) = response_capacity_bounds n h in
      let capacity = response_capacity n in
      let bigger : IsResponse
          (record conn { data_capacity = capacity; data_block = realloc conn.data_block capacity })
          text =
        record {
          size = length-realloc conn.data_block capacity;
          word = omega (arith, bound);
          count = v.count;
          bytes = Holds-realloc text conn.data_block capacity v.bytes (omega (arith, enough));
        } in
      rw short (bigger, enough)
  | inr fits ↦ rw fits (v, ground arith)
]

write_steps :
    (buf : CString) (size count : ℕ) (full conn : ConnInfo) (copied ended : Block ℕ)
    → size * count ≡ length buf
    → full.data_count + length buf + 1 < 2 ^ 64
    → conn.data_count ≡ full.data_count
    → resize_data full (full.data_count + length buf + 1) ≡ conn
    → memcpy conn.data_block conn.data_count buf ≡ some copied
    → store copied (conn.data_count + length buf) 0 ≡ some ended
    → on_curl_write buf size count full
      ≡ some (
        length buf,
        record conn { data_block = ended; data_count = conn.data_count + length buf },
      )
unfolding on_curl_write
write_steps buf size count full conn copied ended bytes fits same resized filled closed =
    let exact : size_t (length buf) ≡ length buf = omega arith in
    let need : size_t (full.data_count + length buf + 1) ≡ full.data_count + length buf + 1 =
      omega arith in
    let sum : size_t (conn.data_count + length buf) ≡ conn.data_count + length buf = omega arith in
    rw
      (
        bytes,
        exact,
        need,
        resized,
        take_all (length buf) buf (omega arith),
        filled,
        ◌>>=◌,
        sum,
        closed,
        ◌>>=◌,
      )
      refl

resize_data-count : (conn : ConnInfo) (n : ℕ) → (resize_data conn n).data_count ≡ conn.data_count
unfolding resize_data
resize_data-count conn n = ground arith

-- While the sizes stay within `size_t`, a chunk of a response is appended to what has come before,
-- with a 0 behind it, and the call reports all of its bytes.
pub on_curl_write-append :
    (buf : CString) (size count : ℕ) (conn : ConnInfo) (text : CString)
    → IsResponse conn text
    → size * count ≡ length buf
    → length text + length buf + 1 + 4093 < 2 ^ 64
    → (conn' : ConnInfo) × (on_curl_write buf size count conn ≡ some (length buf, conn'))
      × IsResponse conn' (text ++ buf)
      × Holds ((text ++ buf) ++ (0 ∷ [])) conn'.data_block
on_curl_write-append buf size count conn text v bytes h =
    let n = conn.data_count + length buf + 1 in
    let big = resize_data conn n in
    let (w, room) =
      resize_data-IsResponse conn text n v (omega (arith, v.count)) (omega (arith, v.count)) in
    let (copied, filled, held, len) =
      memcpy-Holds text buf big.data_block w.bytes (omega (arith, w.size, room, v.count)) in
    let both = length-append text buf in
    let at : big.data_count + length buf ≡ length (text ++ buf) = omega (arith, both, w.count) in
    let ended = set copied (length (text ++ buf)) (some 0) in
    let inside : length (text ++ buf) < length copied =
      omega (arith, both, len, w.size, room, v.count) in
    let closed = Holds-set_end (text ++ buf) copied 0 held inside in
    (
      record big { data_block = ended; data_count = big.data_count + length buf },
      write_steps buf size count conn big copied ended bytes (omega (arith, v.count))
          (resize_data-count conn n) refl (ap (λ i. memcpy big.data_block i buf) w.count ∙ filled)
          (ap (λ i. store copied i 0) at ∙ store_inside copied (length (text ++ buf)) 0 inside),
      record {
        size = length-set copied (length (text ++ buf)) (some 0) ∙ len ∙ w.size;
        word = w.word;
        count = at;
        bytes = Holds-prefix (text ++ buf) (0 ∷ []) ended closed;
      },
      closed,
    )

-- libcurl's calls for the chunks of a body: the size of a byte is 1
unfoldable pub receive : ConnInfo → List CString → Option ConnInfo
receive conn [] = some conn
receive conn (buf ∷ bufs) =
    on_curl_write buf 1 (length buf) conn >>= λ (_, conn'). receive conn' bufs

abbrev pub body : List CString → CString
body [] = []
body (buf ∷ bufs) = buf ++ body bufs

receive-from :
    (conn : ConnInfo) (text : CString) (bufs : List CString)
    → IsResponse conn text
    → Holds (text ++ (0 ∷ [])) conn.data_block
    → length text + length (body bufs) + 4094 < 2 ^ 64
    → (conn' : ConnInfo) × (receive conn bufs ≡ some conn')
      × IsResponse conn' (text ++ body bufs)
      × Holds ((text ++ body bufs) ++ (0 ∷ [])) conn'.data_block
unfolding receive
receive-from conn text [] v ended h = (conn, refl, rw append-nil v, rw append-nil ended)
receive-from conn text (buf ∷ bufs) v ended h =
    let split = length-append buf (body bufs) in
    let (conn1, wrote, v1, ended1) =
      on_curl_write-append buf 1 (length buf) conn text v (omega arith) (omega (arith, split)) in
    let (conn2, rest, v2, ended2) =
      receive-from conn1 (text ++ buf) bufs v1 ended1
        (omega (arith, split, length-append text buf)) in
    (
      conn2,
      rw (wrote, ◌>>=◌) rest,
      rw (append_assoc text buf (body bufs)) at v2,
      rw (append_assoc text buf (body bufs)) at ended2,
    )

-- While the sizes stay within `size_t`, the body of a response that comes in one chunk or more is
-- put together in the buffer, whatever its cuts, and ends with a 0.
pub receive-body :
    (buf : CString) (bufs : List CString)
    → length (body (buf ∷ bufs)) + 4094 < 2 ^ 64
    → (conn : ConnInfo) × (receive conn_new (buf ∷ bufs) ≡ some conn)
      × (conn.data_count ≡ length (body (buf ∷ bufs)))
      × Holds (body (buf ∷ bufs) ++ (0 ∷ [])) conn.data_block
unfolding receive
receive-body buf bufs h =
    let split = length-append buf (body bufs) in
    let fresh : IsResponse conn_new [] = record {
      size = refl;
      word = omega arith;
      count = refl;
      bytes = tt;
    } in
    let (conn1, wrote, v1, ended1) =
      on_curl_write-append buf 1 (length buf) conn_new [] fresh (omega arith)
        (omega (arith, split)) in
    let (conn2, rest, v2, ended2) = receive-from conn1 buf bufs v1 ended1 (omega (arith, split)) in
    (conn2, rw (wrote, ◌>>=◌) rest, v2.count, ended2)
