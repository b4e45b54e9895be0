-- ===== src/Tests/Response.antt =====
-- The body of a response.
use libbayeux.Prelude.{◌≡◌, [], ◌∷◌, ◌++◌, some, arith}
use libbayeux.Libc.{codes}
use libbayeux.Memory.Laws.{Holds}
use libbayeux.Transport.{ConnInfo, conn_new}
use libbayeux.Transport.Write.{receive, receive-body}

receive-body_example :
    (conn : ConnInfo) × (receive conn_new (codes "[{" ∷ codes "}]" ∷ []) ≡ some conn)
    × (conn.data_count ≡ 4)
    × Holds (codes "[{}]" ++ (0 ∷ [])) conn.data_block
receive-body_example = receive-body (codes "[{") (codes "}]" ∷ []) (omega arith)
