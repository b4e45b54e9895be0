-- ===== src/Peer/System/Unique.antt =====
-- A transport has at most one list of texts.
use libbayeux.Prelude.{◌≡◌, refl, sym, ap₂, ◌∙◌, [], ◌∷◌, Option, none, some}
use libbayeux.Libc.{CString}
use libbayeux.Memory.{Block}
use libbayeux.Client.System.Unique.{Holds-unique}
use libbayeux.Transport.{ConnInfo}
use libbayeux.Transport.Calls.{Bodies, AreConns}

-- The texts of the connections are determined.
pub AreConns-unique :
    (conns : Block ConnInfo) (texts texts' : Bodies)
    → AreConns conns texts
    → AreConns conns texts'
    → texts ≡ texts'
AreConns-unique [] [] [] v w = refl
AreConns-unique [] [] (t ∷ ts) v w = absurd w
AreConns-unique [] (t ∷ ts) texts' v w = absurd v
AreConns-unique (conn ∷ conns) [] texts' v w = absurd v
AreConns-unique (conn ∷ conns) (t ∷ ts) [] v w = absurd w
AreConns-unique (none ∷ conns) (none ∷ ts) (none ∷ ts') v w =
    ap₂ (λ (x : Option CString) xs. x ∷ xs) refl (AreConns-unique conns ts ts' v w)
AreConns-unique (none ∷ conns) (none ∷ ts) (some t' ∷ ts') v w = absurd w
AreConns-unique (none ∷ conns) (some t ∷ ts) (t' ∷ ts') v w = absurd v
AreConns-unique (some conn ∷ conns) (none ∷ ts) (t' ∷ ts') v w = absurd v
AreConns-unique (some conn ∷ conns) (some t ∷ ts) (none ∷ ts') v w = absurd w
AreConns-unique (some conn ∷ conns) (some t ∷ ts) (some t' ∷ ts') v w =
    ap₂ (λ (x : CString) xs. some x ∷ xs)
      (Holds-unique t t' conn.data_block v.0.response.bytes w.0.response.bytes
        (sym v.0.response.count ∙ w.0.response.count))
      (AreConns-unique conns ts ts' v.1 w.1)
