-- ===== src/Transport/Bodies.antt =====
-- The connections of the transfers that are done, and their texts.
use libbayeux.Prelude.{
  ℕ, zero, suc, ◌≡◌, ◌≢◌, refl, sym, ap, subst, ◌∙◌, true, List, [], ◌∷◌, ◌++◌, Option, some, none,
  All, set, ==_ne, ◌>>=◌,
}
use libbayeux.Libc.{CString}
use libbayeux.Memory.{Block, load}
use libbayeux.Memory.Laws.{Holds}
use libbayeux.Transport.{ConnInfo}
use libbayeux.Transport.Libs.{CurlMsg}
use libbayeux.Transport.LongPolling.{c_string}

pub c_string-Holds :
    (text : CString) (block : Block ℕ)
    → Holds (text ++ (0 ∷ [])) block
    → All (λ c. c ≢ 0) text
    → c_string block ≡ some text
unfolding c_string
c_string-Holds [] [] h plain = absurd h.1
c_string-Holds [] (b ∷ block) h plain = rw h.0 refl
c_string-Holds (c ∷ text) [] h plain = absurd h.1
c_string-Holds (c ∷ text) (b ∷ block) h plain =
    rw (h.0, c_string-Holds text block h.1 plain.1, ◌>>=◌, ==_ne c 0 plain.0) refl

module _ {ℓ} {A : Type ℓ} where
  load_released : (b : Block A) (p q : ℕ) → q ≢ p → load (set b p none) q ≡ load b q
  unfolding load
  load_released [] p q ne = refl
  load_released (c ∷ b) zero zero ne = absurd (ne refl)
  load_released (c ∷ b) zero (suc q) ne = refl
  load_released (c ∷ b) (suc p) zero ne = refl
  load_released (c ∷ b) (suc p) (suc q) ne = load_released b p q (λ e. ne (ap suc e))

-- The connection at the pointer has this text, with its 0 and without others.
pub record HasBody (conns : Block ConnInfo) (p : ℕ) (text : CString) : Type 0 where
  pub conn : ConnInfo
  pub at : load conns p ≡ some conn
  pub bytes : Holds (text ++ (0 ∷ [])) conn.data_block
  pub plain : All (λ c. c ≢ 0) text

HasBody-released :
    (conns : Block ConnInfo) (p q : ℕ) (text : CString)
    → q ≢ p
    → HasBody conns q text
    → HasBody (set conns p none) q text
HasBody-released conns p q text ne v = record {
  conn = v.conn;
  at = load_released conns p q ne ∙ v.at;
  bytes = v.bytes;
  plain = v.plain;
}

module _ {K : Type 0} where
  -- The messages are of transfers that are done, each of another handle and another connection, and
  -- these are their bodies.
  abbrev pub AreBodies : (K → ℕ) → Block ConnInfo → List (CurlMsg K) → List CString → Type 0
  AreBodies conn_of conns [] [] = Unit
  AreBodies conn_of conns [] (text ∷ texts) = ⊥
  AreBodies conn_of conns (msg ∷ msgs) [] = ⊥
  AreBodies conn_of conns (msg ∷ msgs) (text ∷ texts) =
      (msg.is_done ≡ true)
      × HasBody conns (conn_of msg.easy_handle) text
      × All (λ other. other.easy_handle ≢ msg.easy_handle) msgs
      × All (λ other. conn_of other.easy_handle ≢ conn_of msg.easy_handle) msgs
      × AreBodies conn_of conns msgs texts

  -- the cells of these transfers given back
  abbrev pub freed {ℓ} :
      {A : Type ℓ} → (K → ℕ) → List (CurlMsg K) → List (Option A) → List (Option A)
  freed conn_of [] cells = cells
  freed conn_of (msg ∷ msgs) cells = freed conn_of msgs (set cells (conn_of msg.easy_handle) none)

  pub freed_same {ℓ} :
      {A : Type ℓ} (f g : K → ℕ) (k : K) (msgs : List (CurlMsg K)) (cells : List (Option A))
      → ((j : K) → j ≢ k → g j ≡ f j)
      → All (λ other. other.easy_handle ≢ k) msgs
      → freed g msgs cells ≡ freed f msgs cells
  freed_same f g k [] cells same no_k = refl
  freed_same f g k (msg ∷ msgs) cells same no_k =
      freed_same f g k msgs (set cells (g msg.easy_handle) none) same no_k.1
      ∙ ap (λ p. freed f msgs (set cells p none)) (same msg.easy_handle no_k.0)

  other_conns :
      (f g : K → ℕ) (k : K) (a b : ℕ) (msgs : List (CurlMsg K))
      → ((j : K) → j ≢ k → g j ≡ f j)
      → b ≡ a
      → All (λ other. other.easy_handle ≢ k) msgs
      → All (λ other. f other.easy_handle ≢ a) msgs
      → All (λ other. g other.easy_handle ≢ b) msgs
  other_conns f g k a b [] same e no_k ne = tt
  other_conns f g k a b (msg ∷ msgs) same e no_k ne = (
    (λ q. ne.0 (sym (same msg.easy_handle no_k.0) ∙ q ∙ e)),
    other_conns f g k a b msgs same e no_k.1 ne.1,
  )

  -- The other transfers, when one is finished.
  pub AreBodies-released :
      (f g : K → ℕ) (conns : Block ConnInfo) (k : K) (p : ℕ) (msgs : List (CurlMsg K))
      (texts : List CString)
      → ((j : K) → j ≢ k → g j ≡ f j)
      → All (λ other. other.easy_handle ≢ k) msgs
      → All (λ other. f other.easy_handle ≢ p) msgs
      → AreBodies f conns msgs texts
      → AreBodies g (set conns p none) msgs texts
  AreBodies-released f g conns k p [] [] same no_k ne v = tt
  AreBodies-released f g conns k p [] (text ∷ texts) same no_k ne v = absurd v
  AreBodies-released f g conns k p (msg ∷ msgs) [] same no_k ne v = absurd v
  AreBodies-released f g conns k p (msg ∷ msgs) (text ∷ texts) same no_k ne
        (is_done, has, handles, others, v) =
      let e = same msg.easy_handle no_k.0 in
      (
        is_done,
        subst (λ q. HasBody (set conns p none) q text) (sym e)
            (HasBody-released conns p (f msg.easy_handle) text ne.0 has),
        handles,
        other_conns f g k (f msg.easy_handle) (g msg.easy_handle) msgs same e no_k.1 others,
        AreBodies-released f g conns k p msgs texts same no_k.1 ne.1 v,
      )
