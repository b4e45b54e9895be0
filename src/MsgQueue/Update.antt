-- ===== src/MsgQueue/Update.antt =====
-- Reading and rewriting one entry of the outbox in place.
use libbayeux.Prelude.{
  ℕ, suc, ◌≡◌, refl, sym, ap, ◌∙◌, List, [], ◌∷◌, ◌++◌, map, some, arith, length, length-append,
}
use libbayeux.Memory.{Block, load, store}
use libbayeux.Memory.Laws.{Holds}
use libbayeux.MsgQueue.{MsgQueue}
use libbayeux.MsgQueue.Entries.{Entry, IsQueue}

module _ {ℓ} {A : Type ℓ} {E : Type 0} (f : E → A) where
  -- The cell behind the entries before it holds the value of the entry.
  pub load_at :
      (before : List E) (e : E) (rest : List E) (b : Block A)
      → Holds (map f (before ++ (e ∷ rest))) b
      → load b (length before) ≡ some (f e)
  unfolding load
  load_at [] e rest [] h = absurd h.1
  load_at [] e rest (c ∷ b) h = h.0
  load_at (x ∷ before) e rest [] h = absurd h.1
  load_at (x ∷ before) e rest (c ∷ b) h = load_at before e rest b h.1

  -- A write there replaces that entry's value.
  pub store_at :
      (before : List E) (e e' : E) (rest : List E) (b : Block A)
      → Holds (map f (before ++ (e ∷ rest))) b
      → (b' : Block A) × (store b (length before) (f e') ≡ some b')
        × Holds (map f (before ++ (e' ∷ rest))) b'
        × (length b' ≡ length b)
  unfolding store
  store_at [] e e' rest [] h = absurd h.1
  store_at [] e e' rest (c ∷ b) h = (some (f e') ∷ b, refl, (refl, h.1), refl)
  store_at (x ∷ before) e e' rest [] h = absurd h.1
  store_at (x ∷ before) e e' rest (c ∷ b) h =
      let (b', stored, hold, len) = store_at before e e' rest b h.1 in
      (c ∷ b', cc stored, (h.0, hold), ap suc len)

  -- Where the value is the same, nothing needs writing.
  pub Holds-keep :
      (before : List E) (e e' : E) (rest : List E) (b : Block A)
      → f e' ≡ f e
      → Holds (map f (before ++ (e ∷ rest))) b
      → Holds (map f (before ++ (e' ∷ rest))) b
  Holds-keep [] e e' rest [] same h = absurd h.1
  Holds-keep [] e e' rest (c ∷ b) same h = (h.0 ∙ ap some (sym same), h.1)
  Holds-keep (x ∷ before) e e' rest [] same h = absurd h.1
  Holds-keep (x ∷ before) e e' rest (c ∷ b) same h = (h.0, Holds-keep before e e' rest b same h.1)

module _ {J : Type 0} where
  -- the arrays with an entry's message and ids rewritten
  pub record Rewrites (q : MsgQueue J) (before : List (Entry J)) (e : Entry J)
      (rest : List (Entry J)) (i : ℕ) : Type 0 where
    pub msgs : Block J
    pub batch_ids : Block ℕ
    pub msg_ids : Block ℕ
    pub stores_msg : store q.msgs i e.msg ≡ some msgs
    pub stores_batch_id : store q.batch_ids i e.batch_id ≡ some batch_ids
    pub stores_msg_id : store q.msg_ids i e.msg_id ≡ some msg_ids
    pub is_queue :
        IsQueue
          (record q { msgs = msgs; batch_ids = batch_ids; msg_ids = msg_ids })
          (before ++ (e ∷ rest))

  pub rewrite_entry :
      (q : MsgQueue J) (before : List (Entry J)) (e e' : Entry J) (rest : List (Entry J))
      → IsQueue q (before ++ (e ∷ rest))
      → e'.func ≡ e.func
      → Rewrites q before e' rest (length before)
  rewrite_entry q before e e' rest v same =
      let (ms, a, ha, sa) = store_at (λ (e : Entry J). e.msg) before e e' rest q.msgs v.msgs in
      let (bs, b, hb, sb) =
        store_at (λ (e : Entry J). e.batch_id) before e e' rest q.batch_ids v.batch_ids in
      let (is, c, hc, sc) =
        store_at (λ (e : Entry J). e.msg_id) before e e' rest q.msg_ids v.msg_ids in
      let old = length-append before (e ∷ rest) in
      let new = length-append before (e' ∷ rest) in
      record {
        msgs = ms;
        batch_ids = bs;
        msg_ids = is;
        stores_msg = a;
        stores_batch_id = b;
        stores_msg_id = c;
        is_queue = record {
          count = omega (arith, v.count, old, new);
          within = omega (arith, v.within, old, new);
          msgs = ha;
          batch_ids = hb;
          msg_ids = hc;
          funcs = Holds-keep (λ (e : Entry J). e.func) before e e' rest q.funcs same v.funcs;
          msgs_size = sa ∙ v.msgs_size;
          batch_ids_size = sb ∙ v.batch_ids_size;
          msg_ids_size = sc ∙ v.msg_ids_size;
          funcs_size = v.funcs_size;
        };
      }
