-- ===== src/Client/System/Unique.antt =====
-- A client has at most one list of entries and one table: the abstract view is a function of it.
use libbayeux.Prelude.{
  ◌≡◌, refl, sym, ap₂, subst, ◌∙◌, List, [], ◌∷◌, some, arith, length, length-map,
}
use libbayeux.Memory.{Block}
use libbayeux.Memory.Laws.{Holds}
use libbayeux.MsgQueue.{MsgQueue}
use libbayeux.MsgQueue.Entries.{Entry, IsQueue, msgs_of, batch_ids_of, msg_ids_of, funcs_of}
use libbayeux.Client.{Client, Channel}
use libbayeux.Client.Channels.Table.{Table, AreChannels, HasTable}

pub Holds-unique {ℓ} :
    {A : Type ℓ} (xs ys : List A) (b : Block A)
    → Holds xs b
    → Holds ys b
    → length xs ≡ length ys
    → xs ≡ ys
Holds-unique [] [] b h k e = refl
Holds-unique [] (y ∷ ys) b h k e = absurd (omega arith)
Holds-unique (x ∷ xs) [] b h k e = absurd (omega arith)
Holds-unique (x ∷ xs) (y ∷ ys) [] h k e = absurd h.1
Holds-unique (x ∷ xs) (y ∷ ys) (c ∷ b) h k e =
    let same : some x ≡ some y = sym h.0 ∙ k.0 in
    let head : x ≡ y = cc in ap₂ (λ z zs. z ∷ zs) head (Holds-unique xs ys b h.1 k.1 (omega arith))

module _ {J : Type 0} where
  entries_equal :
      (es fs : List (Entry J))
      → msgs_of es ≡ msgs_of fs
      → batch_ids_of es ≡ batch_ids_of fs
      → msg_ids_of es ≡ msg_ids_of fs
      → funcs_of es ≡ funcs_of fs
      → es ≡ fs
  entries_equal [] [] a b c d = refl
  entries_equal [] (f ∷ fs) a b c d = cc
  entries_equal (e ∷ es) [] a b c d = cc
  entries_equal (e ∷ es) (f ∷ fs) a b c d =
      let msg : e.msg ≡ f.msg = cc in
      let batch : e.batch_id ≡ f.batch_id = cc in
      let id : e.msg_id ≡ f.msg_id = cc in
      let func : e.func ≡ f.func = cc in
      let same : e ≡ f =
        λ i. record { msg = msg i; batch_id = batch i; msg_id = id i; func = func i } in
      ap₂ (λ x xs. x ∷ xs) same (entries_equal es fs (cc) (cc) (cc) (cc))

  -- The entries of an outbox are determined.
  pub IsQueue-unique :
      (q : MsgQueue J) (es fs : List (Entry J)) → IsQueue q es → IsQueue q fs → es ≡ fs
  IsQueue-unique q es fs v w =
      let same_length : length es ≡ length fs = sym v.count ∙ w.count in
      entries_equal es fs
        (Holds-unique (msgs_of es) (msgs_of fs) q.msgs v.msgs w.msgs (
          omega (
            arith,
            same_length,
            length-map (λ (e : Entry J). e.msg) es,
            length-map (λ (e : Entry J). e.msg) fs,
          )))
        (Holds-unique (batch_ids_of es) (batch_ids_of fs) q.batch_ids v.batch_ids w.batch_ids (
          omega (
            arith,
            same_length,
            length-map (λ (e : Entry J). e.batch_id) es,
            length-map (λ (e : Entry J). e.batch_id) fs,
          )))
        (Holds-unique (msg_ids_of es) (msg_ids_of fs) q.msg_ids v.msg_ids w.msg_ids (
          omega (
            arith,
            same_length,
            length-map (λ (e : Entry J). e.msg_id) es,
            length-map (λ (e : Entry J). e.msg_id) fs,
          )))
        (Holds-unique (funcs_of es) (funcs_of fs) q.funcs v.funcs w.funcs (
          omega (
            arith,
            same_length,
            length-map (λ (e : Entry J). e.func) es,
            length-map (λ (e : Entry J). e.func) fs,
          )))

rows_unique :
    (channels : List Channel) (table table' : Table)
    → AreChannels channels table
    → AreChannels channels table'
    → table ≡ table'
rows_unique [] [] [] v w = refl
rows_unique [] [] (row ∷ t) v w = absurd w
rows_unique [] (row ∷ t) t' v w = absurd v
rows_unique (channel ∷ channels) [] t' v w = absurd v
rows_unique (channel ∷ channels) (row ∷ t) [] v w = absurd w
rows_unique (channel ∷ channels) ((name, subs) ∷ t) ((name', subs') ∷ t') (n, g, v) (n', g', w) =
    let names : name ≡ name' = sym n ∙ n' in
    let held : subs ≡ subs' =
      Holds-unique subs subs' channel.subscriptions g.0.held g'.0.held
        (sym g.0.count ∙ g'.0.count) in
    ap₂ (λ r rs. r ∷ rs) (ap₂ (λ x y. (x, y)) names held) (rows_unique channels t t' v w)

-- The table of a client is determined.
pub HasTable-unique :
    {J T : Type 0} (c : Client J T) (table table' : Table)
    → HasTable c table
    → HasTable c table'
    → table ≡ table'
HasTable-unique c table table' v w =
    let same : v.channels ≡ w.channels =
      Holds-unique v.channels w.channels c.channels v.held w.held (sym v.count ∙ w.count) in
    rows_unique w.channels table table' (subst (λ cs. AreChannels cs table) same v.rows) w.rows
