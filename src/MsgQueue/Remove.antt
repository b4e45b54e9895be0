-- ===== src/MsgQueue/Remove.antt =====
-- `msg_queue_remove_ordered`, over the list of entries.
use libbayeux.Prelude.{
  ap, ◌≤◌, none, set, length-set, ℕ, zero, suc, ◌+◌, ◌-◌, ◌<◌, ◌≡◌, refl, ◌∙◌, List, [], ◌∷◌, map,
  some, arith, length, ltb, lt→ltb, le→ltb, if◌then◌else◌, length-map, ◌>>=◌, erase_idx,
  map-erase_idx, length-erase_idx, get_elem?-lt-length, dec_lt,
}
use libbayeux.Memory.{Block, load, memmove}
use libbayeux.Memory.Laws.{Holds, load-Holds, memmove-Holds}
use libbayeux.MsgQueue.{MsgQueue, RecvFunc, msg_queue_remove_ordered, move_down}
use libbayeux.MsgQueue.Entries.{Entry, IsQueue, msgs_of}

Holds-vacated {ℓ} :
    {A : Type ℓ} (xs : List A) (b : Block A) (i : ℕ)
    → Holds xs b
    → length xs ≤ i
    → Holds xs (set b i none)
Holds-vacated [] b i h le = tt
Holds-vacated (x ∷ xs) [] i h le = absurd h.1
Holds-vacated (x ∷ xs) (c ∷ b) zero h le = absurd (omega arith)
Holds-vacated (x ∷ xs) (c ∷ b) (suc i) h le = (h.0, Holds-vacated xs b i h.1 (omega arith))

module _ {J : Type 0} where
  remove_cell {ℓ} :
      {A : Type ℓ} (f : Entry J → A) (es : List (Entry J)) (b : Block A) (i n : ℕ)
      → Holds (map f es) b
      → i + 1 + n ≡ length es
      → (b' : Block A) × (memmove b i (suc i) n ≡ some b')
        × Holds (map f (erase_idx es i)) b'
        × (length b' ≡ length b)
  remove_cell f es b i n h e =
      let (b', moved, hold, len) =
        memmove-Holds (map f es) b i n h (omega (arith, length-map f es)) in
      (b', moved, rw (map-erase_idx f es i) hold, len)

  move_down_steps :
      (q : MsgQueue J) (i n : ℕ) (ms : Block J) (bs is : Block ℕ) (fs : Block RecvFunc)
      → memmove q.msgs i (suc i) n ≡ some ms
      → memmove q.batch_ids i (suc i) n ≡ some bs
      → memmove q.msg_ids i (suc i) n ≡ some is
      → memmove q.funcs i (suc i) n ≡ some fs
      → move_down q i n ≡ some (record q { msgs = ms; batch_ids = bs; msg_ids = is; funcs = fs })
  unfolding move_down
  move_down_steps q i n ms bs is fs a b c d = rw (a, ◌>>=◌, b, ◌>>=◌, c, ◌>>=◌, d, ◌>>=◌) refl

  -- The four moves take the entry out of every array.
  move_down-erase :
      (q : MsgQueue J) (es : List (Entry J)) (i n : ℕ)
      → IsQueue q es
      → i + 1 + n ≡ length es
      → (m : MsgQueue J) × (move_down q i n ≡ some m)
        × IsQueue (record m { count = q.count - 1 }) (erase_idx es i)
  move_down-erase q es i n v e =
      let (ms, a, ha, sa) = remove_cell (λ e. e.msg) es q.msgs i n v.msgs e in
      let (bs, b, hb, sb) = remove_cell (λ e. e.batch_id) es q.batch_ids i n v.batch_ids e in
      let (is, c, hc, sc) = remove_cell (λ e. e.msg_id) es q.msg_ids i n v.msg_ids e in
      let (fs, d, hd, sd) = remove_cell (λ e. e.func) es q.funcs i n v.funcs e in
      let len = length-erase_idx es i (omega arith) in
      (
        record q { msgs = ms; batch_ids = bs; msg_ids = is; funcs = fs },
        move_down_steps q i n ms bs is fs a b c d,
        record {
          count = omega (arith, v.count, len);
          within = omega (arith, v.within, len);
          msgs = ha;
          batch_ids = hb;
          msg_ids = hc;
          funcs = hd;
          msgs_size = sa ∙ v.msgs_size;
          batch_ids_size = sb ∙ v.batch_ids_size;
          msg_ids_size = sc ∙ v.msg_ids_size;
          funcs_size = sd ∙ v.funcs_size;
        },
      )

  -- The last entry goes by the count alone: what is held in front of it stays.
  Holds-drop_last {ℓ} :
      {A : Type ℓ} (f : Entry J → A) (es : List (Entry J)) (i : ℕ) (b : Block A)
      → Holds (map f es) b
      → i + 1 ≡ length es
      → Holds (map f (erase_idx es i)) b
  Holds-drop_last f [] i b h e = absurd (omega arith)
  Holds-drop_last f (x ∷ xs) i [] h e = absurd h.1
  Holds-drop_last f (x ∷ []) zero (c ∷ b) h e = tt
  Holds-drop_last f (x ∷ y ∷ xs) zero (c ∷ b) h e = absurd (omega arith)
  Holds-drop_last f (x ∷ xs) (suc i) (c ∷ b) h e = (h.0, Holds-drop_last f xs i b h.1 (omega arith))

  drop_last-IsQueue :
      (q : MsgQueue J) (es : List (Entry J)) (i : ℕ)
      → IsQueue q es
      → i + 1 ≡ length es
      → IsQueue (record q { count = q.count - 1 }) (erase_idx es i)
  drop_last-IsQueue q es i v e =
      let len = length-erase_idx es i (omega arith) in
      record {
        count = omega (arith, v.count, len);
        within = omega (arith, v.within, len);
        msgs = Holds-drop_last (λ e. e.msg) es i q.msgs v.msgs e;
        batch_ids = Holds-drop_last (λ e. e.batch_id) es i q.batch_ids v.batch_ids e;
        msg_ids = Holds-drop_last (λ e. e.msg_id) es i q.msg_ids v.msg_ids e;
        funcs = Holds-drop_last (λ e. e.func) es i q.funcs v.funcs e;
        msgs_size = v.msgs_size;
        batch_ids_size = v.batch_ids_size;
        msg_ids_size = v.msg_ids_size;
        funcs_size = v.funcs_size;
      }

  -- Inside the queue the read of the message that goes away is defined.
  msgs_read :
      (q : MsgQueue J) (es : List (Entry J)) (i : ℕ)
      → IsQueue q es
      → i < length es
      → (msg : J) × (load q.msgs i ≡ some msg)
  msgs_read q es i v lt =
      let inside : i < length (msgs_of es) =
        omega (arith, length-map (λ (e : Entry J). e.msg) es) in
      let (msg, at) = get_elem?-lt-length (msgs_of es) i inside in
      (msg, load-Holds (msgs_of es) q.msgs i v.msgs inside ∙ at)

  -- the queue behind the removal, with its last place given up
  abbrev vacated : MsgQueue J → MsgQueue J → MsgQueue J
  vacated q m = record m { msgs = set m.msgs (q.count - 1) none; count = q.count - 1 }

  vacated-IsQueue :
      (q m : MsgQueue J) (es : List (Entry J))
      → IsQueue (record m { count = q.count - 1 }) es
      → IsQueue (vacated q m) es
  vacated-IsQueue q m es v = record {
    count = v.count;
    within = v.within;
    msgs =
        Holds-vacated (msgs_of es) m.msgs (q.count - 1) v.msgs
          (omega (arith, v.count, length-map (λ (e : Entry J). e.msg) es));
    batch_ids = v.batch_ids;
    msg_ids = v.msg_ids;
    funcs = v.funcs;
    msgs_size = length-set m.msgs (q.count - 1) none ∙ v.msgs_size;
    batch_ids_size = v.batch_ids_size;
    msg_ids_size = v.msg_ids_size;
    funcs_size = v.funcs_size;
  }

  remove_steps :
      (q m : MsgQueue J) (i : ℕ) (msg : J)
      → load q.msgs i ≡ some msg
      → (if ltb i (q.count - 1) then move_down q i (q.count - i - 1) else some q) ≡ some m
      → msg_queue_remove_ordered q i ≡ some (vacated q m)
  unfolding msg_queue_remove_ordered
  remove_steps q m i msg read moved = rw (read, ◌>>=◌, moved, ◌>>=◌) refl

  -- The last entry: nothing moves, and its place is given up.
  pub msg_queue_remove_ordered-last :
      (q : MsgQueue J) (es : List (Entry J)) (i : ℕ)
      → IsQueue q es
      → i + 1 ≡ length es
      → msg_queue_remove_ordered q i
        ≡ some (record q { msgs = set q.msgs i none; count = q.count - 1 })
  msg_queue_remove_ordered-last q es i v e =
      let (msg, read) = msgs_read q es i v (omega arith) in
      let place : q.count - 1 ≡ i = omega (arith, v.count) in
      remove_steps q q i msg read (rw (le→ltb i (q.count - 1) (omega arith)) refl)
      ∙ ap (λ p. some (record q { msgs = set q.msgs p none; count = q.count - 1 })) place

  -- In a well-formed queue, `msg_queue_remove_ordered` takes the entry at an index below the count
  -- out, at either end or between, and keeps the others in their order.
  pub msg_queue_remove_ordered-erase_idx :
      (q : MsgQueue J) (es : List (Entry J)) (i : ℕ)
      → IsQueue q es
      → i < length es
      → (q' : MsgQueue J) × (msg_queue_remove_ordered q i ≡ some q') × IsQueue q' (erase_idx es i)
  msg_queue_remove_ordered-erase_idx q es i v lt =
      let (msg, read) = msgs_read q es i v lt in
      elim (dec_lt i (q.count - 1)) [
        | yes inner ↦
            let (m, moved, w) =
              move_down-erase q es i (q.count - i - 1) v (omega (arith, v.count)) in
            (
              vacated q m,
              remove_steps q m i msg read (rw (lt→ltb i (q.count - 1) inner) moved),
              vacated-IsQueue q m (erase_idx es i) w,
            )
        | no last ↦ (
          vacated q q,
          remove_steps q q i msg read (rw (le→ltb i (q.count - 1) (omega arith)) refl),
          vacated-IsQueue q q (erase_idx es i)
              (drop_last-IsQueue q es i v (omega (arith, v.count))),
        )
      ]
