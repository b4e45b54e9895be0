-- ===== src/MsgQueue/Search.antt =====
-- `msg_queue_find_by_msg_id`, over the list of entries.
use libbayeux.Prelude.{
  ℕ, zero, suc, ◌+◌, ◌≡◌, ◌≢◌, refl, sym, ap, ◌∙◌, List, [], ◌∷◌, Option, none, some, arith, length,
  ◌==◌, if◌then◌else◌, get_elem?, take, All, Bool-cases, Option-cases, inl, inr, ◌>>=◌, length-map,
}
use libbayeux.Memory.{Block, load}
use libbayeux.Memory.Laws.{Holds}
use libbayeux.MsgQueue.{MsgQueue, find_from, msg_queue_find_by_msg_id}
use libbayeux.MsgQueue.Entries.{Entry, IsQueue, msg_ids_of}

-- the first index of an id
abbrev pub index_of : ℕ → List ℕ → Option ℕ
index_of id [] = none
index_of id (x ∷ xs) = if id == x then some 0 else (index_of id xs >>= λ i. some (suc i))

-- The loop, started one place further in an array with one more cell in front.
find_from-shift :
    (c : Option ℕ) (ids : Block ℕ) (id rounds i : ℕ)
    → find_from (c ∷ ids) id rounds (suc i)
      ≡ (find_from ids id rounds i >>= λ r. some (r >>= λ j. some (suc j)))
unfolding find_from load
find_from-shift c ids id zero i = refl
find_from-shift c ids id (suc rounds) i = elim (Option-cases (load ids i)) [
  | inl e ↦ rw (e, ◌>>=◌)
  | inr (x, e) ↦
      rw (e, ◌>>=◌)
        (elim (Bool-cases (id == x)) [
          | inl hit ↦ rw hit
          | inr miss ↦ rw miss (
              ap (find_from (c ∷ ids) id rounds) (omega arith)
              ∙ find_from-shift c ids id rounds (i + 1))
        ])
]

find_from-index_of :
    (xs : List ℕ) (ids : Block ℕ) (id : ℕ)
    → Holds xs ids
    → find_from ids id (length xs) 0 ≡ some (index_of id xs)
unfolding find_from load
find_from-index_of [] ids id h = refl
find_from-index_of (x ∷ xs) [] id h = absurd h.1
find_from-index_of (x ∷ xs) (c ∷ ids) id h =
    rw (h.0, ◌>>=◌)
      (elim (Bool-cases (id == x)) [
        | inl hit ↦ rw hit
        | inr miss ↦
            rw
              (
                miss,
                find_from-shift c ids id (length xs) 0,
                find_from-index_of xs ids id h.1,
                ◌>>=◌,
              )
              refl
      ])

module _ {J : Type 0} where
  pub msg_queue_find-index_of :
      (q : MsgQueue J) (es : List (Entry J)) (id : ℕ)
      → IsQueue q es
      → msg_queue_find_by_msg_id q id ≡ some (index_of id (msg_ids_of es))
  unfolding msg_queue_find_by_msg_id
  msg_queue_find-index_of q es id v =
      rw (v.count ∙ sym (length-map (λ (e : Entry J). e.msg_id) es))
        (find_from-index_of (msg_ids_of es) q.msg_ids id v.msg_ids)

  -- What a search may answer: the first entry with the id, or nothing where no entry has it.
  abbrev pub Answers : List (Entry J) → ℕ → Option ℕ → Type 0
  Answers es id none = All (λ e. e.msg_id ≢ id) es
  Answers es id (some i) =
      (e : Entry J) × (get_elem? es i ≡ some e)
      × (e.msg_id ≡ id)
      × All (λ e'. e'.msg_id ≢ id) (take i es)

  later_answer :
      (e : Entry J) (es : List (Entry J)) (id : ℕ) (r : Option ℕ)
      → e.msg_id ≢ id
      → Answers es id r
      → Answers (e ∷ es) id (r >>= λ i. some (suc i))
  later_answer e es id none ne a = (ne, a)
  later_answer e es id (some i) ne (e', at, same, before) = (e', at, same, (ne, before))

  index_of-Answers : (es : List (Entry J)) (id : ℕ) → Answers es id (index_of id (msg_ids_of es))
  index_of-Answers [] id = tt
  index_of-Answers (e ∷ es) id = elim (Bool-cases (id == e.msg_id)) [
    | inl hit ↦ rw hit (e, refl, ground arith, tt)
    | inr miss ↦
        rw miss (
          later_answer e es id (index_of id (msg_ids_of es)) (ground arith)
            (index_of-Answers es id))
  ]

  -- In a well-formed queue, the search does not leave the arrays, and answers by the first entry
  -- with the id: -1 exactly where no entry has it.
  pub msg_queue_find_by_msg_id-Answers :
      (q : MsgQueue J) (es : List (Entry J)) (id : ℕ)
      → IsQueue q es
      → (r : Option ℕ) × (msg_queue_find_by_msg_id q id ≡ some r) × Answers es id r
  msg_queue_find_by_msg_id-Answers q es id v =
      (index_of id (msg_ids_of es), msg_queue_find-index_of q es id v, index_of-Answers es id)
