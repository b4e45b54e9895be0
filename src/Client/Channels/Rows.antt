-- ===== src/Client/Channels/Rows.antt =====
-- The search of `channels_subscribe`, and the rows of the table.
use libbayeux.Prelude.{
  ℕ, zero, suc, ◌+◌, ◌<◌, ◌≡◌, refl, ap, subst, ◌∙◌, true, false, List, [], ◌∷◌, ◌++◌, Option, none,
  some, arith, length, set, get_elem?, if◌then◌else◌, ◌>>=◌, >>=-eq-some, Bool-cases, Option-cases,
  inl, inr,
}
use libbayeux.Libc.{CString, str_eq}
use libbayeux.Memory.{Block, load}
use libbayeux.Memory.Laws.{Holds}
use libbayeux.Client.{Channel, Subscription}
use libbayeux.Client.Channels.{find_channel}
use libbayeux.Client.Channels.Subscribe.{IsGrown}
use libbayeux.Client.Channels.Table.{Table, AreChannels}

-- the index of the first row with a name
abbrev pub row_of : CString → Table → Option ℕ
row_of name [] = none
row_of name ((row, subs) ∷ table) =
    if str_eq row name then some 0 else (row_of name table >>= λ i. some (suc i))

-- the subscriptions of that row
abbrev pub listeners : CString → Table → List Subscription
listeners name [] = []
listeners name ((row, subs) ∷ table) = if str_eq row name then subs else listeners name table

-- The table with one more subscription: behind those of the first row with the name, or in a new
-- row behind the others.
abbrev pub subscribed : CString → Subscription → Table → Table
subscribed name sub [] = (name, sub ∷ []) ∷ []
subscribed name sub ((row, subs) ∷ table) =
    if str_eq row name
    then (row, subs ++ (sub ∷ [])) ∷ table
    else (row, subs) ∷ subscribed name sub table

find_channel-shift :
    (c : Option Channel) (b : Block Channel) (name : CString) (rounds i : ℕ)
    → find_channel (c ∷ b) name rounds (suc i)
      ≡ (find_channel b name rounds i >>= λ r. some (r >>= λ j. some (suc j)))
unfolding find_channel load
find_channel-shift c b name zero i = refl
find_channel-shift c b name (suc rounds) i = elim (Option-cases (load b i)) [
  | inl e ↦ rw (e, ◌>>=◌)
  | inr (x, e) ↦
      rw (e, ◌>>=◌)
        (elim (Bool-cases (str_eq x.name name)) [
          | inl hit ↦ rw hit
          | inr miss ↦ rw miss (
              ap (find_channel (c ∷ b) name rounds) (omega arith)
              ∙ find_channel-shift c b name rounds (i + 1))
        ])
]

find_channel_step :
    (b : Block Channel) (name : CString) (rounds : ℕ) (channel : Channel)
    → load b 0 ≡ some channel
    → find_channel b name (suc rounds) 0
      ≡ (if str_eq channel.name name then some (some 0) else find_channel b name rounds 1)
unfolding find_channel
find_channel_step b name rounds channel e = rw (e, ◌>>=◌) refl

pub find_channel-row_of :
    (channels : List Channel) (table : Table) (b : Block Channel) (name : CString)
    → Holds channels b
    → AreChannels channels table
    → find_channel b name (length channels) 0 ≡ some (row_of name table)
unfolding find_channel
find_channel-row_of [] [] b name h rows = refl
find_channel-row_of [] (row ∷ table) b name h rows = absurd rows
find_channel-row_of (c ∷ cs) [] b name h rows = absurd rows
find_channel-row_of (c ∷ cs) (row ∷ table) [] name h rows = absurd h.1
find_channel-row_of (c ∷ cs) ((row, subs) ∷ table) (x ∷ b) name h rows =
    let rest = find_channel-row_of cs table b name h.1 rows.2 in
    let same : str_eq c.name name ≡ str_eq row name = ap (λ n. str_eq n name) rows.0 in
    let step = find_channel_step (x ∷ b) name (length cs) c (unfold load in h.0) in
    elim (Bool-cases (str_eq row name)) [
      | inl hit ↦ rw hit (step ∙ rw (same, hit) refl)
      | inr miss ↦ rw miss (
          step
          ∙ rw (same, miss) refl
          ∙ find_channel-shift x b name (length cs) 0
          ∙ rw (rest, ◌>>=◌) refl)
    ]

-- The row that was found, and the table with its channel replaced.
pub record FoundRow (name : CString) (sub : Subscription) (channels : List Channel) (table : Table)
    (i : ℕ) : Type 0 where
  pub channel : Channel
  pub at : get_elem? channels i ≡ some channel
  pub inside : i < length channels
  pub grown : IsGrown channel (listeners name table)
  pub replaced :
      (channel' : Channel)
      → IsGrown channel' (listeners name table ++ (sub ∷ []))
      → channel'.name ≡ channel.name
      → AreChannels (set channels i channel') (subscribed name sub table)

first_row :
    (name : CString) (sub : Subscription) (c : Channel) (cs : List Channel) (row : CString)
    (subs : List Subscription) (table : Table)
    → AreChannels (c ∷ cs) ((row, subs) ∷ table)
    → str_eq row name ≡ true
    → FoundRow name sub (c ∷ cs) ((row, subs) ∷ table) zero
first_row name sub c cs row subs table rows hit = record {
  channel = c;
  at = refl;
  inside = omega arith;
  grown = rw hit rows.1;
  replaced = λ channel' v same. rw hit (same ∙ rows.0, rw hit at v, rows.2);
}

later_row :
    (name : CString) (sub : Subscription) (c : Channel) (cs : List Channel) (row : CString)
    (subs : List Subscription) (table : Table) (i : ℕ)
    → AreChannels (c ∷ cs) ((row, subs) ∷ table)
    → str_eq row name ≡ false
    → FoundRow name sub cs table i
    → FoundRow name sub (c ∷ cs) ((row, subs) ∷ table) (suc i)
later_row name sub c cs row subs table i rows miss found = record {
  channel = found.channel;
  at = found.at;
  inside = omega (arith, found.inside);
  grown = rw miss found.grown;
  replaced =
      λ channel' v same. rw miss (rows.0, rows.1, found.replaced channel' (rw miss at v) same);
}

pub found_row :
    (name : CString) (sub : Subscription) (channels : List Channel) (table : Table) (i : ℕ)
    → AreChannels channels table
    → row_of name table ≡ some i
    → FoundRow name sub channels table i
found_row name sub [] [] i rows e = cc
found_row name sub [] (row ∷ table) i rows e = absurd rows
found_row name sub (c ∷ cs) [] i rows e = absurd rows
found_row name sub (c ∷ cs) ((row, subs) ∷ table) i rows e = elim (Bool-cases (str_eq row name)) [
  | inl hit ↦
      let zero_index : zero ≡ i = ground arith in
      subst (FoundRow name sub (c ∷ cs) ((row, subs) ∷ table)) zero_index
        (first_row name sub c cs row subs table rows hit)
  | inr miss ↦
      let (j, below, next) = >>=-eq-some (row_of name table) (λ j. some (suc j)) (rw miss at e) in
      let index : suc j ≡ i = cc in
      subst (FoundRow name sub (c ∷ cs) ((row, subs) ∷ table)) index (
        later_row name sub c cs row subs table j rows miss
          (found_row name sub cs table j rows.2 below))
]

-- Where no row has the name, a new one comes behind the others.
pub new_row :
    (name : CString) (sub : Subscription) (channels : List Channel) (table : Table)
    (channel : Channel)
    → AreChannels channels table
    → row_of name table ≡ none
    → IsGrown channel (sub ∷ [])
    → channel.name ≡ name
    → AreChannels (channels ++ (channel ∷ [])) (subscribed name sub table)
new_row name sub [] [] channel rows e v same = (same, v, tt)
new_row name sub [] (row ∷ table) channel rows e v same = absurd rows
new_row name sub (c ∷ cs) [] channel rows e v same = absurd rows
new_row name sub (c ∷ cs) ((row, subs) ∷ table) channel rows e v same =
    elim (Bool-cases (str_eq row name)) [
      | inl hit ↦ let impossible = rw hit at e in cc
      | inr miss ↦ elim (Option-cases (row_of name table)) [
        | inl none_below ↦
            rw miss (rows.0, rows.1, new_row name sub cs table channel rows.2 none_below v same)
        | inr (j, below) ↦ let impossible = rw (miss, below) at e in cc
      ]
    ]
