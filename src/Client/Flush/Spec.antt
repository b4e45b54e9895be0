-- ===== src/Client/Flush/Spec.antt =====
-- What a flush of the outbox has to do, over the list of entries: every queued entry is stamped with
-- the next message id, and the stamped messages are encoded in order.
use libbayeux.Prelude.{
  ℕ, ◌≤◌, ◌<◌, ◌≡◌, refl, ap, ◌∙◌, true, false, List, [], ◌∷◌, ◌++◌, Option, arith, length, lt→ltb,
  length-append, append_assoc, ltb, ◌==◌, if◌then◌else◌, Bool-cases, inl, inr,
}
use libbayeux.Libc.{CString, codes, print_hex}
use libbayeux.Json.{JsonC, Laws}
use libbayeux.Json.Util.{json_set_string}
use libbayeux.MsgQueue.{msg_id_invalid}
use libbayeux.MsgQueue.Entries.{Entry}
use libbayeux.Client.Schedule.{bump}
use libbayeux.Client.Flush.{set_client_id}

module _ {J : Type 0} (json : JsonC J) (client_id : Option CString) (batch : ℕ) where
  abbrev pub stamped : ℕ → Entry J → Entry J
  stamped next e = record e {
    msg = set_client_id json client_id (json_set_string json e.msg (codes "id") (print_hex next));
    batch_id = batch;
    msg_id = next;
  }

  unfoldable pub flushed : ℕ → List (Entry J) → List (Entry J)
  flushed next [] = []
  flushed next (e ∷ es) =
      if e.msg_id == msg_id_invalid
      then stamped next e ∷ flushed (bump msg_id_invalid next) es
      else e ∷ flushed next es

  unfoldable pub outgoing : ℕ → List (Entry J) → List CString
  outgoing next [] = []
  outgoing next (e ∷ es) =
      if e.msg_id == msg_id_invalid
      then json.to_json_string (stamped next e).msg ∷ outgoing (bump msg_id_invalid next) es
      else outgoing next es

module _ {J : Type 0} where
  unfoldable pub next_after : ℕ → List (Entry J) → ℕ
  next_after next [] = next
  next_after next (e ∷ es) =
      if e.msg_id == msg_id_invalid
      then next_after (bump msg_id_invalid next) es
      else next_after next es

module _ {J : Type 0} (json : JsonC J) (client_id : Option CString) (batch next : ℕ) (e : Entry J)
    (es : List (Entry J)) where
  pub spec_queued :
      (e.msg_id == msg_id_invalid) ≡ true
      → (next_after next (e ∷ es) ≡ next_after (bump msg_id_invalid next) es)
        × (outgoing json client_id batch next (e ∷ es)
            ≡ json.to_json_string (stamped json client_id batch next e).msg
              ∷ outgoing json client_id batch (bump msg_id_invalid next) es)
        × (flushed json client_id batch next (e ∷ es)
            ≡ stamped json client_id batch next e
              ∷ flushed json client_id batch (bump msg_id_invalid next) es)
  unfolding flushed outgoing next_after
  spec_queued h = (rw h, rw h, rw h)

  pub spec_in_flight :
      (e.msg_id == msg_id_invalid) ≡ false
      → (next_after next (e ∷ es) ≡ next_after next es)
        × (outgoing json client_id batch next (e ∷ es) ≡ outgoing json client_id batch next es)
        × (flushed json client_id batch next (e ∷ es) ≡ e ∷ flushed json client_id batch next es)
  unfolding flushed outgoing next_after
  spec_in_flight h = (rw h, rw h, rw h)

-- texts with a comma between each two
abbrev pub joined : List CString → CString
joined [] = []
joined (t ∷ []) = t
joined (t ∷ u ∷ ts) = t ++ (b',' ∷ joined (u ∷ ts))

-- the body of a request
abbrev pub batch_text : List CString → CString
batch_text ts = b'[' ∷ (joined ts ++ (b']' ∷ []))

-- a comma behind whatever is more than the opening bracket
abbrev pub separated : CString → CString
separated acc = if ltb 1 (length acc) then acc ++ (b',' ∷ []) else acc

-- The same text as the code builds it.
abbrev pub accumulated : CString → List CString → CString
accumulated acc [] = acc
accumulated acc (t ∷ ts) = accumulated (separated acc ++ t) ts

-- no text is empty
abbrev pub Nonempty : List CString → Type 0
Nonempty [] = Unit
Nonempty (t ∷ ts) = (0 < length t) × Nonempty ts

separated_long : (acc t : CString) → 1 < length acc → separated acc ++ t ≡ acc ++ (b',' ∷ t)
separated_long acc t long = rw (lt→ltb 1 (length acc) long) (append_assoc acc (b',' ∷ []) t)

accumulated_long :
    (acc t : CString) (ts : List CString)
    → 1 < length acc
    → Nonempty (t ∷ ts)
    → accumulated acc (t ∷ ts) ≡ acc ++ (b',' ∷ joined (t ∷ ts))
accumulated_long acc t [] long h = separated_long acc t long
accumulated_long acc t (u ∷ ts) long h =
    ap (λ a. accumulated a (u ∷ ts)) (separated_long acc t long)
    ∙ accumulated_long (acc ++ (b',' ∷ t)) u ts (omega (arith, length-append acc (b',' ∷ t))) h.1
    ∙ append_assoc acc (b',' ∷ t) (b',' ∷ joined (u ∷ ts))

pub accumulated-joined :
    (ts : List CString) → Nonempty ts → accumulated (b'[' ∷ []) ts ≡ b'[' ∷ joined ts
accumulated-joined [] h = refl
accumulated-joined (t ∷ []) h = refl
accumulated-joined (t ∷ u ∷ ts) h = accumulated_long (b'[' ∷ t) u ts (omega arith) h.1

pub length-separated : (acc t : CString) → length acc ≤ length (separated acc ++ t)
length-separated acc t = elim (Bool-cases (ltb 1 (length acc))) [
  | inl long ↦
      rw (long, append_assoc acc (b',' ∷ []) t) (omega (arith, length-append acc (b',' ∷ t)))
  | inr short ↦ rw short (omega (arith, length-append acc t))
]

pub length-accumulated :
    (acc : CString) (ts : List CString) → length acc ≤ length (accumulated acc ts)
length-accumulated acc [] = omega arith
length-accumulated acc (t ∷ ts) =
    omega (arith, length-separated acc t, length-accumulated (separated acc ++ t) ts)

pub outgoing-Nonempty :
    {J : Type 0} (json : JsonC J) (laws : Laws json) (client_id : Option CString) (batch next : ℕ)
    (es : List (Entry J))
    → Nonempty (outgoing json client_id batch next es)
unfolding outgoing
outgoing-Nonempty json laws client_id batch next [] = tt
outgoing-Nonempty json laws client_id batch next (e ∷ es) =
    elim (Bool-cases (e.msg_id == msg_id_invalid)) [
      | inl queued ↦ rw queued (
        laws.text-nonempty _,
        outgoing-Nonempty json laws client_id batch (bump msg_id_invalid next) es,
      )
      | inr sent ↦ rw sent (outgoing-Nonempty json laws client_id batch next es)
    ]
