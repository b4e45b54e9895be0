-- ===== src/Client/Connect/Advised.antt =====
-- The advice of the server, against a table of the words that it uses.
use libbayeux.Prelude.{
  ◌≡◌, refl, sym, ap, ◌∙◌, true, Option, none, some, if◌then◌else◌, Bool-cases, inl, inr,
}
use libbayeux.Libc.{CString, codes, str_eq, str_eq_iff}
use libbayeux.Client.{Reconnect, reconnect_handshake, reconnect_none, reconnect_retry}
use libbayeux.Client.Connect.{match_reconnect, reconnect_strs, or_else}

-- what a word advises, where it is known
abbrev pub word_advice : CString → Option Reconnect
word_advice word =
    if str_eq word (codes "handshake")
    then some reconnect_handshake
    else (if str_eq word (codes "none")
        then some reconnect_none
        else (if str_eq word (codes "retry") then some reconnect_retry else none))

handshake_word :
    (current : Reconnect)
    → match_reconnect reconnect_strs (codes "handshake") current ≡ reconnect_handshake
unfolding match_reconnect str_eq
handshake_word reconnect_handshake = refl
handshake_word reconnect_none = refl
handshake_word reconnect_retry = refl

none_word :
    (current : Reconnect) → match_reconnect reconnect_strs (codes "none") current ≡ reconnect_none
unfolding match_reconnect str_eq
none_word reconnect_handshake = refl
none_word reconnect_none = refl
none_word reconnect_retry = refl

retry_word :
    (current : Reconnect) → match_reconnect reconnect_strs (codes "retry") current ≡ reconnect_retry
unfolding match_reconnect str_eq
retry_word reconnect_handshake = refl
retry_word reconnect_none = refl
retry_word reconnect_retry = refl

same_word :
    (word literal : CString) (current : Reconnect)
    → str_eq word literal ≡ true
    → match_reconnect reconnect_strs word current ≡ match_reconnect reconnect_strs literal current
same_word word literal current same =
    ap (λ w. match_reconnect reconnect_strs w current) ((str_eq_iff word literal).0 same)

-- The loop over the table, with its break only where the value changes, is a lookup: a known word
-- sets the advice that it stands for, whatever held before, and an unknown word changes nothing.
pub match_reconnect_lem :
    (word : CString) (current : Reconnect)
    → match_reconnect reconnect_strs word current ≡ or_else (word_advice word) current
unfolding match_reconnect
match_reconnect_lem word current = elim (Bool-cases (str_eq word (codes "handshake"))) [
  | inl handshake ↦
      let found : or_else (word_advice word) current ≡ reconnect_handshake = rw handshake in
      same_word word (codes "handshake") current handshake ∙ handshake_word current ∙ sym found
  | inr other ↦ elim (Bool-cases (str_eq word (codes "none"))) [
    | inl never ↦
        let found : or_else (word_advice word) current ≡ reconnect_none = rw (other, never) in
        same_word word (codes "none") current never ∙ none_word current ∙ sym found
    | inr still ↦ elim (Bool-cases (str_eq word (codes "retry"))) [
      | inl retry ↦
          let found : or_else (word_advice word) current ≡ reconnect_retry =
            rw (other, still, retry) in
          same_word word (codes "retry") current retry ∙ retry_word current ∙ sym found
      | inr unknown ↦ rw (other, still, unknown)
    ]
  ]
]
