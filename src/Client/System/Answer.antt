-- ===== src/Client/System/Answer.antt =====
-- The last entry of an outbox, and the answer to it.
use libbayeux.Prelude.{
  ℕ, zero, suc, ◌≡◌, ◌≢◌, refl, ap, subst, ◌∙◌, true, List, [], ◌∷◌, ◌++◌, map, Option, some, none,
  length, All, get_elem?, erase_idx, inl, inr,
}
use libbayeux.Libc.{CString, codes, str_eq}
use libbayeux.Json.{JsonC}
use libbayeux.Json.Util.{json_get_string, json_get_bool}
use libbayeux.MsgQueue.{MsgQueue}
use libbayeux.MsgQueue.Entries.{Entry, IsQueue}
use libbayeux.Client.{Client, Timers, connected}
use libbayeux.Client.Messages.{json_get_msg_id}
use libbayeux.Client.Connect.{handle_advice}
use libbayeux.Client.Flush.Single.{at_index}
use libbayeux.Client.Receive.{on_msg_recv, call_recv, recv_handshake, recv_handshake_success}
use libbayeux.Client.Receive.Answer.{on_msg_recv-Answered}

module _ {J : Type 0} where
  pub get_elem?-last {ℓ} :
      {A : Type ℓ} (f : Entry J → A) (es : List (Entry J)) (e : Entry J)
      → get_elem? (map f (es ++ (e ∷ []))) (length es) ≡ some (f e)
  get_elem?-last f [] e = refl
  get_elem?-last f (x ∷ es) e = get_elem?-last f es e

  pub at_index-last :
      (g : Entry J → Entry J) (es : List (Entry J)) (e : Entry J)
      → at_index g (es ++ (e ∷ [])) (length es) ≡ es ++ (g e ∷ [])
  at_index-last g [] e = refl
  at_index-last g (x ∷ es) e = ap (λ t. x ∷ t) (at_index-last g es e)

  -- Of the entries the last alone has the id.
  only_last :
      (es : List (Entry J)) (e x : Entry J) (id i : ℕ)
      → All (λ e'. e'.msg_id ≢ id) es
      → get_elem? (es ++ (e ∷ [])) i ≡ some x
      → x.msg_id ≡ id
      → (x ≡ e) × (erase_idx (es ++ (e ∷ [])) i ≡ es)
  only_last [] e x id zero a at same = (cc, refl)
  only_last [] e x id (suc i) a at same = cc
  only_last (y ∷ es) e x id zero a at same =
      let it : y ≡ x = cc in absurd (a.0 (ap (λ (z : Entry J). z.msg_id) it ∙ same))
  only_last (y ∷ es) e x id (suc i) a at same =
      let (it, rest) = only_last es e x id i a.1 at same in (it, ap (λ t. y ∷ t) rest)

  not-All :
      (es : List (Entry J)) (e : Entry J) (id : ℕ)
      → e.msg_id ≡ id
      → All (λ e'. e'.msg_id ≢ id) (es ++ (e ∷ []))
      → ⊥
  not-All [] e id same a = a.0 same
  not-All (y ∷ es) e id same a = not-All es e id same a.1

module _ {J T : Type 0} where
  -- connected under this id, with no handshake noted
  abbrev pub Connected : Client J T → CString → Type 0
  Connected c client_id =
      (c.state ≡ connected) × (c.id ≡ some client_id) × (c.handshake_msg_index ≡ none)

module _ {J T : Type 0} (json : JsonC J) (ev : Timers T) where
  -- The answer to the last entry.
  pub answer_last :
      (c : Client J T) (es : List (Entry J)) (e : Entry J) (answer : Option J)
      → IsQueue c.outbox (es ++ (e ∷ []))
      → All (λ e'. e'.msg_id ≢ e.msg_id) es
      → json.object_get answer (codes "data") ≡ none
      → json_get_msg_id json answer ≡ some e.msg_id
      → (outbox : MsgQueue J) × (on_msg_recv json ev c answer
          ≡ some (record (call_recv json ev e.func (handle_advice json ev c answer) answer) {
            outbox = outbox;
          }))
        × IsQueue outbox es
  answer_last c es e answer q others no_data got =
      elim (on_msg_recv-Answered json ev c answer (es ++ (e ∷ [])) e.msg_id q no_data got) [
        | inl (a, _) ↦ absurd (not-All es e e.msg_id refl a)
        | inr (i, x, outbox, at, same, _, ran, _, q') ↦
            let (it, rest) = only_last es e x e.msg_id i others at same in
            (
              outbox,
              ran
                  ∙ ap
                      (λ (z : Entry J).
                        some
                          (record (call_recv json ev z.func (handle_advice json ev c answer)
                            answer) { outbox = outbox }))
                      it,
              subst (IsQueue outbox) rest q',
            )
      ]

  pub recv_handshake-Connected :
      (c : Client J T) (answer : Option J) (client_id : CString)
      → json_get_bool json answer (codes "successful") ≡ some true
      → json_get_string json answer (codes "channel") ≡ some (codes "/meta/handshake")
      → json_get_string json answer (codes "clientId") ≡ some client_id
      → Connected (recv_handshake json ev c answer) client_id
  unfolding recv_handshake recv_handshake_success str_eq
  recv_handshake-Connected c answer client_id ok channel id =
      rw (recv_handshake, ok, recv_handshake_success, channel, id) (refl, refl, refl)
