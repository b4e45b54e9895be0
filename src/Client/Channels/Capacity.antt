-- ===== src/Client/Channels/Capacity.antt =====
-- How many subscriptions one channel takes.
use libbayeux.Prelude.{
  ◌+◌, ◌<◌, ◌≤◌, ◌≡◌, refl, ◌∙◌, ◌⊎◌, inl, inr, List, [], ◌∷◌, ◌++◌, Option, none, some, arith,
  length, length-append, append_assoc, ◌>>=◌, ℕ_discrete, append-nil,
}
use libbayeux.Libc.{CString}
use libbayeux.Client.{Channel, Subscription}
use libbayeux.Client.Channels.{new_channel, add_subscription}
use libbayeux.Client.Channels.Subscribe.{
  IsChannel, IsGrown, new_channel-IsChannel, add_subscription-append, add_subscription-overflow,
}

-- Subscriptions to one new channel, one after the other.
unfoldable pub subscribe_all : Channel → List Subscription → Option Channel
subscribe_all channel [] = some channel
subscribe_all channel (sub ∷ subs) =
    add_subscription channel sub >>= λ channel'. subscribe_all channel' subs

subscribe_step :
    (channel c : Channel) (sub : Subscription) (subs : List Subscription)
    → add_subscription channel sub ≡ some c
    → subscribe_all channel (sub ∷ subs) ≡ subscribe_all c subs
unfolding subscribe_all
subscribe_step channel c sub subs added = rw (added, ◌>>=◌) refl

subscribe_all-from :
    (channel : Channel) (before subs : List Subscription)
    → IsGrown channel before
    → length before ≤ 16
    → ((length before + length subs ≤ 16)
        × ((channel' : Channel) × (subscribe_all channel subs ≡ some channel')
            × IsGrown channel' (before ++ subs)))
      ⊎ ((16 < length before + length subs) × (subscribe_all channel subs ≡ none))
unfolding subscribe_all
subscribe_all-from channel before [] v h = inl (omega arith, (channel, refl, rw append-nil v))
subscribe_all-from channel before (sub ∷ subs) v h = elim (ℕ_discrete (length before) 16) [
  | yes full ↦
      inr (omega arith, rw (add_subscription-overflow channel before sub v full, ◌>>=◌) refl)
  | no room ↦
      let (c, added, w, _) = add_subscription-append channel before sub v (omega arith) in
      let len = length-append before (sub ∷ []) in
      elim (subscribe_all-from c (before ++ (sub ∷ [])) subs w (omega (arith, len))) [
        | inl (fits, (c', done, w')) ↦ inl (
          omega (arith, len),
          (
            c',
            subscribe_step channel c sub subs added ∙ done,
            rw (append_assoc before (sub ∷ []) subs) at w',
          ),
        )
        | inr (past, fault) ↦
            inr (omega (arith, len), subscribe_step channel c sub subs added ∙ fault)
      ]
]

-- A new channel takes subscriptions, in their order, up to the sixteenth; with more of them, one is
-- written outside the block that `realloc` gave.
pub subscribe_all_sixteen :
    (name : CString) (subs : List Subscription)
    → ((length subs ≤ 16)
        × ((channel : Channel) × (subscribe_all (new_channel name) subs ≡ some channel)
            × IsChannel channel subs))
      ⊎ ((16 < length subs) × (subscribe_all (new_channel name) subs ≡ none))
unfolding new_channel
subscribe_all_sixteen name subs =
    elim (subscribe_all-from (new_channel name) [] subs (new_channel-IsChannel name, refl)
      (omega arith)) [
        | inl (fits, (c, done, v)) ↦ inl (omega arith, (c, done, v.0))
        | inr (past, fault) ↦ inr (omega arith, fault)
      ]
