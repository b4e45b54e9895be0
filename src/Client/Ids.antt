-- ===== src/Client/Ids.antt =====
-- The counters of batch and message ids.
use libbayeux.Prelude.{ℕ, zero, suc, ◌+◌, ◌%◌, ◌<◌, ◌≡◌, ◌≢◌, ◌∙◌, arith}
use libbayeux.Client.{Client}
use libbayeux.Client.Schedule.{bump, next_message_id}

-- the ids that can be given out
abbrev pub IsId : ℕ → Type 0
IsId id = id < 0xffffffff

-- From a valid id, the counter runs through the 2 ^ 32 - 1 ids that are not 0xffffffff, and starts
-- again at 0.
pub bump-eq-mod : (id : ℕ) → IsId id → bump 0xffffffff id ≡ (id + 1) % 0xffffffff
unfolding bump
bump-eq-mod id h = ground arith

module _ {J T : Type 0} where
  -- the client when this many message ids have been taken from it
  unfoldable pub ids_taken : ℕ → Client J T → Client J T
  unfolding next_message_id
  ids_taken zero c = c
  ids_taken (suc k) c = ids_taken k (next_message_id c).1

  ids_taken-eq-mod :
      (k : ℕ) (c : Client J T)
      → IsId c.message_id
      → (ids_taken k c).message_id ≡ (c.message_id + k) % 0xffffffff
  unfolding ids_taken next_message_id
  ids_taken-eq-mod zero c h = omega arith
  ids_taken-eq-mod (suc k) c h =
      let next = bump-eq-mod c.message_id h in
      ids_taken-eq-mod k (next_message_id c).1 (omega (arith, next)) ∙ omega (arith, next)

  -- From a valid counter, the message id that is taken after `k` others is the first one plus `k`,
  -- modulo 2 ^ 32 - 1. So it is valid, and for `k` from 1 to 2 ^ 32 - 2 it is not the first one again.
  pub next_message_id-fresh :
      (c : Client J T) (k : ℕ)
      → IsId c.message_id
      → 0 < k
      → k < 0xffffffff
      → ((next_message_id (ids_taken k c)).0 ≡ ((next_message_id c).0 + k) % 0xffffffff)
        × IsId (next_message_id (ids_taken k c)).0
        × ((next_message_id (ids_taken k c)).0 ≢ (next_message_id c).0)
  unfolding next_message_id
  next_message_id-fresh c k h some_taken few =
      let counter = ids_taken-eq-mod k c h in
      (counter, omega (arith, counter), λ e. omega (arith, counter))
