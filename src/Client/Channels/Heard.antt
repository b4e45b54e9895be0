-- ===== src/Client/Channels/Heard.antt =====
-- The callbacks that are called are among those of the table.
use libbayeux.Prelude.{
  ◌≡◌, refl, sym, ap, ◌∙◌, ◌⊎◌, inl, inr, List, [], ◌∷◌, ◌++◌, map, All, Bool-cases, append_assoc,
  append-nil, All-append,
}
use libbayeux.Libc.{CString, str_eq}
use libbayeux.Client.{Client, Subscription, Effect, called, sent}
use libbayeux.Client.Channels.Deliver.{deliveries}
use libbayeux.Client.Channels.Table.{Table}

-- It is one of these.
abbrev pub Within : Subscription → List Subscription → Type 0
Within sub [] = ⊥
Within sub (s ∷ subs) = (sub ≡ s) ⊎ Within sub subs

-- It is registered for some channel.
abbrev pub IsRegistered : Subscription → Table → Type 0
IsRegistered sub [] = ⊥
IsRegistered sub ((name, subs) ∷ table) = Within sub subs ⊎ IsRegistered sub table

-- If it is the call of a callback, then of one that is registered.
abbrev pub ComesFrom : Table → Effect → Type 0
ComesFrom table (called sub text) = IsRegistered sub table
ComesFrom table (sent body) = Unit

map-ComesFrom :
    (subs : List Subscription) (text : CString) (table : Table)
    → ((sub : Subscription) → Within sub subs → IsRegistered sub table)
    → All (ComesFrom table) (map (λ s. called s text) subs)
map-ComesFrom [] text table h = tt
map-ComesFrom (s ∷ subs) text table h =
    (h s (inl refl), map-ComesFrom subs text table (λ sub w. h sub (inr w)))

weakened :
    (calls : List Effect) (table : Table) (name : CString) (subs : List Subscription)
    → All (ComesFrom table) calls
    → All (ComesFrom ((name, subs) ∷ table)) calls
weakened [] table name subs v = tt
weakened (called sub text ∷ calls) table name subs v = (inr v.0, weakened calls table name subs v.1)
weakened (sent body ∷ calls) table name subs v = (tt, weakened calls table name subs v.1)

pub deliveries-ComesFrom :
    (target text : CString) (table : Table) → All (ComesFrom table) (deliveries target text table)
deliveries-ComesFrom target text [] = tt
deliveries-ComesFrom target text ((name, subs) ∷ table) =
    let later =
      weakened (deliveries target text table) table name subs
        (deliveries-ComesFrom target text table) in
    elim (Bool-cases (str_eq target name)) [
      | inl same ↦ rw same (
          All-append (ComesFrom ((name, subs) ∷ table)) (map (λ s. called s text) subs)
            (deliveries target text table)
            (map-ComesFrom subs text ((name, subs) ∷ table) (λ sub w. inl w)) later)
      | inr other ↦ rw other later
    ]

module _ {J T : Type 0} where
  -- Between the two, only registered callbacks were called.
  abbrev pub Heard : Table → Client J T → Client J T → Type 0
  Heard table c d =
      (calls : List Effect) × (d.effects ≡ c.effects ++ calls) × All (ComesFrom table) calls

  pub Heard-same : (table : Table) (c d : Client J T) → d.effects ≡ c.effects → Heard table c d
  Heard-same table c d same = ([], same ∙ sym (append-nil c.effects), tt)

  pub Heard-trans :
      (table : Table) (c d e : Client J T) → Heard table c d → Heard table d e → Heard table c e
  Heard-trans table c d e (calls, first, v) (more, later, w) = (
    calls ++ more,
    later ∙ ap (λ l. l ++ more) first ∙ append_assoc c.effects calls more,
    All-append (ComesFrom table) calls more v w,
  )
