-- ===== src/Client/Channels/Deliver.antt =====
-- `channel_deliver`, against a table of channels and their subscriptions.
use libbayeux.Prelude.{
  ℕ, zero, suc, ◌+◌, ◌≡◌, refl, ap, ◌∙◌, List, [], ◌∷◌, ◌++◌, map, Option, some, arith, length,
  if◌then◌else◌, Bool-cases, inl, inr, ◌>>=◌,
}
use libbayeux.Libc.{CString, str_eq}
use libbayeux.Memory.{Block, load}
use libbayeux.Memory.Laws.{Holds}
use libbayeux.Json.{JsonC}
use libbayeux.Client.{Client, Channel, Subscription, Effect, called}
use libbayeux.Client.Channels.{call_subscriptions, deliver_from, channel_deliver}
use libbayeux.Client.Channels.Subscribe.{IsChannel}
use libbayeux.Client.Channels.Table.{Table, AreChannels, HasTable}

call_subscriptions-shift :
    (c : Option Subscription) (b : Block Subscription) (text : CString) (rounds i : ℕ)
    → call_subscriptions (c ∷ b) text rounds (suc i) ≡ call_subscriptions b text rounds i
unfolding call_subscriptions load
call_subscriptions-shift c b text zero i = refl
call_subscriptions-shift c b text (suc rounds) i =
    let later : call_subscriptions (c ∷ b) text rounds (suc i + 1)
        ≡ call_subscriptions b text rounds (i + 1) =
      ap (call_subscriptions (c ∷ b) text rounds) {x = suc i + 1} {y = suc (i + 1)} (omega arith)
      ∙ call_subscriptions-shift c b text rounds (i + 1) in
    rw later refl

call_subscriptions-map :
    (subs : List Subscription) (b : Block Subscription) (text : CString)
    → Holds subs b
    → call_subscriptions b text (length subs) 0 ≡ some (map (λ s. called s text) subs)
unfolding call_subscriptions load
call_subscriptions-map [] b text h = refl
call_subscriptions-map (s ∷ subs) [] text h = absurd h.1
call_subscriptions-map (s ∷ subs) (c ∷ b) text h =
    let later : call_subscriptions (c ∷ b) text (length subs) 1
        ≡ some (map (λ s. called s text) subs) =
      call_subscriptions-shift c b text (length subs) 0 ∙ call_subscriptions-map subs b text h.1 in
    rw (later, h.0, ◌>>=◌) refl

-- the calls that an event on `target` makes
abbrev pub deliveries : CString → CString → Table → List Effect
deliveries target text [] = []
deliveries target text ((name, subs) ∷ table) =
    (if str_eq target name then map (λ s. called s text) subs else [])
    ++ deliveries target text table

deliver_from-shift :
    (c : Option Channel) (b : Block Channel) (target text : CString) (rounds i : ℕ)
    → deliver_from (c ∷ b) target text rounds (suc i) ≡ deliver_from b target text rounds i
unfolding deliver_from load
deliver_from-shift c b target text zero i = refl
deliver_from-shift c b target text (suc rounds) i =
    let later : deliver_from (c ∷ b) target text rounds (suc i + 1)
        ≡ deliver_from b target text rounds (i + 1) =
      ap (deliver_from (c ∷ b) target text rounds) {x = suc i + 1} {y = suc (i + 1)} (omega arith)
      ∙ deliver_from-shift c b target text rounds (i + 1) in
    rw later refl

-- One round of the loop.
deliver_step :
    (b : Block Channel) (target text : CString) (rounds i : ℕ) (channel : Channel)
    (subs : List Subscription) (later : List Effect)
    → load b i ≡ some channel
    → IsChannel channel subs
    → deliver_from b target text rounds (i + 1) ≡ some later
    → deliver_from b target text (suc rounds) i
      ≡ some ((if str_eq target channel.name then map (λ s. called s text) subs else []) ++ later)
unfolding deliver_from
deliver_step b target text rounds i channel subs later read v rest =
    let calls : call_subscriptions channel.subscriptions text channel.count 0
        ≡ some (map (λ s. called s text) subs) =
      ap (λ n. call_subscriptions channel.subscriptions text n 0) v.count
      ∙ call_subscriptions-map subs channel.subscriptions text v.held in
    rw (read, ◌>>=◌, calls, rest)
      (elim (Bool-cases (str_eq target channel.name)) [ inl hit ↦ rw hit | inr miss ↦ rw miss ])

deliver_from-deliveries :
    (channels : List Channel) (table : Table) (b : Block Channel) (target text : CString)
    → Holds channels b
    → AreChannels channels table
    → deliver_from b target text (length channels) 0 ≡ some (deliveries target text table)
unfolding deliver_from
deliver_from-deliveries [] [] b target text h rows = refl
deliver_from-deliveries [] (row ∷ table) b target text h rows = absurd rows
deliver_from-deliveries (c ∷ cs) [] b target text h rows = absurd rows
deliver_from-deliveries (c ∷ cs) (row ∷ table) [] target text h rows = absurd h.1
deliver_from-deliveries (c ∷ cs) ((name, subs) ∷ table) (x ∷ b) target text h rows =
    deliver_step (x ∷ b) target text (length cs) 0 c subs (deliveries target text table)
      (unfold load in h.0) rows.1.0
      (deliver_from-shift x b target text (length cs) 0
        ∙ deliver_from-deliveries cs table b target text h.1 rows.2)
    ∙ ap
        (λ n. some (
          (if str_eq target n then map (λ s. called s text) subs else [])
          ++ deliveries target text table))
        rows.0

module _ {J T : Type 0} (json : JsonC J) where
  -- With the channels of a table, an event calls exactly the subscriptions of the channels with
  -- its name, each once with the text of its data, in the order in which they were registered, and
  -- changes nothing else.
  pub channel_deliver-deliveries :
      (c : Client J T) (table : Table) (target : CString) (msg_data : J)
      → HasTable c table
      → channel_deliver json c target msg_data
        ≡ some (record c {
          effects = c.effects ++ deliveries target (json.to_json_string msg_data) table;
        })
  unfolding channel_deliver
  channel_deliver-deliveries c table target msg_data v =
      let run : deliver_from c.channels target (json.to_json_string msg_data) c.channel_count 0
          ≡ some (deliveries target (json.to_json_string msg_data) table) =
        ap (λ n. deliver_from c.channels target (json.to_json_string msg_data) n 0) v.count
        ∙ deliver_from-deliveries v.channels table c.channels target (json.to_json_string msg_data)
            v.held v.rows in
      rw (run, ◌>>=◌) refl
