-- ===== src/Client/Flush/Correlate.antt =====
-- The ids in the messages that are sent, and the ids read out of answers.
use libbayeux.Prelude.{
  ℕ, ◌^◌, ◌<◌, ◌≡◌, refl, ap, ◌∙◌, true, false, Option, none, some, arith, ◌>>=◌,
}
use libbayeux.Libc.{CString, codes, str_eq, print_hex}
use libbayeux.Libc.Hex.{strtoul_hex-print_hex}
use libbayeux.Json.{JsonC, Laws, json_object}
use libbayeux.Json.Util.{
  json_get_string, json_set_string, get-set_self, get-set_other, set-IsObject,
}
use libbayeux.MsgQueue.Entries.{Entry}
use libbayeux.Client.Messages.{json_get_msg_id}
use libbayeux.Client.Flush.{set_client_id}
use libbayeux.Client.Flush.Spec.{stamped}

keys_differ : str_eq (codes "clientId") (codes "id") ≡ false
unfolding str_eq
keys_differ = refl

module _ {J : Type 0} (json : JsonC J) (laws : Laws json) where
  id_text :
      (client_id : Option CString) (msg : J) (id : CString)
      → json.is_type msg json_object ≡ true
      → json_get_string json
          (some (set_client_id json client_id (json_set_string json msg (codes "id") id)))
          (codes "id")
        ≡ some id
  unfolding set_client_id
  id_text none msg id object = get-set_self json laws msg (codes "id") id object
  id_text (some cid) msg id object =
      get-set_other json laws (json_set_string json msg (codes "id") id) (codes "clientId")
        (codes "id") cid (set-IsObject json laws msg (codes "id") id object) keys_differ
      ∙ get-set_self json laws msg (codes "id") id object

  -- Where the message is an object and its id below 2 ^ 32: an answer that carries the id text of
  -- a message that was sent is read as the id that the message was given, whatever else is in it.
  -- Printing, `clientId` and parsing lose nothing.
  pub json_get_msg_id-stamped :
      (client_id : Option CString) (batch msg_id : ℕ) (e : Entry J) (answer : Option J)
      → json.is_type e.msg json_object ≡ true
      → msg_id < 2 ^ 32
      → json_get_string json answer (codes "id")
        ≡ json_get_string json (some (stamped json client_id batch msg_id e).msg) (codes "id")
      → json_get_msg_id json answer ≡ some msg_id
  unfolding json_get_msg_id
  json_get_msg_id-stamped client_id batch msg_id e answer object word same =
      rw
        (
          same ∙ id_text client_id e.msg (print_hex msg_id) object,
          ◌>>=◌,
          strtoul_hex-print_hex msg_id word,
        )
        (ap some (omega arith))
