-- ===== src/Client/Messages.antt =====
-- src/bayeux.c: the messages that the client sends, and the ids in them.
use libbayeux.Prelude.{ℕ, ◌%◌, ◌^◌, Option, some, ◌>>=◌}
use libbayeux.Libc.{CString, codes, print_hex, strtoul_hex}
use libbayeux.Json.{JsonC}
use libbayeux.Json.Util.{json_get_string, json_set_string, json_set_object}
use libbayeux.Client.{Client}
use libbayeux.Client.Schedule.{next_message_id}

module _ {J : Type 0} (json : JsonC J) where
  unfoldable pub json_make_supported_conn_types : J
  json_make_supported_conn_types =
      json.array_add json.new_array (json.new_string (codes "long-polling"))

  -- `none` is `false`, with MSG_ID_INVALID in `*id`.
  unfoldable pub json_get_msg_id : Option J → Option ℕ
  json_get_msg_id msg = do
    id_str ← json_get_string json msg (codes "id")
    some (strtoul_hex id_str % 2 ^ 32)

  unfoldable pub json_set_msg_id : {T : Type 0} → J → Client J T → ℕ × J × Client J T
  unfolding next_message_id
  json_set_msg_id msg client =
      let (msg_id, client') = next_message_id client in
      (msg_id, json_set_string json msg (codes "id") (print_hex msg_id), client')

  unfoldable pub make_connect : J
  make_connect =
      json_set_string json
        (json_set_string json json.new_object (codes "channel") (codes "/meta/connect"))
        (codes "connectionType") (codes "long-polling")

  unfoldable pub make_handshake : J
  unfolding json_make_supported_conn_types
  make_handshake =
      json_set_object json
        (json_set_string json
          (json_set_string json json.new_object (codes "channel") (codes "/meta/handshake"))
          (codes "version") (codes "1.0"))
        (codes "supportedConnectionTypes") (some json_make_supported_conn_types)

  unfoldable pub make_publish : CString → CString → J
  make_publish channel text =
      json_set_object json (json_set_string json json.new_object (codes "channel") channel)
        (codes "data") (json.tokener_parse text)

  unfoldable pub make_subscribe : CString → J
  make_subscribe channel =
      json_set_string json
        (json_set_string json json.new_object (codes "channel") (codes "/meta/subscribe"))
        (codes "subscription") channel

  unfoldable pub make_unsubscribe : CString → J
  make_unsubscribe channel =
      json_set_string json
        (json_set_string json json.new_object (codes "channel") (codes "/meta/unsubscribe"))
        (codes "subscription") channel
