-- ===== src/Json/Util.antt =====
-- src/json_util.c: typed access to the fields of a document.
use libbayeux.Prelude.{◌≡◌, Bool, true, false, Option, none, some, arith, if◌then◌else◌, ◌>>=◌}
use libbayeux.Prelude.Int.{ℤ}
use libbayeux.Libc.{CString, str_eq, str_eq_refl}
use libbayeux.Json.{JsonC, Laws, json_boolean, json_int, json_string, json_object}

-- A getter returns whether it has set `*val`, and to what: `none` is `false`.
module _ {J : Type 0} (json : JsonC J) where
  unfoldable pub json_get_bool : Option J → CString → Option Bool
  json_get_bool object key = do
    json_val ← json.object_get object key
    if json.is_type json_val json_boolean then some (json.get_boolean json_val) else none

  unfoldable pub json_get_int : Option J → CString → Option ℤ
  json_get_int object key = do
    json_val ← json.object_get object key
    if json.is_type json_val json_int then some (json.get_int json_val) else none

  unfoldable pub json_get_string : Option J → CString → Option CString
  json_get_string object key = do
    json_val ← json.object_get object key
    if json.is_type json_val json_string then some (json.get_string json_val) else none

  -- `*val` after the call: the object with its new field
  unfoldable pub json_set_object : J → CString → Option J → J
  json_set_object obj key value = json.object_add obj key value

  unfoldable pub json_set_string : J → CString → CString → J
  json_set_string obj key value = json.object_add obj key (some (json.new_string value))

module _ {J : Type 0} (json : JsonC J) (laws : Laws json) where
  -- On an object, a string that was set is read back under its key, and no other key reads
  -- otherwise.
  pub json_get_string-json_set_string :
      (obj : J) (key j value : CString)
      → json.is_type obj json_object ≡ true
      → json_get_string json (some (json_set_string json obj key value)) j
        ≡ (if str_eq key j then some value else json_get_string json (some obj) j)
  unfolding json_get_string json_set_string
  json_get_string-json_set_string obj key j value h = ground (
    arith,
    laws.get-add obj key j (some (json.new_string value)),
    laws.string-new value,
    laws.get_string-new value,
  )

  pub get-set_self :
      (obj : J) (key value : CString)
      → json.is_type obj json_object ≡ true
      → json_get_string json (some (json_set_string json obj key value)) key ≡ some value
  get-set_self obj key value h =
      rw (json_get_string-json_set_string obj key key value h, str_eq_refl key)

  pub get-set_other :
      (obj : J) (key j value : CString)
      → json.is_type obj json_object ≡ true
      → str_eq key j ≡ false
      → json_get_string json (some (json_set_string json obj key value)) j
        ≡ json_get_string json (some obj) j
  get-set_other obj key j value h ne = rw (json_get_string-json_set_string obj key j value h, ne)

  pub set-IsObject :
      (obj : J) (key value : CString)
      → json.is_type obj json_object ≡ true
      → json.is_type (json_set_string json obj key value) json_object ≡ true
  unfolding json_set_string
  set-IsObject obj key value h = laws.object-add obj key _ h
