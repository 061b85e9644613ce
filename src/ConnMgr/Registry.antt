-- ===== src/ConnMgr/Registry.antt =====
-- internal/connmgr/connmgr.go: the manager's map of connections, and the store behind it.
pub mod Sync
use altclaw.Common.{
  ℕ, Bool, true, false, Option, none, some, List, [], ◌∷◌, ◌&&◌, Bytes, nat_eq, if◌then◌else◌,
  text_eq, lookup, insert, remove,
}
use altclaw.Netx.{Net, Rules, DialError, validate_url}
use altclaw.ConnMgr.{ConnEntry, Protocol, new_protocol, detect_type}

-- `entries`, without what belongs to the goroutines, and the rows of the workspace's `ConnEntry`s.
pub record Manager : Type 0 where
  pub entries : List (ℕ × ConnEntry)
  pub stored : List (ℕ × ConnEntry)

pub data ConnError : Type 0 where
  unsupported_type : Bytes → ConnError
  unsafe_url : DialError → ConnError
  save_failed : ConnError
  not_found : ℕ → ConnError
  not_connected : ℕ → ConnError
  delete_failed : ConnError

pub data Added : Type 0 where
  added : ℕ → Added
  refused : ConnError → Added

-- The arguments of `Add`; `headers` is their JSON text, or empty.
pub record Request : Type 0 where
  pub chat_id : ℕ
  pub conn_type : Bytes
  pub url : Bytes
  pub handler : Bytes
  pub headers : Bytes
  pub reconnect : Bool

abbrev pub entry_of : Request → ℕ → ConnEntry
entry_of r id = record {
  id = id;
  chat_id = r.chat_id;
  conn_type = detect_type r.url r.conn_type;
  url = r.url;
  handler = r.handler;
  headers = r.headers;
  reconnect = r.reconnect;
}

unfoldable pub is_same : ConnEntry → ConnEntry → Bool
is_same a b =
    text_eq a.url b.url
    && text_eq a.conn_type b.conn_type
    && text_eq a.handler b.handler
    && text_eq a.headers b.headers

-- The ID of an entry for the same connection.
unfoldable pub find_same : ConnEntry → List (ℕ × ConnEntry) → Option ℕ
unfolding is_same
find_same e [] = none
find_same e ((id, x) ∷ xs) = if is_same x e then some id else find_same e xs

-- `SaveConnEntry` gives the entry its ID, or fails.
unfoldable pub save_new : Request → Option ℕ → Manager → Added × Manager
save_new r none m = (refused save_failed, m)
save_new r (some id) m =
    let e = entry_of r id in
    (added id, record { entries = insert id e m.entries; stored = insert id e m.stored })

unfoldable pub add_entry : Request → Option ℕ → Option ℕ → Manager → Added × Manager
unfolding save_new
add_entry r (some id) saved m = (added id, m)
add_entry r none saved m = save_new r saved m

unfoldable pub checked_add : Request → Option DialError → Option ℕ → Manager → Added × Manager
unfolding add_entry find_same
checked_add r (some e) saved m = (refused (unsafe_url e), m)
checked_add r none saved m = add_entry r (find_same (entry_of r 0) m.entries) saved m

unfoldable pub typed_add :
    Option Protocol → Option DialError → Request → Option ℕ → Manager → Added × Manager
unfolding checked_add
typed_add none unsafe r saved m = (refused (unsupported_type (detect_type r.url r.conn_type)), m)
typed_add (some p) unsafe r saved m = checked_add r unsafe saved m

-- `Add`, with what the store answers if the entry is saved.
unfoldable pub add : Net → Rules → Request → Option ℕ → Manager → Added × Manager
unfolding typed_add
add net rules r saved m =
    typed_add (new_protocol (detect_type r.url r.conn_type)) (validate_url net rules r.url) r saved
      m

-- `DeleteConnEntry`, which may fail.
unfoldable pub delete_stored : Bool → ℕ → List (ℕ × ConnEntry) → List (ℕ × ConnEntry)
delete_stored ok id rows = if ok then remove id rows else rows

unfoldable pub remove_entry : Bool → ℕ → Manager → Manager
unfolding delete_stored
remove_entry ok id m = record {
  entries = remove id m.entries;
  stored = delete_stored ok id m.stored;
}

unfoldable pub remove_found : Option ConnEntry → Bool → ℕ → Manager → Option ConnError × Manager
unfolding remove_entry
remove_found none ok id m = (some (not_found id), m)
remove_found (some _) ok id m = (if ok then none else some delete_failed, remove_entry ok id m)

-- `Remove`
unfoldable pub remove_conn : Bool → ℕ → Manager → Option ConnError × Manager
unfolding remove_found
remove_conn ok id m = remove_found (lookup id m.entries) ok id m

-- `Send` up to the write; `is_open` says which connections have a protocol now.
unfoldable pub send_error : (ℕ → Bool) → ℕ → Manager → Option ConnError
send_error is_open id m = elim (lookup id m.entries) [
  | none ↦ some (not_found id)
  | some _ ↦ if is_open id then none else some (not_connected id)
]

-- `New` takes the rows of the store as the entries.
abbrev pub load : List (ℕ × ConnEntry) → Manager
load rows = record { entries = rows; stored = rows }
