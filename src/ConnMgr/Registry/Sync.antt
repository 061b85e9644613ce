-- ===== src/ConnMgr/Registry/Sync.antt =====
-- The map and the store agree, and no connection is there twice.
use altclaw.Common.{
  ℕ, Bool, true, false, Option, none, some, List, [], ◌∷◌, nat_eq, text_eq_iff, lookup, insert,
  lookup-insert, lookup-remove, arith, ◌≡◌, refl, ◌⊎◌, inl, inr, ◌∙◌, sym, ap,
}
use altclaw.Netx.{Net, Rules, DialError, validate_url}
use altclaw.ConnMgr.{ConnEntry, Protocol, new_protocol, detect_type}
use altclaw.ConnMgr.Registry.{
  Manager, added, Request, entry_of, is_same, find_same, save_new, add_entry, checked_add,
  typed_add, add, delete_stored, remove_entry, remove_found, remove_conn,
}

-- The two entries name the same connection.
abbrev pub IsSame : ConnEntry → ConnEntry → Type 0
IsSame a b = is_same a b ≡ true

pub record WellFormed (m : Manager) : Type 0 where
  pub distinct :
      (i j : ℕ) (a b : ConnEntry)
      → lookup i m.entries ≡ some a
      → lookup j m.entries ≡ some b
      → IsSame a b
      → i ≡ j
  pub saved : (i : ℕ) (a : ConnEntry) → lookup i m.entries ≡ some a → lookup i m.stored ≡ some a

is_same-sym : (a b : ConnEntry) → is_same a b ≡ true → is_same b a ≡ true
unfolding is_same
is_same-sym a b h = ground (
  arith,
  text_eq_iff a.url b.url,
  text_eq_iff b.url a.url,
  text_eq_iff a.conn_type b.conn_type,
  text_eq_iff b.conn_type a.conn_type,
  text_eq_iff a.handler b.handler,
  text_eq_iff b.handler a.handler,
  text_eq_iff a.headers b.headers,
  text_eq_iff b.headers a.headers,
)

find_same-none :
    (e x : ConnEntry) (i : ℕ) (es : List (ℕ × ConnEntry))
    → find_same e es ≡ none
    → lookup i es ≡ some x
    → is_same x e ≡ false
unfolding find_same lookup
find_same-none e x i [] n l = absurd (ground arith)
find_same-none e x i ((j, y) ∷ es) n l = ground (arith, find_same-none e x i es)

-- What the map with a new entry holds.
found_new :
    (id i : ℕ) (e a : ConnEntry) (es : List (ℕ × ConnEntry))
    → lookup i (insert id e es) ≡ some a
    → ((i ≡ id) × (a ≡ e)) ⊎ (lookup i es ≡ some a)
found_new id i e a es h = ground (arith, lookup-insert id i e es)

save_new-WellFormed :
    (r : Request) (saved : Option ℕ) (m : Manager)
    → find_same (entry_of r 0) m.entries ≡ none
    → WellFormed m
    → WellFormed (save_new r saved m).1
unfolding save_new is_same
save_new-WellFormed r none m n w = w
save_new-WellFormed r (some id) m n w = record {
  distinct = λ i j a b hi hj s.
      by_place i j a b s (found_new id i e a m.entries hi) (found_new id j e b m.entries hj);
  saved = λ i a h.
      ground (arith, lookup-insert id i e m.entries, lookup-insert id i e m.stored, w.saved i a);
}
  where
    e : ConnEntry
    e = entry_of r id

    other : (x : ConnEntry) (i : ℕ) → lookup i m.entries ≡ some x → is_same x e ≡ false
    other x i l = find_same-none (entry_of r 0) x i m.entries n l

    by_place :
        (i j : ℕ) (a b : ConnEntry)
        → IsSame a b
        → ((i ≡ id) × (a ≡ e)) ⊎ (lookup i m.entries ≡ some a)
        → ((j ≡ id) × (b ≡ e)) ⊎ (lookup j m.entries ≡ some b)
        → i ≡ j
    by_place i j a b s (inl (p, _)) (inl (q, _)) = p ∙ sym q
    by_place i j a b s (inr la) (inr lb) = w.distinct i j a b la lb s
    by_place i j a b s (inr la) (inl (q, eb)) =
        absurd (ground (arith, other a i la, ap (is_same a) eb))
    by_place i j a b s (inl (p, ea)) (inr lb) =
        absurd (ground (arith, other b j lb, is_same-sym a b s, ap (is_same b) ea))

add-WellFormed :
    (net : Net) (rules : Rules) (r : Request) (saved : Option ℕ) (m : Manager)
    → WellFormed m
    → WellFormed (add net rules r saved m).1
unfolding add typed_add checked_add add_entry
add-WellFormed net rules r saved m w =
    typed (new_protocol (detect_type r.url r.conn_type)) (validate_url net rules r.url)
  where
    found :
        (f : Option ℕ)
        → find_same (entry_of r 0) m.entries ≡ f
        → WellFormed (add_entry r f saved m).1
    found (some id) e = w
    found none e = save_new-WellFormed r saved m e w

    checked : (e : Option DialError) → WellFormed (checked_add r e saved m).1
    checked (some e) = w
    checked none = found (find_same (entry_of r 0) m.entries) refl

    typed : (p : Option Protocol) (e : Option DialError) → WellFormed (typed_add p e r saved m).1
    typed none e = w
    typed (some p) e = checked e

remove_entry-WellFormed :
    (ok : Bool) (id : ℕ) (m : Manager) → WellFormed m → WellFormed (remove_entry ok id m)
unfolding remove_entry delete_stored
remove_entry-WellFormed ok id m w = record {
  distinct = λ i j a b hi hj.
      w.distinct i j a b (ground (arith, lookup-remove id i m.entries))
        (ground (arith, lookup-remove id j m.entries));
  saved = λ i a h.
      ground (arith, lookup-remove id i m.entries, lookup-remove id i m.stored, w.saved i a);
}

remove_found-WellFormed :
    (f : Option ConnEntry) (ok : Bool) (id : ℕ) (m : Manager)
    → WellFormed m
    → WellFormed (remove_found f ok id m).1
unfolding remove_found
remove_found-WellFormed none ok id m w = w
remove_found-WellFormed (some _) ok id m w = remove_entry-WellFormed ok id m w

remove_conn-WellFormed :
    (ok : Bool) (id : ℕ) (m : Manager) → WellFormed m → WellFormed (remove_conn ok id m).1
unfolding remove_conn
remove_conn-WellFormed ok id m w = remove_found-WellFormed (lookup id m.entries) ok id m w

-- One operation of the manager: `Add`, `Remove`, or the `cleanupEntry` of a goroutine.
pub data Op : Type 0 where
  adds : Request → Option ℕ → Op
  removes : Bool → ℕ → Op
  cleans_up : Bool → ℕ → Op

abbrev pub apply : Net → Rules → Op → Manager → Manager
apply net rules (adds r saved) m = (add net rules r saved m).1
apply net rules (removes ok id) m = (remove_conn ok id m).1
apply net rules (cleans_up ok id) m = remove_entry ok id m

abbrev pub apply_all : Net → Rules → List Op → Manager → Manager
apply_all net rules [] m = m
apply_all net rules (x ∷ xs) m = apply_all net rules xs (apply net rules x m)

apply-WellFormed :
    (net : Net) (rules : Rules) (x : Op) (m : Manager)
    → WellFormed m
    → WellFormed (apply net rules x m)
apply-WellFormed net rules (adds r saved) m w = add-WellFormed net rules r saved m w
apply-WellFormed net rules (removes ok id) m w = remove_conn-WellFormed ok id m w
apply-WellFormed net rules (cleans_up ok id) m w = remove_entry-WellFormed ok id m w

-- Operations that do not interleave keep it so that two entries never name the same connection and
-- each entry is in the store.
pub apply_all-WellFormed :
    (net : Net) (rules : Rules) (xs : List Op) (m : Manager)
    → WellFormed m
    → WellFormed (apply_all net rules xs m)
apply_all-WellFormed net rules [] m w = w
apply_all-WellFormed net rules (x ∷ xs) m w =
    apply_all-WellFormed net rules xs (apply net rules x m) (apply-WellFormed net rules x m w)

add_entry-found :
    (r : Request) (saved : Option ℕ) (m : Manager) (id : ℕ) (f : Option ℕ)
    → find_same (entry_of r 0) m.entries ≡ f
    → (add_entry r f saved m).0 ≡ added id
    → find_same (entry_of r 0) (add_entry r f saved m).1.entries ≡ some id
unfolding add_entry save_new find_same is_same insert
add_entry-found r saved m id (some i) e h = ground arith
add_entry-found r none m id none e h = absurd (ground arith)
add_entry-found r (some i) m id none e h = ground (
  arith,
  (text_eq_iff r.url r.url).1 refl,
  (text_eq_iff r.handler r.handler).1 refl,
  (text_eq_iff r.headers r.headers).1 refl,
  (text_eq_iff (detect_type r.url r.conn_type) (detect_type r.url r.conn_type)).1 refl,
)

-- A connection that was added, or was there, is not added again: `Add` with the same arguments
-- returns the same ID, leaves the manager as it is, and does not ask the store.
pub add-again :
    (net : Net) (rules : Rules) (r : Request) (saved later : Option ℕ) (m : Manager) (id : ℕ)
    → let (reply, m') = add net rules r saved m in
      reply ≡ added id → add net rules r later m' ≡ (added id, m')
unfolding add typed_add checked_add
add-again net rules r saved later m id =
    typed (new_protocol (detect_type r.url r.conn_type)) (validate_url net rules r.url)
  where
    typed :
        (p : Option Protocol) (e : Option DialError)
        → let (reply, m') = typed_add p e r saved m in
          reply ≡ added id → typed_add p e r later m' ≡ (added id, m')
    typed none e h = absurd (ground arith)
    typed (some p) (some e) h = absurd (ground arith)
    typed (some p) none h =
        let f = find_same (entry_of r 0) m.entries in
        ap (λ g. add_entry r g later (add_entry r f saved m).1)
          (add_entry-found r saved m id f refl h)
