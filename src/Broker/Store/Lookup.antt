-- ===== src/Broker/Store/Lookup.antt =====
-- Lookup in the message store of src/database.c after a change to an entry.
use mathlib.Core.Option
use adaptive_mqtt_transmit_p.Common.{ℕ, ◌≡◌, refl, Bool-cases, inl, inr, List, [], ◌∷◌, ◌==◌}
use adaptive_mqtt_transmit_p.Broker.Types.{Entry}
use adaptive_mqtt_transmit_p.Broker.Store.{find_entry, update_entry}

-- A change that leaves the message of an entry alone.
abbrev pub KeepsStored : (Entry → Entry) → Type 0
KeepsStored f = (e : Entry) → (f e).stored ≡ e.stored

pub find-update :
    (i : ℕ) (f : Entry → Entry) (es : List Entry)
    → KeepsStored f
    → find_entry i (update_entry i f es) ≡ Option.map f (find_entry i es)
unfolding find_entry update_entry
find-update i f [] k = refl
find-update i f (e ∷ es) k = elim (Bool-cases (e.stored.db_id == i)) [
  | inl y ↦ rw y (rw (k e) (rw y refl))
  | inr n ↦ rw n (rw n (find-update i f es k))
]
