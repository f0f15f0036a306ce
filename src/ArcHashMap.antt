-- ===== src/ArcHashMap.antt =====
-- src/arc_hashmap.rs: a map whose entries live as long as a holder of them. A counter is shared by an
-- entry and its holders, so it stands in a store at an address. Keys are numbers. A method is taken
-- as one step, also the drop of a holder, which takes the map's lock only after it has counted down.
pub mod Client
pub mod Entries
pub mod Live
use encryptedfs.Prelude.{
  ℕ, ◌+◌, ◌-◌, ◌%◌, ◌^◌, Option, none, some, [], ◌∷◌, ltb, ◌==◌, if◌then◌else◌, length, Bool,
}
use encryptedfs.Prelude.Assoc.{Assoc, lookup, insert}

-- `Value<V>`: the value, and the address of its counter.
pub record Value {ℓ} (V : Type ℓ) : Type ℓ where
  pub val : V
  pub rc : ℕ

-- The counters in use have addresses below `fresh`.
pub record ArcHashMap {ℓ} (V : Type ℓ) : Type ℓ where
  pub map : Assoc (Value V)
  pub counts : ℕ → ℕ
  pub fresh : ℕ

-- A holder has the value and the counter; the map that it points to is the state of each call.
pub record Holder {ℓ} (V : Type ℓ) : Type ℓ where
  pub val : V
  pub rc : ℕ

abbrev pub set_count : ℕ → ℕ → (ℕ → ℕ) → ℕ → ℕ
set_count a n counts b = if a == b then n else counts b

module _ {ℓ} {V : Type ℓ} where
  unfoldable pub new : ArcHashMap V
  new = record { map = []; counts = λ a. 0; fresh = 0 }

  -- `fetch_add(1)` and `fetch_sub(1)`, which wrap.
  unfoldable pub fetch_add : ℕ → ArcHashMap V → ArcHashMap V
  fetch_add a m = record m { counts = set_count a ((m.counts a + 1) % 2 ^ 64) m.counts }

  unfoldable pub fetch_sub : ℕ → ArcHashMap V → ArcHashMap V
  fetch_sub a m = record m { counts = set_count a ((m.counts a + (2 ^ 64 - 1)) % 2 ^ 64) m.counts }

  unfoldable pub get_internal : Option (Value V) → ArcHashMap V → Option (Holder V) × ArcHashMap V
  get_internal none m = (none, m)
  get_internal (some v) m = (some (record { val = v.val; rc = v.rc }), fetch_add v.rc m)

  unfoldable pub get : ℕ → ArcHashMap V → Option (Holder V) × ArcHashMap V
  get k m = get_internal (lookup k m.map) m

  -- `entry(key).or_insert_with(f)`: the value that is there then, in the map after it.
  unfoldable pub or_insert_with : ℕ → V → ArcHashMap V → Value V × ArcHashMap V
  or_insert_with k v m = elim (lookup k m.map) [
    | some w ↦ (w, m)
    | none ↦ (
      record { val = v; rc = m.fresh },
      record {
        map = insert k (record { val = v; rc = m.fresh }) m.map;
        counts = set_count m.fresh 0 m.counts;
        fresh = m.fresh + 1;
      },
    )
  ]

  unfoldable pub get_or_insert_with : ℕ → V → ArcHashMap V → Option (Holder V) × ArcHashMap V
  get_or_insert_with k v m = let (w, m') = or_insert_with k v m in get_internal (some w) m'

  -- `retain` of the entries whose counter is above 0.
  unfoldable pub retain : (ℕ → ℕ) → Assoc (Value V) → Assoc (Value V)
  retain counts [] = []
  retain counts ((k, v) ∷ m) =
      if ltb 0 (counts v.rc) then (k, v) ∷ retain counts m else retain counts m

  unfoldable pub purge : ArcHashMap V → ArcHashMap V
  purge m = record m { map = retain m.counts m.map }

  -- `Drop` of a holder.
  unfoldable pub drop_holder : Holder V → ArcHashMap V → ArcHashMap V
  drop_holder h m = purge (fetch_sub h.rc m)

  unfoldable pub len : ArcHashMap V → ℕ
  len m = length m.map

  -- `insert`, which does not replace a value that is there.
  unfoldable pub insert_value : ℕ → V → ArcHashMap V → Option (Holder V) × ArcHashMap V
  insert_value k v m = get_or_insert_with k v m

  unfoldable pub is_empty : ArcHashMap V → Bool
  is_empty m = len m == 0
