-- ===== src/ArcHashMap/Client.antt =====
-- A client of the map: the holders that it has, and what it can do.
use encryptedfs.Prelude.{
  ℕ, zero, suc, ◌+◌, ◌<◌, ◌≡◌, Option, none, some, List, [], ◌∷◌, ◌==◌, if◌then◌else◌,
}
use encryptedfs.Prelude.Assoc.{Assoc, lookup}
use encryptedfs.ArcHashMap.{new, get, get_or_insert_with, drop_holder, Value, ArcHashMap, Holder}

-- What a client can do: ask for a key, ask with a value to insert, drop its i-th holder.
pub data Op {ℓ} (V : Type ℓ) : Type ℓ where
  asks : ℕ → Op V
  asks_or_inserts : ℕ → V → Op V
  drops : ℕ → Op V

-- The map, and the holders that are alive.
pub record Client {ℓ} (V : Type ℓ) : Type ℓ where
  pub map : ArcHashMap V
  pub holders : List (Holder V)

module _ {ℓ} {V : Type ℓ} where
  abbrev pub with_holder : Option (Holder V) × ArcHashMap V → List (Holder V) → Client V
  with_holder (none, m) hs = record { map = m; holders = hs }
  with_holder (some h, m) hs = record { map = m; holders = h ∷ hs }

  -- The i-th holder and the others.
  abbrev pub pick : ℕ → List (Holder V) → Option (Holder V × List (Holder V))
  pick i [] = none
  pick zero (h ∷ hs) = some (h, hs)
  pick (suc i) (h ∷ hs) = elim (pick i hs) [ none ↦ none | some (g, gs) ↦ some (g, h ∷ gs) ]

  unfoldable pub call : Op V → Client V → Client V
  call (asks k) c = with_holder (get k c.map) c.holders
  call (asks_or_inserts k v) c = with_holder (get_or_insert_with k v c.map) c.holders
  call (drops i) c = elim (pick i c.holders) [
    | none ↦ c
    | some (h, hs) ↦ record { map = drop_holder h c.map; holders = hs }
  ]

  unfoldable pub run : List (Op V) → Client V → Client V
  run [] c = c
  run (o ∷ os) c = run os (call o c)

  -- How many holders share the counter at `a`.
  abbrev pub sharing : ℕ → List (Holder V) → ℕ
  sharing a [] = 0
  sharing a (h ∷ hs) = (if h.rc == a then 1 else 0) + sharing a hs

  -- The map has the entry of a holder, under some key.
  abbrev pub HasEntry : Assoc (Value V) → Holder V → Type ℓ
  HasEntry m h = (k : ℕ) × (lookup k m ≡ some (record { val = h.val; rc = h.rc }))

  abbrev pub AllHave : Assoc (Value V) → List (Holder V) → Type ℓ
  AllHave m [] = Unit
  AllHave m (h ∷ hs) = HasEntry m h × AllHave m hs

  abbrev pub AllHeld : List (Holder V) → Assoc (Value V) → Type 0
  AllHeld hs [] = Unit
  AllHeld hs ((k, v) ∷ m) = (0 < sharing v.rc hs) × AllHeld hs m

  abbrev pub start : Client V
  start = record { map = new; holders = [] }
