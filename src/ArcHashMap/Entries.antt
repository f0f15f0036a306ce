-- ===== src/ArcHashMap/Entries.antt =====
-- Holders and entries of lists: what inserting and retaining keeps.
use encryptedfs.Prelude.{
  ℕ, zero, suc, ◌+◌, ◌≤◌, ◌<◌, ◌≡◌, subst, inl, inr, none, some, List, [], ◌∷◌, arith, ltb, ◌==◌,
  if◌then◌else◌, Bool-cases, Option-cases, length,
}
use encryptedfs.Prelude.Assoc.{Assoc, lookup, insert, lookup-insert}
use encryptedfs.ArcHashMap.{retain, Value, Holder}
use encryptedfs.ArcHashMap.Client.{pick, sharing, AllHave, AllHeld}

module _ {ℓ} {V : Type ℓ} where
  pub sharing-le-length : (a : ℕ) (hs : List (Holder V)) → sharing a hs ≤ length hs
  sharing-le-length a [] = omega arith
  sharing-le-length a (h ∷ hs) = ground (arith, sharing-le-length a hs)

  pub pick-sharing :
      (i : ℕ) (hs gs : List (Holder V)) (h : Holder V)
      → pick i hs ≡ some (h, gs)
      → (a : ℕ) → sharing a hs ≡ (if h.rc == a then 1 else 0) + sharing a gs
  pick-sharing i [] gs h e a = ground arith
  pick-sharing zero (g ∷ hs) gs h e a = ground arith
  pick-sharing (suc i) (g ∷ hs) gs h e a = elim (Option-cases (pick i hs)) [
    | inl z ↦ absurd (ground (arith, z))
    | inr ((g', gs'), z) ↦ ground (arith, z, pick-sharing i hs gs' g' z a)
  ]

  pub pick-length :
      (i : ℕ) (hs gs : List (Holder V)) (h : Holder V)
      → pick i hs ≡ some (h, gs)
      → length hs ≡ suc (length gs)
  pick-length i [] gs h e = ground arith
  pick-length zero (g ∷ hs) gs h e = ground arith
  pick-length (suc i) (g ∷ hs) gs h e = elim (Option-cases (pick i hs)) [
    | inl z ↦ absurd (ground (arith, z))
    | inr ((g', gs'), z) ↦ ground (arith, z, pick-length i hs gs' g' z)
  ]

  pub AllHeld-mono :
      (hs gs : List (Holder V)) (m : Assoc (Value V))
      → ((a : ℕ) → sharing a hs ≤ sharing a gs)
      → AllHeld hs m
      → AllHeld gs m
  AllHeld-mono hs gs [] le held = tt
  AllHeld-mono hs gs ((k, v) ∷ m) le (some_holder, held) =
      (omega (arith, le v.rc), AllHeld-mono hs gs m le held)

  pub AllHeld-insert :
      (hs : List (Holder V)) (k : ℕ) (v : Value V) (m : Assoc (Value V))
      → 0 < sharing v.rc hs
      → AllHeld hs m
      → AllHeld hs (insert k v m)
  AllHeld-insert hs k v [] some_holder held = (some_holder, tt)
  AllHeld-insert hs k v ((j, w) ∷ m) some_holder (h, held) = elim (Bool-cases (j == k)) [
    | inl z ↦ rw z (some_holder, held)
    | inr z ↦ rw z (h, AllHeld-insert hs k v m some_holder held)
  ]

  pub AllHave-insert :
      (hs : List (Holder V)) (k : ℕ) (v : Value V) (m : Assoc (Value V))
      → lookup k m ≡ none
      → AllHave m hs
      → AllHave (insert k v m) hs
  AllHave-insert [] k v m absent have = tt
  AllHave-insert (h ∷ hs) k v m absent ((j, e), have) =
      ((j, ground (arith, lookup-insert k j v m)), AllHave-insert hs k v m absent have)

  pub lookup-retain :
      (counts : ℕ → ℕ) (k : ℕ) (v : Value V) (m : Assoc (Value V))
      → lookup k m ≡ some v
      → 0 < counts v.rc
      → lookup k (retain counts m) ≡ some v
  unfolding retain
  lookup-retain counts k v [] e pos_count = ground arith
  lookup-retain counts k v ((j, w) ∷ m) e pos_count = ground (arith, lookup-retain counts k v m)

  pub AllHave-retain :
      (counts : ℕ → ℕ) (hs : List (Holder V)) (m : Assoc (Value V))
      → ((a : ℕ) → sharing a hs ≤ counts a)
      → AllHave m hs
      → AllHave (retain counts m) hs
  AllHave-retain counts [] m le have = tt
  AllHave-retain counts (h ∷ hs) m le ((k, e), have) = (
    (k, lookup-retain counts k (record { val = h.val; rc = h.rc }) m e (ground (arith, le h.rc))),
    AllHave-retain counts hs m (λ a. ground (arith, le a)) have,
  )

  pub AllHeld-retain :
      (counts : ℕ → ℕ) (hs : List (Holder V)) (m : Assoc (Value V))
      → ((a : ℕ) → counts a ≡ sharing a hs)
      → AllHeld hs (retain counts m)
  unfolding retain
  AllHeld-retain counts hs [] same = tt
  AllHeld-retain counts hs ((k, v) ∷ m) same = elim (Bool-cases (ltb 0 (counts v.rc))) [
    | inl z ↦ rw z (ground (arith, same v.rc), AllHeld-retain counts hs m same)
    | inr z ↦ rw z (AllHeld-retain counts hs m same)
  ]

  pub pick-AllHave :
      (m : Assoc (Value V)) (i : ℕ) (hs gs : List (Holder V)) (h : Holder V)
      → pick i hs ≡ some (h, gs)
      → AllHave m hs
      → AllHave m gs
  pick-AllHave m i [] gs h e have = absurd (ground arith)
  pick-AllHave m zero (g ∷ hs) gs h e (first, have) = subst (AllHave m) (ground arith) have
  pick-AllHave m (suc i) (g ∷ hs) gs h e (first, have) = elim (Option-cases (pick i hs)) [
    | inl z ↦ absurd (ground (arith, z))
    | inr ((g', gs'), z) ↦
        subst (AllHave m) {x = g ∷ gs'} (ground (arith, z))
          (first, pick-AllHave m i hs gs' g' z have)
  ]

  pub lookup-held :
      (hs : List (Holder V)) (k : ℕ) (v : Value V) (m : Assoc (Value V))
      → lookup k m ≡ some v
      → AllHeld hs m
      → 0 < sharing v.rc hs
  lookup-held hs k v [] e held = ground arith
  lookup-held hs k v ((j, w) ∷ m) e (h, held) = ground (arith, lookup-held hs k v m)
