-- ===== src/ExpireValue.antt =====
-- src/expire_value.rs: a value that is provided when it is asked for, kept in a cache for some time,
-- and found again through a weak reference as long as a caller holds it. An `Arc` is a number, and
-- `held` has it once for each caller that holds it.
pub mod Single
use encryptedfs.Prelude.{
  ℕ, ◌+◌, Bool, false, ◌||◌, Option, none, some, List, [], ◌∷◌, ◌==◌, if◌then◌else◌, Exec, Result,
  ok, err,
}

pub record ExpireValue : Type 0 where
  -- The `Arc` that the cache holds.
  pub cache : Option ℕ
  pub weak : Option ℕ
  pub held : List ℕ
  -- The next `Arc`, and how often the provider was called.
  pub next_arc : ℕ
  pub calls : ℕ

abbrev pub new : ExpireValue
new = record { cache = none; weak = none; held = []; next_arc = 0; calls = 0 }

abbrev pub is_held : ℕ → List ℕ → Bool
is_held arc [] = false
is_held arc (x ∷ xs) = (x == arc) || is_held arc xs

abbrev pub is_cached : ℕ → Option ℕ → Bool
is_cached arc none = false
is_cached arc (some x) = x == arc

-- `Weak::upgrade` finds what someone holds: a caller or the cache.
abbrev pub is_alive : ℕ → ExpireValue → Bool
is_alive arc s = is_held arc s.held || is_cached arc s.cache

unfoldable pub get_from_ref_or_cache : ExpireValue → Option ℕ
get_from_ref_or_cache s = elim s.weak [
  | none ↦ none
  | some arc ↦ if is_alive arc s then some arc else s.cache
]

abbrev pub hold : ℕ → ExpireValue → ExpireValue
hold arc s = record s { held = arc ∷ s.held }

module _ {E : Type 0} (provide : ℕ → Result E (Unit {0})) where
  -- The provider makes the value, here without its content, or fails.
  unfoldable pub get : Exec E ExpireValue ℕ
  get s =
      let made : Result E ℕ × ExpireValue = elim (provide s.calls) [
        | err x ↦ (err x, record s { calls = s.calls + 1 })
        | ok v ↦ (
          ok s.next_arc,
          record s {
            cache = some s.next_arc;
            weak = some s.next_arc;
            held = s.next_arc ∷ s.held;
            next_arc = s.next_arc + 1;
            calls = s.calls + 1;
          },
        )
      ] in
      elim (get_from_ref_or_cache s) [ some arc ↦ (ok arc, hold arc s) | none ↦ made ]

-- The cache lets the value go, when its time is over or by `clear`.
abbrev pub clear : ExpireValue → ExpireValue
clear s = record s { cache = none }

abbrev pub remove_once : ℕ → List ℕ → List ℕ
remove_once arc [] = []
remove_once arc (x ∷ xs) = if x == arc then xs else x ∷ remove_once arc xs

-- A caller drops an `Arc`.
abbrev pub drop_arc : ℕ → ExpireValue → ExpireValue
drop_arc arc s = record s { held = remove_once arc s.held }

pub data Call : Type 0 where
  call_get call_clear : Call
  call_drop : ℕ → Call

module _ {E : Type 0} (provide : ℕ → Result E (Unit {0})) where
  unfoldable pub run : List Call → ExpireValue → ExpireValue
  run [] s = s
  run (call_get ∷ cs) s = run cs (get provide s).1
  run (call_clear ∷ cs) s = run cs (clear s)
  run (call_drop arc ∷ cs) s = run cs (drop_arc arc s)
