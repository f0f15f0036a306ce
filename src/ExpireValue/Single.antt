-- ===== src/ExpireValue/Single.antt =====
-- There is one value at a time.
use encryptedfs.Prelude.{
  ℕ, ◌+◌, ◌≡◌, refl, ◌∙◌, subst, inl, inr, true, false, none, some, List, [], ◌∷◌, arith,
  Bool-cases, Option-cases, Result, ok, err,
}
use encryptedfs.ExpireValue.{
  new, is_held, is_alive, get_from_ref_or_cache, hold, get, clear, remove_once, drop_arc, run,
  ExpireValue, Call, call_get, call_clear, call_drop,
}

-- What is alive is what the weak reference is to, and was made before.
pub record IsSingle (s : ExpireValue) : Type 0 where
  pub weakly : (arc : ℕ) → is_alive arc s ≡ true → s.weak ≡ some arc

new-IsSingle : IsSingle new
new-IsSingle = record { weakly = λ arc e. absurd (ground (arith, e)) }

clear-IsSingle : (s : ExpireValue) → IsSingle s → IsSingle (clear s)
clear-IsSingle s v = record { weakly = λ arc e. v.weakly arc (ground (arith, e)) }

is_held-remove_once :
    (arc x : ℕ) (xs : List ℕ) → is_held x (remove_once arc xs) ≡ true → is_held x xs ≡ true
is_held-remove_once arc x [] e = e
is_held-remove_once arc x (y ∷ ys) e = ground (arith, e, is_held-remove_once arc x ys)

drop_arc-IsSingle : (arc : ℕ) (s : ExpireValue) → IsSingle s → IsSingle (drop_arc arc s)
drop_arc-IsSingle arc s v = record {
  weakly = λ x e. v.weakly x (ground (arith, e, is_held-remove_once arc x s.held));
}

hold-IsSingle : (arc : ℕ) (s : ExpireValue) → s.weak ≡ some arc → IsSingle s → IsSingle (hold arc s)
hold-IsSingle arc s at v = record { weakly = λ x e. ground (arith, e, at, v.weakly x) }

found_weak :
    (s : ExpireValue) (arc : ℕ)
    → IsSingle s
    → get_from_ref_or_cache s ≡ some arc
    → s.weak ≡ some arc
unfolding get_from_ref_or_cache
found_weak s arc v e = elim (Option-cases s.weak) [
  | inl z ↦ absurd (ground (arith, z, e))
  | inr (x, z) ↦ elim (Bool-cases (is_alive x s)) [
    | inl y ↦ z ∙ ground (arith, z, y, e)
    | inr y ↦
        (let cached : s.cache ≡ some arc = ground (arith, z, y, e) in
          v.weakly arc (ground (arith, cached)))
  ]
]

found_none :
    (s : ExpireValue) (x : ℕ) → IsSingle s → get_from_ref_or_cache s ≡ none → is_alive x s ≡ false
unfolding get_from_ref_or_cache
found_none s x v e = elim (Bool-cases (is_alive x s)) [
  | inr y ↦ y
  | inl y ↦ (let at : s.weak ≡ some x = v.weakly x y in absurd (ground (arith, at, y, e)))
]

module _ {E : Type 0} (provide : ℕ → Result E (Unit {0})) where
  made-IsSingle :
      (r : Result E (Unit {0})) (s : ExpireValue)
      → IsSingle s
      → get_from_ref_or_cache s ≡ none
      → provide s.calls ≡ r
      → IsSingle (get provide s).1
  unfolding get
  made-IsSingle (err x) s v missing e =
      subst IsSingle {x = record s { calls = s.calls + 1 }} {y = (get provide s).1}
        (ground (arith, missing, e)) (record { weakly = v.weakly })
  made-IsSingle (ok u) s v missing e =
      let s' : ExpireValue = record {
        cache = some s.next_arc;
        weak = some s.next_arc;
        held = s.next_arc ∷ s.held;
        next_arc = s.next_arc + 1;
        calls = s.calls + 1;
      } in
      subst IsSingle {x = s'} {y = (get provide s).1} (ground (arith, missing, e))
        (record { weakly = λ x alive. ground (arith, alive, found_none s x v missing) })

  get-IsSingle : (s : ExpireValue) → IsSingle s → IsSingle (get provide s).1
  unfolding get
  get-IsSingle s v = elim (Option-cases (get_from_ref_or_cache s)) [
    | inl z ↦ made-IsSingle (provide s.calls) s v z refl
    | inr (arc, z) ↦
        subst IsSingle {x = hold arc s} {y = (get provide s).1} (ground (arith, z))
          (hold-IsSingle arc s (found_weak s arc v z) v)
  ]

  run-IsSingle : (cs : List Call) (s : ExpireValue) → IsSingle s → IsSingle (run provide cs s)
  unfolding run
  run-IsSingle [] s v = v
  run-IsSingle (call_get ∷ cs) s v = run-IsSingle cs (get provide s).1 (get-IsSingle s v)
  run-IsSingle (call_clear ∷ cs) s v = run-IsSingle cs (clear s) (clear-IsSingle s v)
  run-IsSingle (call_drop arc ∷ cs) s v =
      run-IsSingle cs (drop_arc arc s) (drop_arc-IsSingle arc s v)

  -- After any calls of `get` and `clear`, drops by callers and losses of the cache, `get` gives the
  -- value that a caller or the cache still holds, if there is one, and does not ask the provider; so
  -- there is never more than one value alive.
  pub get-run :
      (cs : List Call) (arc : ℕ)
      → is_alive arc (run provide cs new) ≡ true
      → get provide (run provide cs new) ≡ (ok arc, hold arc (run provide cs new))
  unfolding get get_from_ref_or_cache
  get-run cs arc alive =
      let s : ExpireValue = run provide cs new in
      let at : s.weak ≡ some arc = (run-IsSingle cs new new-IsSingle).weakly arc alive in
      ground (arith, at, alive)
