-- ===== src/ArcHashMap/Live.antt =====
-- An entry lives exactly as long as a holder of it, whatever the calls.
use encryptedfs.Prelude.{
  ℕ, suc, ◌+◌, ◌-◌, ◌%◌, ◌^◌, ◌≤◌, ◌<◌, ◌≡◌, refl, sym, subst, inl, inr, none, some, List, [], ◌∷◌,
  arith, Option-cases, length,
}
use encryptedfs.Prelude.Assoc.{Assoc, lookup, insert, lookup-insert}
use encryptedfs.ArcHashMap.{
  set_count, new, fetch_add, fetch_sub, get_internal, get, or_insert_with, get_or_insert_with,
  purge, drop_holder, len, Value, ArcHashMap, Holder,
}
use encryptedfs.ArcHashMap.Client.{
  with_holder, pick, call, run, sharing, AllHave, AllHeld, start, Op, Client, asks_or_inserts, asks,
  drops,
}
use encryptedfs.ArcHashMap.Entries.{
  sharing-le-length, pick-sharing, pick-length, AllHeld-mono, AllHeld-insert, AllHave-insert,
  AllHave-retain, AllHeld-retain, pick-AllHave, lookup-held,
}

module _ {ℓ} {V : Type ℓ} where
  -- The counters are those of the holders, and entries and holders belong together.
  pub record IsLive (c : Client V) : Type ℓ where
    pub counted : (a : ℕ) → c.map.counts a ≡ sharing a c.holders
    pub below : (a : ℕ) → c.map.fresh ≤ a → sharing a c.holders ≡ 0
    pub have : AllHave c.map.map c.holders
    pub held : AllHeld c.holders c.map.map

  -- A holder of an entry that is there.
  hold :
      (c : Client V) (k : ℕ) (v : Value V)
      → IsLive c
      → length c.holders < 2 ^ 64 - 1
      → lookup k c.map.map ≡ some v
      → IsLive (with_holder (get_internal (some v) c.map) c.holders)
  unfolding get_internal fetch_add
  hold c k v l few e =
      let h : Holder V = record { val = v.val; rc = v.rc } in
      let some_holder = lookup-held c.holders k v c.map.map e l.held in
      record {
        counted = λ a. ground (arith, l.counted a, sharing-le-length a c.holders);
        below = λ a fresh_le. ground (arith, l.below a fresh_le);
        have = ((k, e), l.have);
        held = AllHeld-mono c.holders (h ∷ c.holders) c.map.map (λ a. ground arith) l.held;
      }

  -- A holder of a new entry.
  hold_new :
      (c : Client V) (k : ℕ) (v : V)
      → IsLive c
      → length c.holders < 2 ^ 64 - 1
      → lookup k c.map.map ≡ none
      → IsLive (with_holder (get_or_insert_with k v c.map) c.holders)
  unfolding get_or_insert_with or_insert_with get_internal fetch_add
  hold_new c k v l few e =
      let a0 : ℕ = c.map.fresh in
      let w : Value V = record { val = v; rc = a0 } in
      let h : Holder V = record { val = v; rc = a0 } in
      let zeroed : ℕ → ℕ = set_count a0 0 c.map.counts in
      let c' : Client V = record {
        map = record {
          map = insert k w c.map.map;
          counts = set_count a0 ((zeroed a0 + 1) % 2 ^ 64) zeroed;
          fresh = a0 + 1;
        };
        holders = h ∷ c.holders;
      } in
      let run : with_holder (get_or_insert_with k v c.map) c.holders ≡ c' = ground (arith, e) in
      subst IsLive (sym run) (record {
        counted = λ a. ground (arith, l.counted a, l.below a, sharing-le-length a c.holders);
        below = λ a fresh_le. ground (arith, l.below a);
        have = (
          (k, ground (arith, lookup-insert k k w c.map.map)),
          AllHave-insert c.holders k w c.map.map e l.have,
        );
        held =
            AllHeld-insert (h ∷ c.holders) k w c.map.map (ground arith)
              (AllHeld-mono c.holders (h ∷ c.holders) c.map.map (λ a. ground arith) l.held);
      })

  -- An entry that is there is not replaced.
  present :
      (c : Client V) (k : ℕ) (v : V) (w : Value V)
      → lookup k c.map.map ≡ some w
      → get_or_insert_with k v c.map ≡ get_internal (some w) c.map
  unfolding get_or_insert_with or_insert_with
  present c k v w e = ground (arith, e)

  -- Dropping a holder.
  release :
      (c : Client V) (i : ℕ) (h : Holder V) (hs : List (Holder V))
      → IsLive c
      → length c.holders < 2 ^ 64
      → pick i c.holders ≡ some (h, hs)
      → IsLive (record { map = drop_holder h c.map; holders = hs })
  unfolding drop_holder purge fetch_sub
  release c i h hs l few e =
      let m : ArcHashMap V = fetch_sub h.rc c.map in
      let counted : (a : ℕ) → m.counts a ≡ sharing a hs = λ a.
        ground
          (arith, l.counted a, pick-sharing i c.holders hs h e a, sharing-le-length a c.holders) in
      record {
        counted = counted;
        below = λ a fresh_le. ground (arith, l.below a fresh_le, pick-sharing i c.holders hs h e a);
        have =
            AllHave-retain m.counts hs c.map.map (λ a. omega (arith, counted a))
              (pick-AllHave c.map.map i c.holders hs h e l.have);
        held = AllHeld-retain m.counts hs c.map.map counted;
      }

  call-IsLive :
      (o : Op V) (c : Client V)
      → IsLive c
      → length c.holders < 2 ^ 64 - 1
      → IsLive (call o c) × (length (call o c).holders ≤ suc (length c.holders))
  unfolding call get get_or_insert_with or_insert_with get_internal drop_holder purge fetch_sub
  call-IsLive (asks k) c l few = elim (Option-cases (lookup k c.map.map)) [
    | inl absent ↦ rw absent (l, omega arith)
    | inr (v, e) ↦ rw e (hold c k v l few e, omega arith)
  ]
  call-IsLive (asks_or_inserts k v) c l few = elim (Option-cases (lookup k c.map.map)) [
    | inl absent ↦ (hold_new c k v l few absent, omega arith)
    | inr (w, e) ↦ (
      subst (λ o. IsLive (with_holder o c.holders)) (sym (present c k v w e)) (hold c k w l few e),
      omega arith,
    )
  ]
  call-IsLive (drops i) c l few =
      let Good : Client V → Type ℓ = λ d. IsLive d × (length d.holders ≤ suc (length c.holders)) in
      elim (Option-cases (pick i c.holders)) [
        | inl z ↦
            (let run : call (drops i) c ≡ c = ground (arith, z) in
              subst Good (sym run) (l, omega arith))
        | inr ((h, hs), e) ↦
            (let run : call (drops i) c ≡ record { map = drop_holder h c.map; holders = hs } =
                ground (arith, e) in
              subst Good (sym run)
                (release c i h hs l (omega arith) e, omega (arith, pick-length i c.holders hs h e)))
      ]

  run-IsLive_from :
      (os : List (Op V)) (c : Client V)
      → IsLive c
      → length c.holders + length os < 2 ^ 64
      → IsLive (run os c)
  unfolding run
  run-IsLive_from [] c l few = l
  run-IsLive_from (o ∷ os) c l few =
      let (l', more) = call-IsLive o c l (omega arith) in
      run-IsLive_from os (call o c) l' (omega arith)

  -- After any calls on a new map, fewer than 2^64, each holder that is alive finds its value and its
  -- counter in an entry of the map, each entry has a holder that is alive, and each counter is the
  -- number of the holders that share it.
  pub run-IsLive : (os : List (Op V)) → length os < 2 ^ 64 → IsLive (run os start)
  unfolding new
  run-IsLive os few =
      run-IsLive_from os start
        (record { counted = λ a. refl; below = λ a fresh_le. refl; have = tt; held = tt })
        (omega arith)

  none_held : (m : Assoc (Value V)) → AllHeld [] m → length m ≡ 0
  none_held [] held = refl
  none_held ((k, v) ∷ m) (some_holder, held) = absurd (omega arith)

  -- After any calls on a new map, fewer than 2^64, that leave no holder alive, the map is empty.
  pub len-run :
      (os : List (Op V))
      → length os < 2 ^ 64
      → (run os start).holders ≡ []
      → len (run os start).map ≡ 0
  unfolding len
  len-run os few gone =
      none_held (run os start).map.map
        (subst (λ hs. AllHeld hs (run os start).map.map) gone (run-IsLive os few).held)
