-- ===== src/Tests/Maps.antt =====
-- The theorems on the map of holders at a run that asks for two keys.
use encryptedfs.Prelude.{ℕ, List, [], ◌∷◌, arith}
use encryptedfs.ArcHashMap.Client.{Op, asks, asks_or_inserts, drops, run, start}
use encryptedfs.ArcHashMap.Live.{IsLive, run-IsLive}

-- Two holders of one entry and one of another; then one of the first entry goes.
abbrev some_calls : List (Op ℕ)
some_calls =
    asks_or_inserts 1 20 ∷ asks_or_inserts 1 30 ∷ asks_or_inserts 2 40 ∷ asks 3 ∷ drops 1 ∷ []

run-IsLive_example : IsLive (run some_calls start)
run-IsLive_example = run-IsLive some_calls (omega arith)

abbrev all_gone : List (Op ℕ)
all_gone = asks_or_inserts 1 20 ∷ asks_or_inserts 2 40 ∷ drops 1 ∷ drops 0 ∷ []
