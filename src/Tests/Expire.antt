-- ===== src/Tests/Expire.antt =====
-- The theorem on expiring values where the cache lets a value go that is still held.
use encryptedfs.Prelude.{ℕ, ◌≡◌, refl, List, [], ◌∷◌, Result, ok}
use encryptedfs.ExpireValue.{
  new, get_from_ref_or_cache, hold, get, run, Call, call_get, call_clear, call_drop,
}
use encryptedfs.ExpireValue.Single.{get-run}

abbrev provide : ℕ → Result ℕ (Unit {0})
provide calls = ok tt

abbrev calls_made : List Call
calls_made = call_get ∷ call_get ∷ call_clear ∷ call_drop 0 ∷ []

get-run_example :
    get provide (run provide calls_made new) ≡ (ok 0, hold 0 (run provide calls_made new))
unfolding run get get_from_ref_or_cache
get-run_example = get-run provide calls_made 0 refl
