-- ===== src/Suggest/Lru/Samples.antt =====
-- The theorems on internal/suggestions/suggest/lru.go at concrete inputs, and a test of its code.
use native.Mathlib.Decide.{ℕ_discrete}
use clai.Common.{ℕ, ◌≤◌, ◌<◌, List, [], ◌∷◌, Option, none, some, pos, ◌≡◌, refl}
use clai.Suggest.Lru.{
  new_lru, len, size, word, get, put, evict_to_size, evict_while, make_room, evict_oldest,
  remove_element, entry_at, without,
}
use clai.Suggest.Lru.Elements.{view}
use clai.Suggest.Lru.Valid.{total}
use clai.Suggest.Lru.Runs.{
  LruCall, call_get, call_put, call_evict_to_size, call_len, call_size, value, done, number, run,
  list_run, step, run-list_run, run-bounded,
}

abbrev sizes : Option (ℕ → ℕ → ℕ)
sizes = some (λ k v. v)

-- The third put evicts the key that was not read.
abbrev calls : List (LruCall ℕ ℕ)
calls =
    call_put 1 10
    ∷ call_put 2 20
    ∷ call_get 1
    ∷ call_put 3 30
    ∷ call_get 2
    ∷ call_size
    ∷ call_evict_to_size 30
    ∷ call_len
    ∷ []

run-list_run_example :
    let (l, answers) = run ℕ_discrete sizes calls (new_lru (pos 2)) in
    (view l.order, answers) ≡ list_run ℕ_discrete sizes 2 calls []
run-list_run_example = run-list_run ℕ_discrete sizes (pos 2) calls

run-bounded_example :
    let l = (run ℕ_discrete sizes calls (new_lru (pos 2))).0 in
    (len l ≤ 2) × (size l ≡ total ℕ_discrete sizes (view l.order)) × (size l < word)
run-bounded_example = run-bounded ℕ_discrete sizes (pos 2) calls

last_answers :
    (run ℕ_discrete sizes calls (new_lru (pos 2))).1
    ≡ done ∷ done ∷ value (some 10) ∷ done ∷ value none ∷ number 40 ∷ number 1 ∷ number 1 ∷ []
unfolding run step new_lru get put evict_to_size evict_while make_room evict_oldest remove_element
    entry_at without len size ℕ_discrete
last_answers = refl
