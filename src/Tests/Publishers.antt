-- ===== src/Tests/Publishers.antt =====
-- The theorem on the observers of a state at concrete inputs.
use ipcinfra.Prelude.{ℕ, zero, suc, ◌≡◌, refl, ap, false, List, [], ◌∷◌, length, arith}
use ipcinfra.Observers.{created}
use ipcinfra.Observers.Counting.{told_to}
use ipcinfra.Observers.Hearing.{Operation, run, heard, run-Hears}

-- Two observers; the first is removed between two assignments.
abbrev calls : List (Operation ℕ ℕ)
calls =
    Operation.adding 70
    ∷ Operation.adding 80
    ∷ Operation.assigning 1
    ∷ Operation.removing 1
    ∷ Operation.assigning 2
    ∷ []

abbrev zeros : ℕ → List (ℕ × ℕ)
zeros zero = []
zeros (suc n) = (0, 0) ∷ zeros n

zeros_many : (n : ℕ) → length (zeros n) ≡ n
zeros_many zero = refl
zeros_many (suc n) = ap suc (zeros_many n)

first_hears : heard 1 0 false calls ≡ 1 ∷ []
first_hears = refl

run-Hears_example : told_to 2 (run zeros calls (created 0 0)).dispatched ≡ heard 2 0 false calls
run-Hears_example = run-Hears zeros zeros_many 2 0 0 calls (omega arith)
