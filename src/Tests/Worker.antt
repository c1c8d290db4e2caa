-- ===== src/Tests/Worker.antt =====
-- The workers with a Sync that fails for one key, which counts its calls.
use cert_broker.Base.{
  String, ℕ, suc, ◌≡◌, refl, Bool, true, ◌==◌, Option, some, none, [], ◌∷◌, if◌then◌else◌,
}
use cert_broker.Base.Exec.{Exec, returned}
use cert_broker.Queue.{Item, key, foreign, Worker}
use cert_broker.Controller.{run_worker}
use cert_broker.Controller.Laws.{item_outcome, dones, dones-run_worker}

-- The number of calls is the state; the error is the key.
abbrev failing : String → Exec ℕ (Option String)
failing k n = (returned (if k == "bad" then some k else none), suc n)

abbrev rechecking : String → Exec ℕ (Bool × Option String)
rechecking k n = (returned (true, if k == "bad" then some k else none), suc n)

abbrev idle : {C : Type 0} → Worker ℕ C
idle = record { state = 0; calls = [] }

abbrev one_second : {C : Type 0} → C → Item → ℕ
one_second c item = 1_000_000_000

failing-returned :
    (item : Item) (n : ℕ) → (e : Option String) × ((item_outcome failing item n).0 ≡ returned e)
failing-returned (key k) n = (if k == "bad" then some k else none, refl)
failing-returned foreign n = (none, refl)

dones-run_worker_example :
    dones (run_worker failing (key "a" ∷ foreign ∷ key "bad" ∷ []) idle).1.calls
    ≡ key "a" ∷ foreign ∷ key "bad" ∷ []
dones-run_worker_example =
    dones-run_worker failing failing-returned (key "a" ∷ foreign ∷ key "bad" ∷ []) idle
