-- ===== src/Manager/Open.antt =====
-- No service is found for a name with a resource behind it.
use grapes.Prelude.{
  ℕ, ◌+◌, ◌≡◌, ◌≢◌, ◌<◌, refl, true, false, some, none, List, [], ◌∷◌, ◌==◌, arith,
}
use grapes.Prelude.Pointers.{update}
use grapes.Kernel.Segments.Shared.{minus}
use grapes.Library.Strings.{Memory}
use grapes.Library.Strings.Search.{strcmp-differ, strchr-first}
use grapes.Library.Server.{mr_err}
use grapes.Manager.{Service, Manager, is_string, find_service, handle_open}

-- Every service has another byte than `c` at index `k` from the start of its name.
abbrev pub Differ : (k c : ℕ) → Memory → List Service → Type 0
Differ k c m [] = Unit
Differ k c m (s ∷ services) = (m (s.name + k) ≢ c) × Differ k c m services

find_service-none :
    (fuel k svc : ℕ) (m : Memory) (services : List Service)
    → k < fuel
    → ((j : ℕ) → j < k → m (svc + j) ≢ 0)
    → Differ k (m (svc + k)) m services
    → find_service fuel svc m services ≡ some none
unfolding find_service
find_service-none fuel k svc m [] lt some_svc differ = refl
find_service-none fuel k svc m (s ∷ services) lt some_svc (ne, differ) =
    let (x, y, run, unequal) = strcmp-differ fuel k s.name svc m lt some_svc ne in
    rw (run, unequal) (find_service-none fuel k svc m services lt some_svc differ)

-- `handle_open` of a string with its first colon at index `k`, whatever is registered, if no
-- service has the digit 0 at that place from the start of its name, in memory apart from the colon:
-- the answer is the error -2, also if there is a service of the name before the colon, and the
-- string is left with a 0 in place of the colon.
pub handle_open-resource :
    (c_open : (obj res : ℕ) → Manager → ℕ × Manager) (fuel k svc size : ℕ) (s : Manager)
    → is_string svc size s.memory ≡ true
    → k < fuel
    → svc ≢ 0
    → ((j : ℕ) → j < k → s.memory (svc + j) ≢ 0)
    → ((j : ℕ) → j < k → s.memory (svc + j) ≢ b':')
    → s.memory (svc + k) ≡ b':'
    → Differ k b'0' (update s.memory (svc + k) b'0') s.services
    → handle_open c_open fuel svc size s
      ≡ some (mr_err (minus 2), record s { memory = update s.memory (svc + k) b'0' })
unfolding handle_open
handle_open-resource c_open fuel k svc size s ends lt some_svc full_part other colon differ =
    let m = update s.memory (svc + k) b'0' in
    let sep = strchr-first fuel k svc b':' s.memory lt full_part other colon (omega arith) in
    let there : ((svc + k) == 0) ≡ false = ground (arith, some_svc) in
    let zero_at : m (svc + k) ≡ b'0' = ground arith in
    let missing =
      find_service-none fuel k svc m s.services lt (λ j less. ground (arith, full_part j less))
        (rw zero_at differ) in
    rw (ends, sep, there, missing) refl
