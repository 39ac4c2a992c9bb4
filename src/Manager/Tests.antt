-- ===== src/Manager/Tests.antt =====
-- The service "a" at 500, and the name "a:b" at 600.
use grapes.Prelude.{ℕ, ◌≡◌, refl, true, some, [], ◌∷◌, ◌==◌, if◌then◌else◌, arith}
use grapes.Prelude.Pointers.{update}
use grapes.Kernel.Segments.Shared.{minus}
use grapes.Library.Strings.{Memory}
use grapes.Library.Server.{mr_err}
use grapes.Manager.{Manager, is_string, handle_open}
use grapes.Manager.Open.{handle_open-resource}

abbrev memory : Memory
memory a =
    if a == 500
    then b'a'
    else if a == 600
    then b'a'
    else if a == 601
    then b':'
    else if a == 602
    then b'b'
    else 0

abbrev manager : Manager
manager = record {
  services = (record { name = 500; pid = 7; obj = 3 }) ∷ [];
  loglevel = 5;
  memory = memory;
  printed = [];
}

abbrev never_opens : (obj res : ℕ) → Manager → ℕ × Manager
never_opens obj res s = (minus 1, s)

name_ends : is_string 600 10 memory ≡ true
unfolding is_string
name_ends = refl

handle_open-resource_example :
    handle_open never_opens 4 600 10 manager
    ≡ some (mr_err (minus 2), record manager { memory = update memory 601 b'0' })
handle_open-resource_example =
    handle_open-resource never_opens 4 1 600 10 manager name_ends (omega arith) (omega arith)
      (λ j lt. ground arith) (λ j lt. ground arith) refl (ground arith, tt)
