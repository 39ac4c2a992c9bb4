-- ===== src/Library/Strings/Tests.antt =====
-- The string "hi" at address 100.
use grapes.Prelude.{◌≡◌, ◌+◌, ◌-◌, inr, refl, some, ◌==◌, if◌then◌else◌, arith}
use grapes.Library.Strings.{Memory, strchr, memcpy, strlen}
use grapes.Library.Strings.Copy.{within, memcpy_lem}
use grapes.Library.Strings.Length.{IsString, strlen_lem}

abbrev memory : Memory
memory a = if a == 100 then b'h' else if a == 101 then b'i' else 0

hi : IsString 100 2 memory
hi = record { bytes = λ k h. ground arith; terminator = refl }

-- The second letter is found where it stands.
found : strchr 5 100 b'i' memory ≡ some 101
unfolding strchr
found = refl

strlen_lem_example : strlen 5 100 memory ≡ some 3
strlen_lem_example = strlen_lem 5 2 100 memory (omega arith) hi

memcpy_lem_example :
    memcpy 200 100 7 memory 201
    ≡ (if within 200 7 201 then memory (100 + (201 - 200)) else memory 201)
memcpy_lem_example = memcpy_lem 200 100 7 memory 201 (inr (omega arith))
