-- ===== src/Prelude/Pointers.antt =====
-- Pointers into a store, and the linked lists that they form.
use Prim.Native.Nat.{ℕ}
use mathlib.Core.Path.{◌≡◌, refl}
use mathlib.Core.Logic.{◌≢◌}
use mathlib.Core.Bool.{Bool, true, false, ◌||◌}
use mathlib.Core.List.{List, [], ◌∷◌, ◌++◌}
use native.Mathlib.Omega.{arith}
use grapes.Prelude.Tests.{◌==◌, if◌then◌else◌}

-- An address; 0 is the null pointer.
abbrev pub Ptr : Type 0
Ptr = ℕ

abbrev pub null : Ptr
null = 0

-- a write to one field of the objects at all addresses
abbrev pub update {ℓ} : {A : Type ℓ} → (Ptr → A) → Ptr → A → Ptr → A
update f p v q = if p == q then v else f q

abbrev pub has : Ptr → List Ptr → Bool
has p (q ∷ qs) = (q == p) || has p qs
has p [] = false

-- From `p` the links lead through `xs`, which are not null, to null.
abbrev pub Chain : (Ptr → Ptr) → Ptr → List Ptr → Type 0
Chain next p [] = p ≡ null
Chain next p (x ∷ xs) = (p ≡ x) × (x ≢ null) × Chain next (next x) xs

-- No address occurs twice.
abbrev pub Distinct : List Ptr → Type 0
Distinct [] = Unit
Distinct (x ∷ xs) = (has x xs ≡ false) × Distinct xs

-- A list without the first occurrence of an address.
abbrev pub remove : Ptr → List Ptr → List Ptr
remove p [] = []
remove p (q ∷ qs) = if q == p then qs else q ∷ remove p qs

-- The last of a list, null for none.
abbrev pub last : List Ptr → Ptr
last [] = null
last (x ∷ []) = x
last (x ∷ y ∷ xs) = last (y ∷ xs)

pub has-append : (p : Ptr) (ps qs : List Ptr) → (has p ps || has p qs) ≡ has p (ps ++ qs)
has-append p (q ∷ ps) qs = ground (arith, has-append p ps qs)
has-append p [] qs = refl

-- A write to an address outside a chain leaves it.
pub Chain-update :
    (next : Ptr → Ptr) (p a v : Ptr) (xs : List Ptr)
    → has a xs ≡ false
    → Chain next p xs
    → Chain (update next a v) p xs
Chain-update next p a v [] out c = c
Chain-update next p a v (x ∷ xs) out c =
    ground (arith, Chain-update next (next x) a v xs (ground arith) c.2)

pub last-has : (x : Ptr) (xs : List Ptr) → has (last (x ∷ xs)) (x ∷ xs) ≡ true
last-has x [] = ground arith
last-has x (y ∷ xs) = ground (arith, last-has y xs)

pub last-snoc : (xs : List Ptr) (t : Ptr) → last (xs ++ t ∷ []) ≡ t
last-snoc [] t = refl
last-snoc (x ∷ []) t = refl
last-snoc (x ∷ y ∷ xs) t = last-snoc (y ∷ xs) t

-- A new address linked behind the last one.
pub Chain-snoc :
    (next : Ptr → Ptr) (p t x : Ptr) (xs : List Ptr)
    → t ≢ null
    → has t (x ∷ xs) ≡ false
    → Distinct (x ∷ xs)
    → Chain next p (x ∷ xs)
    → Chain (update (update next t null) (last (x ∷ xs)) t) p ((x ∷ xs) ++ t ∷ [])
Chain-snoc next p t x [] ne out d c = ground arith
Chain-snoc next p t x (y ∷ xs) ne out d c =
    let rest = Chain-snoc next (next x) t y xs ne (ground arith) d.1 c.2 in
    ground (arith, rest, last-has y xs)

pub Distinct-snoc :
    (t : Ptr) (xs : List Ptr) → has t xs ≡ false → Distinct xs → Distinct (xs ++ t ∷ [])
Distinct-snoc t [] out d = (refl, tt)
Distinct-snoc t (x ∷ xs) out d =
    ground (arith, has-append x xs (t ∷ []), Distinct-snoc t xs (ground arith) d.1)
