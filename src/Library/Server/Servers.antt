-- ===== src/Library/Server/Servers.antt =====
-- The list of servers of a process.
use grapes.Prelude.{
  ℕ, ◌≡◌, ◌≢◌, refl, some, none, List, [], ◌∷◌, ◌==◌, if◌then◌else◌, arith, Bool-cases, inl, inr,
  sym, ◌∙◌,
}
use mathlib.Core.Path.{subst}
use grapes.Library.Server.{
  Server, get_handler, add_handler, srv_create, srv_get, srv_delete, handlecheck_bivv,
  handlecheck_bmiv,
}

-- The servers have different descriptors and stand at different addresses.
abbrev pub Apart : Server → List Server → Type 0
Apart s [] = Unit
Apart s (x ∷ xs) = (s.addr ≢ x.addr) × (s.id ≢ x.id) × Apart s xs

abbrev AllApart : List Server → Type 0
AllApart [] = Unit
AllApart (x ∷ xs) = Apart x xs × AllApart xs

-- A new server is found under its descriptor and answers both checks of its methods; the others
-- are found as before; deleting it restores the list.
srv_create_lem :
    (addr descriptor check check_many : ℕ) (servers : List Server)
    → let servers' = srv_create addr descriptor check check_many servers in
      ((s : Server) × (srv_get descriptor servers' ≡ some s)
        × (s.addr ≡ addr)
        × (get_handler s.methods handlecheck_bivv ≡ check)
        × (get_handler s.methods handlecheck_bmiv ≡ check_many))
      × ((d : ℕ) → descriptor ≢ d → srv_get d servers' ≡ srv_get d servers)
      × (srv_delete addr servers' ≡ servers)
unfolding srv_create srv_get srv_delete get_handler add_handler
srv_create_lem addr descriptor check check_many servers =
    let fresh : Server = record { addr = addr; id = descriptor; methods = [] } in
    (
      (
        add_handler (add_handler fresh handlecheck_bivv check) handlecheck_bmiv check_many,
        ground arith,
        refl,
        ground arith,
        ground arith,
      ),
      λ d ne. ground arith,
      ground arith,
    )

absent : (s : Server) (xs : List Server) → Apart s xs → srv_get s.id xs ≡ none
unfolding srv_get
absent s [] h = refl
absent s (x ∷ xs) (a, i, rest) = ground (arith, absent s xs rest)

some-injective : {x y : Server} → some x ≡ some y → x ≡ y
some-injective e = cc

found-Apart :
    (x s : Server) (d : ℕ) (xs : List Server)
    → Apart x xs
    → srv_get d xs ≡ some s
    → (x.addr ≢ s.addr) × (x.id ≢ s.id) × (s.id ≡ d)
unfolding srv_get
found-Apart x s d [] h e = absurd (cc)
found-Apart x s d (y ∷ ys) (a, i, rest) e = elim (Bool-cases (y.id == d)) [
  | inl here ↦
      let same : y ≡ s = some-injective (sym (rw (here, srv_get) refl) ∙ e) in
      subst (λ z. (x.addr ≢ z.addr) × (x.id ≢ z.id) × (z.id ≡ d)) same (a, i, ground arith)
  | inr later ↦ found-Apart x s d ys rest (ground (arith, e, later))
]

-- A deleted server is not found any more, and every other one is.
srv_delete_lem :
    (s : Server) (d : ℕ) (servers : List Server)
    → AllApart servers
    → srv_get s.id servers ≡ some s
    → srv_get d (srv_delete s.addr servers) ≡ (if s.id == d then none else srv_get d servers)
unfolding srv_get srv_delete
srv_delete_lem s d [] apart e = ground arith
srv_delete_lem s d (x ∷ xs) (first, apart) e = elim (Bool-cases (x.id == s.id)) [
  | inl here ↦
      let same : x ≡ s = some-injective (sym (rw (here, srv_get) refl) ∙ e) in
      subst
        (λ z.
          srv_get d (srv_delete z.addr (x ∷ xs)) ≡ (if z.id == d then none else srv_get d (x ∷ xs)))
        same (ground (arith, absent x xs first))
  | inr later ↦
      let there : srv_get s.id xs ≡ some s = ground (arith, e, later) in
      ground (arith, found-Apart x s s.id xs first there, later, srv_delete_lem s d xs apart there)
]
