-- ===== src/Library/Server/Methods.antt =====
-- Which handler a server has for a method, and the check that its clients ask for.
use grapes.Prelude.{
  ℕ, zero, suc, ◌+◌, ◌≡◌, ◌≢◌, refl, ◌<◌, ◌≤◌, Bool, true, false, List, ◌∷◌, ◌==◌, if◌then◌else◌,
  arith, Bool-cases, inl, inr, ◌⊎◌, sym, ◌∙◌,
}
use native.Mathlib.Decide.{ℕ_discrete}
use mathlib.Core.Path.{subst}
use grapes.Library.Server.{
  Method, Server, Param, shm_param, long_param, get_handler, add_handler, handles_all,
  check_if_handles_many, mr_long,
}

-- The handler added last is the one that counts, and the other methods keep theirs.
get_handler-add_handler :
    (o : Server) (method h m : ℕ)
    → get_handler (add_handler o method h).methods m
      ≡ (if method == m then h else get_handler o.methods m)
unfolding get_handler add_handler
get_handler-add_handler o method h m = ground arith

true_ne_false : true ≢ false
true_ne_false e = absurd (cc)

handles_all_iff :
    (methods : List Method) (words_at : ℕ → ℕ) (n i : ℕ)
    → (handles_all methods words_at n i ≡ true
        → (k : ℕ) → i ≤ k
        → k < i + n
        → get_handler methods (words_at k) ≢ 0)
      × (((k : ℕ) → i ≤ k → k < i + n → get_handler methods (words_at k) ≢ 0)
          → handles_all methods words_at n i ≡ true)
unfolding handles_all
handles_all_iff methods words_at zero i = (λ e k l l'. absurd (omega arith), λ f. refl)
handles_all_iff methods words_at (suc n) i =
    let (to, from) = handles_all_iff methods words_at n (i + 1) in
    (
      λ e k l l'. elim (ℕ_discrete i k) [
        | yes here ↦ subst (λ j. get_handler methods (words_at j) ≢ 0) here (ground arith)
        | no ne ↦ to (ground arith) k (omega arith) (omega arith)
      ],
      λ f. ground (
        arith,
        f i (omega arith) (omega arith),
        from (λ k l l'. f k (omega arith) (omega arith)),
      ),
    )

-- For the array at `p`, the check of many methods answers 1 exactly when the server has a handler
-- for each of the `n` methods of the array, and otherwise 0.
check_if_handles_many_lem :
    (words_at : ℕ → ℕ → ℕ) (o : Server) (p n size : ℕ) (keep : Bool) (rest : List Param)
    → p ≢ 0
    → let ret = check_if_handles_many words_at o (shm_param p keep size ∷ long_param n ∷ rest) in
      let all = (k : ℕ) → k < n → get_handler o.methods (words_at p k) ≢ 0 in
      ((ret ≡ mr_long 1) × all) ⊎ ((ret ≡ mr_long 0) × ¬ all)
unfolding check_if_handles_many
check_if_handles_many_lem words_at o p n size keep rest ne =
    let (to, from) = handles_all_iff o.methods (words_at p) n 0 in
    let there : (p == 0) ≡ false = ground arith in
    elim (Bool-cases (handles_all o.methods (words_at p) n 0)) [
      | inl e ↦ inl (rw (there, e) refl, λ k l. to e k (omega arith) (omega arith))
      | inr e ↦ inr (
        rw (there, e) refl,
        λ all. absurd (true_ne_false (sym (from (λ k h l. all k (omega arith))) ∙ e)),
      )
    ]
