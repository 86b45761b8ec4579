-- ===== src/Server/Workers/Preforked/Parent.antt =====
-- The processes that the parent forks, signals and waits for.
use rust_tcp_server.Base.{
  ℕ, zero, suc, ◌+◌, ◌<◌, ◌≡◌, refl, sym, ap, subst, ◌∙◌, max, Bool, true, false, Option, none,
  some, Option-cases, inl, inr, List, [], ◌∷◌, ◌++◌, map, length, length-append, arith,
}
use rust_tcp_server.Server.Workers.Preforked.{
  Call, kill, waitpid, forward_signal, reap, fork_from, Serve, idles, returned, is_seen, serve_with,
  serve_preforked,
}

-- The results of the first calls of `fork`, from the one for the worker `i` on.
abbrev pub results_of : (ℕ → Option ℕ) → ℕ → ℕ → List (Option ℕ)
results_of fork i zero = []
results_of fork i (suc n) = fork i ∷ results_of fork (suc i) n

-- The children are those of the calls before the first that failed.
abbrev pub AllForked : (ℕ → Option ℕ) → ℕ → List ℕ → Bool → Type 0
AllForked fork n children true =
    (map some children ≡ results_of fork 0 (length children)) × (length children ≡ n)
AllForked fork n children false =
    (map some children ≡ results_of fork 0 (length children))
    × (length children < n)
    × (fork (length children) ≡ none)

abbrev pub NeverSet : List Bool → Type 0
NeverSet [] = Unit {0}
NeverSet (flag ∷ flags) = (flag ≡ false) × NeverSet flags

abbrev pub EverSet : List Bool → Type 0
EverSet flags = (before : List Bool) × (after : List Bool) × (flags ≡ before ++ true ∷ after)

-- The signals to the children that were forked, and the waits for them.
abbrev pub Ended : (ℕ → Option ℕ) → ℕ → Bool → List Call → Type 0
Ended fork n good calls =
    (children : List ℕ) × AllForked fork n children good
    × (calls ≡ map kill children ++ map waitpid children)

unfoldable pub EndsFor : (ℕ → Option ℕ) → ℕ → List Bool → Serve → Type 0
EndsFor fork n flags (idles children) = AllForked fork n children true × NeverSet flags
EndsFor fork n flags (returned true calls) = Ended fork n true calls × EverSet flags
EndsFor fork n flags (returned false calls) = Ended fork n false calls

is_seen_set : (flags : List Bool) → is_seen flags ≡ true → EverSet flags
unfolding is_seen
is_seen_set [] h = cc
is_seen_set (true ∷ flags) h = ([], flags, refl)
is_seen_set (false ∷ flags) h =
    let (before, after, e) = is_seen_set flags h in (false ∷ before, after, ap (◌∷◌ false) e)

is_seen_unset : (flags : List Bool) → is_seen flags ≡ false → NeverSet flags
unfolding is_seen
is_seen_unset [] h = tt
is_seen_unset (true ∷ flags) h = cc
is_seen_unset (false ∷ flags) h = (refl, is_seen_unset flags h)

forward_signal_lem : (children : List ℕ) → forward_signal children ≡ map kill children
unfolding forward_signal
forward_signal_lem [] = refl
forward_signal_lem (pid ∷ children) = ap (◌∷◌ (kill pid)) (forward_signal_lem children)

reap_lem : (children : List ℕ) → reap children ≡ map waitpid children
unfolding reap
reap_lem [] = refl
reap_lem (pid ∷ children) = ap (◌∷◌ (waitpid pid)) (reap_lem children)

calls_lem :
    (children : List ℕ)
    → forward_signal children ++ reap children ≡ map kill children ++ map waitpid children
calls_lem children =
    ap (λ c. c ++ reap children) (forward_signal_lem children)
    ∙ ap (λ c. map kill children ++ c) (reap_lem children)

map-end :
    {A B : Type 0} → (f : A → B) (xs : List A) (x : A) → map f (xs ++ x ∷ []) ≡ map f xs ++ f x ∷ []
map-end f [] x = refl
map-end f (y ∷ xs) x = ap (◌∷◌ (f y)) (map-end f xs x)

results_of-end :
    (fork : ℕ → Option ℕ) (i n : ℕ)
    → results_of fork i (suc n) ≡ results_of fork i n ++ fork (i + n) ∷ []
results_of-end fork i zero = let here : i ≡ i + 0 = omega arith in ap (λ k. fork k ∷ []) here
results_of-end fork i (suc n) =
    let there : suc i + n ≡ i + suc n = omega arith in
    ap (◌∷◌ (fork i))
      (results_of-end fork (suc i) n ∙ ap (λ k. results_of fork (suc i) n ++ fork k ∷ []) there)

forked_end :
    (fork : ℕ → Option ℕ) (children : List ℕ) (pid : ℕ)
    → map some children ≡ results_of fork 0 (length children)
    → fork (length children) ≡ some pid
    → map some (children ++ pid ∷ []) ≡ results_of fork 0 (length (children ++ pid ∷ []))
forked_end fork children pid h e =
    let n : length (children ++ pid ∷ []) ≡ suc (length children) =
      omega (arith, length-append children (pid ∷ [])) in
    let at : 0 + length children ≡ length children = omega arith in
    let last : fork (0 + length children) ≡ some pid = ap fork at ∙ e in
    map-end some children pid
    ∙ ap (λ rs. rs ++ some pid ∷ []) h
    ∙ ap (λ r. results_of fork 0 (length children) ++ r ∷ []) (sym last)
    ∙ sym (results_of-end fork 0 (length children))
    ∙ ap (results_of fork 0) (sym n)

fork_from_lem :
    (fork : ℕ → Option ℕ) (n i : ℕ) (children : List ℕ)
    → map some children ≡ results_of fork 0 (length children)
    → length children ≡ i
    → AllForked fork (n + i) (fork_from fork n i children).0 (fork_from fork n i children).1
unfolding fork_from
fork_from_lem fork zero i children h l = (h, omega (arith, l))
fork_from_lem fork (suc n) i children h l = elim (Option-cases (fork i)) [
  | inl e ↦ rw e (h, omega (arith, l), ap fork l ∙ e)
  | inr (pid, e) ↦
      let longer : length (children ++ pid ∷ []) ≡ suc i =
        omega (arith, length-append children (pid ∷ []), l) in
      let total : n + suc i ≡ suc n + i = omega arith in
      rw e (
        subst
          (λ k.
            AllForked fork k (fork_from fork n (suc i) (children ++ pid ∷ [])).0
              (fork_from fork n (suc i) (children ++ pid ∷ [])).1)
          total
          (fork_from_lem fork n (suc i) (children ++ pid ∷ [])
            (forked_end fork children pid h (ap fork l ∙ e)) longer))
]

serve_with-EndsFor :
    (fork : ℕ → Option ℕ) (n : ℕ) (flags : List Bool) (r : List ℕ × Bool) (seen : Bool)
    → is_seen flags ≡ seen
    → AllForked fork n r.0 r.1
    → EndsFor fork n flags (serve_with r seen)
unfolding EndsFor
serve_with-EndsFor fork n flags (children, false) seen e h = (children, h, calls_lem children)
serve_with-EndsFor fork n flags (children, true) true e h =
    ((children, h, calls_lem children), is_seen_set flags e)
serve_with-EndsFor fork n flags (children, true) false e h = (h, is_seen_unset flags e)

-- The parent forks until a call fails or all the workers are there, at least one. If one fails, it
-- returns an error. Else it waits with all of them for as long as no reading of the flag is set,
-- and returns without an error once one is. Whenever it returns, it has sent each child that it
-- forked one signal and then waited for each of them once, and made no call on another process.
pub serve_preforked-EndsFor :
    (fork : ℕ → Option ℕ) (workers : ℕ) (flags : List Bool)
    → EndsFor fork (max workers 1) flags (serve_preforked fork workers flags)
unfolding serve_preforked
serve_preforked-EndsFor fork workers flags =
    let total : max workers 1 + 0 ≡ max workers 1 = omega arith in
    let r = fork_from fork (max workers 1) 0 [] in
    serve_with-EndsFor fork (max workers 1) flags r (is_seen flags) refl (
      subst (λ k. AllForked fork k r.0 r.1) total
        (fork_from_lem fork (max workers 1) 0 [] refl refl))
