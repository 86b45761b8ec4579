-- ===== src/Base/Rounds.antt =====
-- Loops that run a step until the step returns, on fuel.
use Prim.Native.Nat.{ℕ, zero, suc}

-- One round of a `loop`: go round again, or return.
pub data Round (A : Type 0) : Type 0 where
  again : Round A
  ret : A → Round A

abbrev pub returned : {S A : Type 0} → S × A → S × Round A
returned (s, a) = (s, ret a)

abbrev pub resume : {S A : Type 0} → S × Round A → (S → S × Round A) → S × Round A
resume (s, again) k = k s
resume (s, ret a) k = (s, ret a)

-- `loop { … }` on fuel; `again` comes back only where the fuel ran out.
unfoldable pub loop : {S A : Type 0} → ℕ → (S → S × Round A) → S → S × Round A
loop zero step s = (s, again)
loop (suc fuel) step s = resume (step s) (loop fuel step)

module _ {S A : Type 0} (P : S → Type 0) (Post : A → S → Type 0) where
  abbrev pub Ends : S × Round A → Type 0
  Ends (s, again) = P s
  Ends (s, ret a) = Post a s

-- A loop keeps what each round keeps, and returns with what each round returns with.
module _ {S A : Type 0} (P : S → Type 0) (Post : A → S → Type 0) (step : S → S × Round A)
    (ends : (s : S) → P s → Ends P Post (step s)) where
  pub loop-Ends : (fuel : ℕ) (s : S) → P s → Ends P Post (loop fuel step s)
  unfolding loop
  loop-Ends zero s p = p
  loop-Ends (suc fuel) s p = go (step s) (ends s p) (λ t q. loop-Ends fuel t q)
    where
      go :
          (x : S × Round A)
          → Ends P Post x
          → ((t : S) → P t → Ends P Post (loop fuel step t))
          → Ends P Post (resume x (loop fuel step))
      go (t, again) q ih = ih t q
      go (t, ret a) q ih = q
