-- ===== src/Base/Extension.antt =====
-- Loops whose state can be extended (by more input): how a loop on the extended state follows the
-- loop on the state itself, from how one step does.
use Prim.Native.Nat.{ℕ, zero, suc, ◌≤◌, ◌<◌}
use mathlib.Core.Path.{◌≡◌, refl, ap, ◌∙◌, subst}
use native.Mathlib.Omega.{arith}
use rust_tcp_server.Base.Rounds.{Round, again, ret, resume, loop}

-- What a returned value says of the same run on more input: that it takes up from there, that it
-- returns the same value and state, that it returns the same value, or nothing.
pub data Kind : Type 0 where
  waits settles fails unclaimed : Kind

-- A result without what no later round reads; `norm` says what that is.
abbrev pub erase : {S A : Type 0} → (Round A → S → S) → S × Round A → S × Round A
erase norm (s, r) = (norm r s, r)

module _ {S A : Type 0} (kind : A → Kind) (norm : Round A → S → S) (extend : S → S) where
  abbrev pub AgreesAt : Kind → (S → S × Round A) → S × Round A → S → A → Type 0
  AgreesAt waits retry r s a = erase norm r ≡ erase norm (retry (extend s))
  AgreesAt settles retry r s a = r ≡ (extend s, ret a)
  AgreesAt fails retry r s a = r.1 ≡ ret a
  AgreesAt unclaimed retry r s a = Unit {0}

  -- `r` is the result on the extended state, the last argument the one on the state itself.
  abbrev pub Agrees : (S → S × Round A) → S × Round A → S × Round A → Type 0
  Agrees retry r (s, again) = r ≡ (extend s, again)
  Agrees retry r (s, ret a) = AgreesAt (kind a) retry r s a

-- A round that goes on makes the measure fall, and a wait does not make it rise.
module _ {S A : Type 0} (kind : A → Kind) (P : S → Type 0) (measure : S → ℕ) where
  abbrev pub Falls : S → S × Round A → Type 0
  Falls s (t, again) = P t × (measure t < measure s)
  Falls s (t, ret a) = kind a ≡ waits → P t × (measure t ≤ measure s)

resume_value :
    {S A : Type 0} (x : S × Round A) (k : S → S × Round A) {a : A}
    → x.1 ≡ ret a
    → (resume x k).1 ≡ ret a
resume_value (s, again) k h = cc
resume_value (s, ret a) k h = h

module _ {S A : Type 0} (kind : A → Kind) (P : S → Type 0) (measure : S → ℕ)
    (step : S → S × Round A) (falls : (s : S) → P s → Falls kind P measure s (step s)) where
  -- With a measure below the fuel the loop returns.
  pub loop_returns :
      (fuel : ℕ) (s : S)
      → P s
      → measure s < fuel
      → (t : S) × (a : A) × (loop fuel step s ≡ (t, ret a))
  unfolding loop
  loop_returns zero s p h = absurd (omega arith)
  loop_returns (suc fuel) s p h = go (step s) (falls s p) (λ t q m. loop_returns fuel t q m)
    where
      go :
          (x : S × Round A)
          → Falls kind P measure s x
          → ((t : S) → P t → measure t < fuel → (u : S) × (a : A) × (loop fuel step t ≡ (u, ret a)))
          → (t : S) × (a : A) × (resume x (loop fuel step) ≡ (t, ret a))
      go (t, again) f ih = ih t f.0 (omega arith)
      go (t, ret a) f ih = (t, a, refl)

  -- More fuel changes nothing.
  pub loop_fuel :
      (f g : ℕ) (s : S) → P s → measure s < f → measure s < g → loop f step s ≡ loop g step s
  unfolding loop
  loop_fuel zero g s p h k = absurd (omega arith)
  loop_fuel (suc f) zero s p h k = absurd (omega arith)
  loop_fuel (suc f) (suc g) s p h k = go (step s) (falls s p) (λ t q m n. loop_fuel f g t q m n)
    where
      go :
          (x : S × Round A)
          → Falls kind P measure s x
          → ((t : S) → P t → measure t < f → measure t < g → loop f step t ≡ loop g step t)
          → resume x (loop f step) ≡ resume x (loop g step)
      go (t, again) w ih = ih t w.0 (omega arith) (omega arith)
      go (t, ret a) w ih = refl

  -- A loop that waits has not made the measure rise.
  pub loop-Falls :
      (fuel : ℕ) (s t : S) (a : A)
      → P s
      → loop fuel step s ≡ (t, ret a)
      → kind a ≡ waits
      → P t × (measure t ≤ measure s)
  unfolding loop
  loop-Falls zero s t a p e w = cc
  loop-Falls (suc fuel) s t a p e w =
      go (step s) (falls s p) e (λ u q d. loop-Falls fuel u t a q d w)
    where
      go :
          (x : S × Round A)
          → Falls kind P measure s x
          → resume x (loop fuel step) ≡ (t, ret a)
          → ((u : S) → P u → loop fuel step u ≡ (t, ret a) → P t × (measure t ≤ measure u))
          → P t × (measure t ≤ measure s)
      go (u, again) f d ih = let r = ih u f.0 d in (r.0, omega arith)
      go (u, ret b) f d ih =
          let same_value : ret b ≡ ret a = ap (λ x. x.1) d in
          let e : kind b ≡ kind a = ap kind (cc) in
          subst (λ x. P x × (measure x ≤ measure s)) (ap (λ x. x.0) d) (f (e ∙ w))

  module _ (norm : Round A → S → S) (extend : S → S) (extend-P : (s : S) → P s → P (extend s))
      (extend-measure : (s : S) → measure (extend s) ≡ measure s)
      (respects : (s t : S)
        → P s
        → P t
        → norm again s ≡ norm again t
        → erase norm (step s) ≡ erase norm (step t))
      (agrees : (s : S) → P s → Agrees kind norm extend step (step (extend s)) (step s)) where
    erase-resume :
        (k : S → S × Round A) (s t : S) (x y : S × Round A)
        → ((u v : S)
            → P u
            → P v
            → norm again u ≡ norm again v
            → erase norm (k u) ≡ erase norm (k v))
        → Falls kind P measure s x
        → Falls kind P measure t y
        → erase norm x ≡ erase norm y
        → erase norm (resume x k) ≡ erase norm (resume y k)
    erase-resume k s t (u, again) (v, again) h f g e = h u v f.0 g.0 (ap (λ x. x.0) e)
    erase-resume k s t (u, again) (v, ret b) h f g e = cc (ap (λ x. x.1) e)
    erase-resume k s t (u, ret a) (v, again) h f g e = cc (ap (λ x. x.1) e)
    erase-resume k s t (u, ret a) (v, ret b) h f g e = e

    loop-erase :
        (f : ℕ) (s t : S)
        → P s
        → P t
        → norm again s ≡ norm again t
        → erase norm (loop f step s) ≡ erase norm (loop f step t)
    unfolding loop
    loop-erase zero s t p q e = λ i. (e i, again)
    loop-erase (suc f) s t p q e =
        erase-resume (loop f step) s t (step s) (step t) (λ u v m n d. loop-erase f u v m n d)
          (falls s p) (falls t q) (respects s t p q e)

    retry_more :
        (f : ℕ) (r : S × Round A) (x : S × Round A)
        → ((t : S) (a : A) → x ≡ (t, ret a) → kind a ≡ waits → P t × (measure t < f))
        → Agrees kind norm extend (loop f step) r x
        → Agrees kind norm extend (loop (suc f) step) r x
    retry_more f r (t, again) low h = h
    retry_more f r (t, ret a) low h = go (kind a) (low t a refl) h
      where
        go :
            (k : Kind)
            → (k ≡ waits → P t × (measure t < f))
            → AgreesAt kind norm extend k (loop f step) r t a
            → AgreesAt kind norm extend k (loop (suc f) step) r t a
        go waits v h =
            let (q, m) = v refl in
            let m' : measure (extend t) < f = omega (arith, extend-measure t) in
            h ∙ ap (erase norm) (loop_fuel f (suc f) (extend t) (extend-P t q) m' (omega arith))
        go settles v h = h
        go fails v h = h
        go unclaimed v h = h

    agrees_first :
        (f : ℕ) (s t : S) (a : A) (k : Kind)
        → P s
        → (k ≡ waits → P t × (measure t ≤ measure s))
        → AgreesAt kind norm extend k step (step (extend s)) t a
        → AgreesAt kind norm extend k (loop (suc f) step) (loop (suc f) step (extend s)) t a
    unfolding loop
    agrees_first f s t a waits p w h =
        let q = extend-P t (w refl).0 in
        erase-resume (loop f step) (extend s) (extend t) (step (extend s)) (step (extend t))
          (λ u v m n d. loop-erase f u v m n d) (falls (extend s) (extend-P s p))
          (falls (extend t) q) h
    agrees_first f s t a settles p w h = ap (λ x. resume x (loop f step)) h
    agrees_first f s t a fails p w h = resume_value (step (extend s)) (loop f step) h
    agrees_first f s t a unclaimed p w h = tt

    -- If each step on the extended state follows the step, so does the loop.
    pub loop-Agrees :
        (f : ℕ) (s : S)
        → P s
        → measure s < f
        → Agrees kind norm extend (loop f step) (loop f step (extend s)) (loop f step s)
    unfolding loop
    loop-Agrees zero s p m = absurd (omega arith)
    loop-Agrees (suc f) s p m = go (step s) (falls s p) (agrees s p) (λ t q n. loop-Agrees f t q n)
      where
        go :
            (x : S × Round A)
            → Falls kind P measure s x
            → Agrees kind norm extend step (step (extend s)) x
            → ((t : S)
                → P t
                → measure t < f
                → Agrees kind norm extend (loop f step) (loop f step (extend t)) (loop f step t))
            → Agrees kind norm extend
                (loop (suc f) step)
                (loop (suc f) step (extend s))
                (resume x (loop f step))
        go (t, again) w h ih = rw (ap (λ x. resume x (loop f step)) h) (
            retry_more f _ (loop f step t)
              (λ u a e k. let r = loop-Falls f t u a w.0 e k in (r.0, omega arith))
              (ih t w.0 (omega arith)))
        go (t, ret a) w h ih = agrees_first f s t a (kind a) p w h
