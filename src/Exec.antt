-- ===== src/Exec.antt =====
-- Calls that act on a state (the attached core, or a cache in front of it) and may fail. What was
-- done before an error stays done, so the state comes back beside every result.
use probe_run.Base.{◌≡◌, ◌∙◌, refl, ap, subst}
use probe_run.Result.{Error, Panic, Result, ok, err, panic}

abbrev pub Exec {ℓ} : Type ℓ → Type ℓ → Type ℓ
Exec S A = S → Result A × S

module _ {ℓ} {S A : Type ℓ} where
  abbrev pub pure : A → Exec S A
  pure a s = (ok a, s)

  abbrev pub fail : Error → Exec S A
  fail e s = (err e, s)

  abbrev pub abort : Panic → Exec S A
  abort p s = (panic p, s)

  -- a computation that does not touch the state
  abbrev pub lift : Result A → Exec S A
  lift r s = (r, s)

module _ {ℓ} {S A B : Type ℓ} where
  abbrev pub continue : Result A → (A → Exec S B) → Exec S B
  continue (ok a) f s = f a s
  continue (err e) f s = (err e, s)
  continue (panic p) f s = (panic p, s)

  infixl 5 ◌>>=◌
  abbrev pub ◌>>=◌ : Exec S A → (A → Exec S B) → Exec S B
  ◌>>=◌ m f s = let (r, s') = m s in continue r f s'

  infixl 5 ◌>>◌
  abbrev pub ◌>>◌ : Exec S A → Exec S B → Exec S B
  m >> n = m >>= λ _. n

  -- Inversion of a successful bind.
  pub >>=-eq-ok :
      (m : Exec S A) (f : A → Exec S B) (s s' : S) (b : B)
      → (m >>= f) s ≡ (ok b, s')
      → (a : A) × (t : S) × (m s ≡ (ok a, t)) × (f a t ≡ (ok b, s'))
  >>=-eq-ok m f s s' b h = invert (m s) h
    where
      invert :
          (r : Result A × S)
          → continue r.0 f r.1 ≡ (ok b, s')
          → (a : A) × (t : S) × (r ≡ (ok a, t)) × (f a t ≡ (ok b, s'))
      invert (ok a, t) e = (a, t, refl, e)
      invert (err x, t) e = cc
      invert (panic x, t) e = cc

  pub lift-eq-ok :
      (r : Result A) (f : A → Exec S B) (s s' : S) (b : B)
      → (lift r >>= f) s ≡ (ok b, s')
      → (a : A) × (r ≡ ok a) × (f a s ≡ (ok b, s'))
  lift-eq-ok (ok a) f s s' b h = (a, refl, h)
  lift-eq-ok (err e) f s s' b h = cc
  lift-eq-ok (panic p) f s s' b h = cc

-- What a call returns, if it returns, satisfies `P`.
abbrev pub Post {ℓ κ} : {S A : Type ℓ} → (A → Type κ) → Result A × S → Type κ
Post P (ok a, s) = P a
Post P (err e, s) = Unit
Post P (panic p, s) = Unit

module _ {ℓ κ} {S A B : Type ℓ} (P : B → Type κ) where
  pub continue-Post :
      (r : Result A) (f : A → Exec S B) (s : S)
      → ((a : A) → r ≡ ok a → Post P (f a s))
      → Post P (continue r f s)
  continue-Post (ok a) f s h = h a refl
  continue-Post (err e) f s h = tt
  continue-Post (panic p) f s h = tt

  pub >>=-Post :
      (m : Exec S A) (f : A → Exec S B) (s : S)
      → ((a : A) (t : S) → Post P (f a t))
      → Post P ((m >>= f) s)
  >>=-Post m f s h = let (r, t) = m s in continue-Post r f t (λ a _. h a t)

-- a postcondition, at a call that is known to return
pub Post-elim {ℓ κ} :
    {S A : Type ℓ} (P : A → Type κ) (r : Result A × S) {a : A} {s : S}
    → r ≡ (ok a, s)
    → Post P r
    → P a
Post-elim P r e h = subst (Post P) e h

-- What a call that returns leaves: its result, and the state behind it.
abbrev pub Returns {ℓ κ} : {S A : Type ℓ} → (A → S → Type κ) → Result A × S → Type κ
Returns P (ok a, s) = P a s
Returns P (err e, s) = Unit
Returns P (panic p, s) = Unit

pub continue-Returns {ℓ κ} :
    {S A B : Type ℓ} (P : B → S → Type κ) (r : Result A) (f : A → Exec S B) (s : S)
    → ((a : A) → r ≡ ok a → Returns P (f a s))
    → Returns P (continue r f s)
continue-Returns P (ok a) f s h = h a refl
continue-Returns P (err e) f s h = tt
continue-Returns P (panic p) f s h = tt

pub >>=-Returns {ℓ κ} :
    {S A B : Type ℓ} (P : B → S → Type κ) (m : Exec S A) (f : A → Exec S B) (s : S)
    → ((a : A) (t : S) → m s ≡ (ok a, t) → Returns P (f a t))
    → Returns P ((m >>= f) s)
>>=-Returns {S = S} {A = A} P m f s h = split (m s) refl
  where
    split : (r : Result A × S) → m s ≡ r → Returns P (continue r.0 f r.1)
    split r e = continue-Returns P r.0 f r.1 (λ a k. h a r.1 (e ∙ ap (λ x. (x, r.1)) k))

-- the same, through a chain of two
pub >>=->>=-Returns {ℓ κ} :
    {S A B C : Type ℓ} (P : C → S → Type κ) (m : Exec S A) (f : A → Exec S B) (g : B → Exec S C)
    (s : S)
    → ((a : A) (t : S) → m s ≡ (ok a, t) → Returns P ((f a >>= g) t))
    → Returns P (((m >>= f) >>= g) s)
>>=->>=-Returns {S = S} {A = A} P m f g s h = split (m s) refl
  where
    split :
        (r : Result A × S)
        → m s ≡ r
        → Returns P (continue (continue r.0 f r.1).0 g (continue r.0 f r.1).1)
    split (ok a, t) e = h a t e
    split (err x, t) e = tt
    split (panic p, t) e = tt

-- a postcondition with the state, at a call that is known to return
pub Returns-elim {ℓ κ} :
    {S A : Type ℓ} (P : A → S → Type κ) (r : Result A × S) {a : A} {s : S}
    → r ≡ (ok a, s)
    → Returns P r
    → P a s
Returns-elim P r e h = subst (Returns P) e h

pub Returns-intro {ℓ κ} :
    {S A : Type ℓ} (P : A → S → Type κ) (r : Result A × S)
    → ((a : A) (s : S) → r ≡ (ok a, s) → P a s)
    → Returns P r
Returns-intro P (ok a, s) h = h a s refl
Returns-intro P (err e, s) h = tt
Returns-intro P (panic p, s) h = tt
