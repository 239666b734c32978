-- ===== src/Exec.antt =====
-- Code that changes a state and may return an error: the state comes back beside the error too.
use proxmox_license_proxy.Prelude.{Bool, true, false, ◌≡◌, refl, ◌∙◌, arith, if◌then◌else◌}
use proxmox_license_proxy.Result.{Error, Result, ok, err}

abbrev pub Exec : Type 0 → Type 0 → Type 0
Exec S A = S → Result A × S

module _ {S A : Type 0} where
  unfoldable pub pure : A → Exec S A
  pure a s = (ok a, s)

  unfoldable pub fail : Error → Exec S A
  fail e s = (err e, s)

  unfoldable pub lift : Result A → Exec S A
  lift r s = (r, s)

module _ {S A B : Type 0} where
  abbrev pub continue : Result A → S → (A → Exec S B) → Result B × S
  continue (ok a) s f = f a s
  continue (err e) s f = (err e, s)

  infixl 5 ◌>>=◌ ◌>>◌
  unfoldable pub ◌>>=◌ : Exec S A → (A → Exec S B) → Exec S B
  unfolding pure fail lift
  ◌>>=◌ m f s = let (r, s') = m s in continue r s' f

  abbrev pub ◌>>◌ : Exec S A → Exec S B → Exec S B
  m >> k = m >>= λ _. k

  -- What a sequence that succeeds went through.
  pub record Steps (m : Exec S A) (f : A → Exec S B) (s t : S) (b : B) : Type 0 where
    pub value : A
    pub middle : S
    pub first : m s ≡ (ok value, middle)
    pub second : f value middle ≡ (ok b, t)

  Steps-of :
      (m : Exec S A) (f : A → Exec S B) (s t : S) (b : B) (r : Result A) (s' : S)
      → m s ≡ (r, s')
      → continue r s' f ≡ (ok b, t)
      → Steps m f s t b
  Steps-of m f s t b (ok a) s' e h = record { value = a; middle = s'; first = e; second = h }
  Steps-of m f s t b (err x) s' e h = cc

  pub >>=-ok :
      (m : Exec S A) (f : A → Exec S B) (s : S) {t : S} {b : B}
      → (m >>= f) s ≡ (ok b, t)
      → Steps m f s t b
  unfolding ◌>>=◌
  >>=-ok m f s {t} {b} h = Steps-of m f s t b (m s).0 (m s).1 refl h

pub lift-ok :
    {S A : Type 0} (r : Result A) (s : S) {t : S} {a : A}
    → lift r s ≡ (ok a, t)
    → (r ≡ ok a) × (t ≡ s)
unfolding lift
lift-ok r s h = ground arith

pub lift_eq : {S A : Type 0} (r : Result A) (s : S) {r' : Result A} → r ≡ r' → lift r s ≡ (r', s)
unfolding lift
lift_eq r s e = λ i. (e i, s)

-- An early return that was not taken.
pub guard-ok :
    {S A : Type 0} (b : Bool) (e : Error) (m : Exec S A) (s : S) {t : S} {a : A}
    → (if b then fail e else m) s ≡ (ok a, t)
    → (b ≡ false) × (m s ≡ (ok a, t))
unfolding fail
guard-ok true e m s h = absurd (ground arith)
guard-ok false e m s h = (refl, h)

pub >>=-eq :
    {S A B : Type 0} (m : Exec S A) (f : A → Exec S B) {s s' : S} {a : A}
    → m s ≡ (ok a, s')
    → (m >>= f) s ≡ f a s'
unfolding ◌>>=◌
>>=-eq m f e = rw e refl

pub outcome-eq :
    {S A : Type 0} (m : Exec S A) (s : S) {r : Result A} → (m s).0 ≡ r → m s ≡ (r, (m s).1)
outcome-eq m s e = λ i. (e i, (m s).1)

pub >>=-err :
    {S A B : Type 0} (m : Exec S A) (f : A → Exec S B) {s s' : S} {e : Error}
    → m s ≡ (err e, s')
    → (m >>= f) s ≡ (err e, s')
unfolding ◌>>=◌
>>=-err m f e = rw e refl

continue-keeps :
    {S D A B : Type 0} (f : S → D) (k : A → Exec S B) (s : S)
    → ((a : A) (t : S) → f (k a t).1 ≡ f t)
    → (r : Result A) (t : S) → f t ≡ f s
    → f (continue r t k).1 ≡ f s
continue-keeps f k s rest (ok a) t e = rest a t ∙ e
continue-keeps f k s rest (err x) t e = e

-- What both parts of a sequence keep of the state, the sequence keeps.
pub >>=-keeps :
    {S D A B : Type 0} (f : S → D) (m : Exec S A) (k : A → Exec S B) (s : S)
    → f (m s).1 ≡ f s
    → ((a : A) (t : S) → f (k a t).1 ≡ f t)
    → f ((m >>= k) s).1 ≡ f s
unfolding ◌>>=◌
>>=-keeps f m k s first rest = continue-keeps f k s rest (m s).0 (m s).1 first

-- What holds behind a sequence, whether its first part succeeds or not.
pub >>=-leads :
    {S A B : Type 0} (Q : S → Type 0) (m : Exec S A) (f : A → Exec S B) (s : S)
    → ((e : Error) (t : S) → m s ≡ (err e, t) → Q t)
    → ((a : A) (t : S) → m s ≡ (ok a, t) → Q (f a t).1)
    → Q ((m >>= f) s).1
unfolding ◌>>=◌
>>=-leads {S} {A} Q m f s failed done = by_result (m s).0 (m s).1 refl
  where
    by_result : (r : Result A) (t : S) → m s ≡ (r, t) → Q (continue r t f).1
    by_result (ok a) t h = done a t h
    by_result (err e) t h = failed e t h
