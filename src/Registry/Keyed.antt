-- ===== src/Registry/Keyed.antt =====
-- The loops of internal/registry/store.go over the three lists of the registry, each of which is
-- keyed by a text of its elements.
use proxmox_license_proxy.Prelude.{
  Text, equal, equal_iff, Bool, false, ◌||◌, Option, none, some, List, [], ◌∷◌, any, ◌≡◌, refl,
  arith, if◌then◌else◌,
}

abbrev pub map_found {ℓ} : {A : Type ℓ} → (A → A) → Option A → Option A
map_found f none = none
map_found f (some x) = some (f x)

module _ {ℓ} {A : Type ℓ} (id : A → Text) where
  -- The first element with this key.
  unfoldable pub find : Text → List A → Option A
  find k [] = none
  find k (x ∷ xs) = let later = find k xs in if equal (id x) k then some x else later

  unfoldable pub has : Text → List A → Bool
  has k xs = any (λ x. equal (id x) k) xs

  -- Replaces the first element with the key of `a`, or appends `a`.
  unfoldable pub put : A → List A → List A
  put a [] = a ∷ []
  put a (x ∷ xs) = let later = x ∷ put a xs in if equal (id x) (id a) then a ∷ xs else later

  -- Drops every element with this key.
  unfoldable pub remove : Text → List A → List A
  remove k [] = []
  remove k (x ∷ xs) = let rest = remove k xs in if equal (id x) k then rest else x ∷ rest

  -- Changes every element with this key.
  unfoldable pub update : (A → A) → Text → List A → List A
  update f k [] = []
  update f k (x ∷ xs) = (if equal (id x) k then f x else x) ∷ update f k xs

  -- No two elements have one key.
  abbrev pub Distinct : List A → Type 0
  Distinct [] = Unit
  Distinct (x ∷ xs) = (has (id x) xs ≡ false) × Distinct xs

  pub find-put :
      (a : A) (k : Text) (xs : List A)
      → find k (put a xs) ≡ (if equal (id a) k then some a else find k xs)
  unfolding find put
  find-put a k [] = ground arith
  find-put a k (x ∷ xs) =
      ground
        (arith, find-put a k xs, equal_iff (id x) k, equal_iff (id a) k, equal_iff (id x) (id a))

  pub find-remove :
      (j k : Text) (xs : List A) → find k (remove j xs) ≡ (if equal j k then none else find k xs)
  unfolding find remove
  find-remove j k [] = ground arith
  find-remove j k (x ∷ xs) =
      ground (arith, find-remove j k xs, equal_iff (id x) k, equal_iff (id x) j, equal_iff j k)

  pub find-update :
      (f : A → A) (keeps : (x : A) → id (f x) ≡ id x) (j k : Text) (xs : List A)
      → find k (update f j xs) ≡ (if equal j k then map_found f (find k xs) else find k xs)
  unfolding find update
  find-update f keeps j k [] = ground arith
  find-update f keeps j k (x ∷ xs) = ground (
    arith,
    find-update f keeps j k xs,
    keeps x,
    equal_iff (id x) k,
    equal_iff (id x) j,
    equal_iff j k,
  )

  pub has-find : (k : Text) (xs : List A) → has k xs ≡ false → find k xs ≡ none
  unfolding has find
  has-find k [] h = refl
  has-find k (x ∷ xs) h = ground (arith, has-find k xs)

  has-put : (a : A) (k : Text) (xs : List A) → has k (put a xs) ≡ (equal (id a) k || has k xs)
  unfolding has put
  has-put a k [] = refl
  has-put a k (x ∷ xs) =
      ground
        (arith, has-put a k xs, equal_iff (id x) k, equal_iff (id a) k, equal_iff (id x) (id a))

  has-remove : (j k : Text) (xs : List A) → has k xs ≡ false → has k (remove j xs) ≡ false
  unfolding has remove
  has-remove j k [] h = refl
  has-remove j k (x ∷ xs) h = ground (arith, has-remove j k xs)

  pub put-Distinct : (a : A) (xs : List A) → Distinct xs → Distinct (put a xs)
  unfolding put has
  put-Distinct a [] d = (refl, tt)
  put-Distinct a (x ∷ xs) (h, d) = ground (
    arith,
    put-Distinct a xs,
    has-put a (id x) xs,
    equal_iff (id x) (id a),
    equal_iff (id a) (id x),
  )

  pub remove-Distinct : (k : Text) (xs : List A) → Distinct xs → Distinct (remove k xs)
  unfolding remove
  remove-Distinct k [] d = tt
  remove-Distinct k (x ∷ xs) (h, d) = ground (arith, remove-Distinct k xs, has-remove k (id x) xs)

  pub has-update :
      (f : A → A) (keeps : (x : A) → id (f x) ≡ id x) (j k : Text) (xs : List A)
      → has k (update f j xs) ≡ has k xs
  unfolding has update
  has-update f keeps j k [] = refl
  has-update f keeps j k (x ∷ xs) = ground (arith, has-update f keeps j k xs, keeps x)

  pub update-Distinct :
      (f : A → A) (keeps : (x : A) → id (f x) ≡ id x) (k : Text) (xs : List A)
      → Distinct xs
      → Distinct (update f k xs)
  unfolding update
  update-Distinct f keeps k [] d = tt
  update-Distinct f keeps k (x ∷ xs) (h, d) = ground (
    arith,
    update-Distinct f keeps k xs,
    keeps x,
    has-update f keeps k (id x) xs,
    has-update f keeps k (id (f x)) xs,
  )

  abbrev pub HasId : Text → Option A → Type 0
  HasId k none = Unit
  HasId k (some x) = id x ≡ k

  -- What `find` finds has the key.
  pub find-HasId : (k : Text) (xs : List A) → HasId k (find k xs)
  unfolding find
  find-HasId k [] = tt
  find-HasId k (x ∷ xs) = ground (arith, find-HasId k xs, equal_iff (id x) k)
