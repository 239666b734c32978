-- ===== src/Discovery/Naming.antt =====
-- By which instances the servers are found.
use proxmox_license_proxy.Prelude.{
  Text, equal, equal_iff, any, Bool, ◌||◌, ◌∙◌, refl, false, List, [], ◌∷◌, ◌≡◌, arith,
}
use proxmox_license_proxy.Registry.Keyed.{has, Distinct}
use proxmox_license_proxy.Discovery.{
  Addresses, ServiceEntry, Found, announce, announce_all, insert, sort,
}

module _ (net : Addresses) where
  abbrev pub named : Text → List (Found net) → Bool
  named k fs = has (λ (f : Found net). f.instance_name) k fs

  abbrev pub OneEach : List (Found net) → Type 0
  OneEach fs = Distinct (λ (f : Found net). f.instance_name) fs

  named-announce :
      (e : ServiceEntry net) (k : Text) (fs : List (Found net))
      → named k (announce net e fs) ≡ (equal e.instance_name k || named k fs)
  unfolding announce has
  named-announce e k [] = refl
  named-announce e k (f ∷ fs) = ground (
    arith,
    named-announce e k fs,
    equal_iff f.instance_name k,
    equal_iff e.instance_name k,
    equal_iff f.instance_name e.instance_name,
  )

  announce-OneEach :
      (e : ServiceEntry net) (fs : List (Found net)) → OneEach fs → OneEach (announce net e fs)
  unfolding announce has
  announce-OneEach e [] d = (refl, tt)
  announce-OneEach e (f ∷ fs) (h, d) = ground (
    arith,
    announce-OneEach e fs d,
    named-announce e f.instance_name fs,
    equal_iff e.instance_name f.instance_name,
    equal_iff f.instance_name e.instance_name,
  )

  pub announce_all-OneEach :
      (es : List (ServiceEntry net)) (fs : List (Found net))
      → OneEach fs
      → OneEach (announce_all net es fs)
  unfolding announce_all
  announce_all-OneEach [] fs d = d
  announce_all-OneEach (e ∷ es) fs d =
      announce_all-OneEach es (announce net e fs) (announce-OneEach e fs d)

  named-insert :
      (f : Found net) (k : Text) (fs : List (Found net))
      → named k (insert net f fs) ≡ (equal f.instance_name k || named k fs)
  unfolding insert has
  named-insert f k [] = refl
  named-insert f k (g ∷ gs) = ground (arith, named-insert f k gs)

  insert-OneEach :
      (f : Found net) (fs : List (Found net))
      → named f.instance_name fs ≡ false
      → OneEach fs
      → OneEach (insert net f fs)
  unfolding insert has
  insert-OneEach f [] h d = (refl, tt)
  insert-OneEach f (g ∷ gs) h (k, d) = ground (
    arith,
    insert-OneEach f gs,
    named-insert f g.instance_name gs,
    equal_iff f.instance_name g.instance_name,
    equal_iff g.instance_name f.instance_name,
  )

  pub named-sort : (k : Text) (fs : List (Found net)) → named k (sort net fs) ≡ named k fs
  unfolding sort has
  named-sort k [] = refl
  named-sort k (f ∷ fs) = ground (arith, named-insert f k (sort net fs), named-sort k fs)

  pub sort-OneEach : (fs : List (Found net)) → OneEach fs → OneEach (sort net fs)
  unfolding sort
  sort-OneEach [] d = tt
  sort-OneEach (f ∷ fs) (h, d) =
      insert-OneEach f (sort net fs) (named-sort f.instance_name fs ∙ h) (sort-OneEach fs d)

  -- Some entry is one of the instance.
  abbrev pub is_reported : Text → List (ServiceEntry net) → Bool
  is_reported k entries = any (λ (e : ServiceEntry net). equal e.instance_name k) entries

  pub named-announce_all :
      (k : Text) (es : List (ServiceEntry net)) (fs : List (Found net))
      → named k (announce_all net es fs) ≡ (is_reported k es || named k fs)
  unfolding announce_all
  named-announce_all k [] fs = refl
  named-announce_all k (e ∷ es) fs =
      ground (arith, named-announce_all k es (announce net e fs), named-announce e k fs)
