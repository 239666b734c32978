-- ===== src/Registry/Migration/Copying.antt =====
-- What the loop of a migration copies.
use proxmox_license_proxy.Prelude.{
  Text, equal, equal_iff, equal_refl, Bool, Bool-cases, true, false, any, All, Option, Option-cases,
  none, some, List, [], ◌∷◌, ◌≡◌, refl, sym, subst, ap, ◌∙◌, inl, inr, arith,
}
use proxmox_license_proxy.Result.{Result, ok, err}
use proxmox_license_proxy.Registry.Store.{written, write_file, write_failed}
use proxmox_license_proxy.Registry.Migration.{
  Files, Paths, PathCalls, stat_ok, write_path, read_path, named, copy_one, copy_each,
}

-- The path is the destination of a pair, or the source of one.

abbrev pub is_destination : Text → List (Text × Text) → Bool
is_destination p ps = any (λ q. equal p q.1) ps

abbrev pub is_source : Text → List (Text × Text) → Bool
is_source p ps = any (λ q. equal p q.0) ps

module _ (paths : Paths) where
  named-files : (dst : Text) (x : Result (List Text) × Files) → (named paths dst x).1 ≡ x.1
  named-files dst (err e, fs) = refl
  named-files dst (ok names, fs) = refl

  copy_one-outside :
      (c : PathCalls) (dst p : Text) (rest : Files → Result (List Text) × Files) (r : Result Text)
      (fs : Files)
      → equal p dst ≡ false
      → ((fs' : Files) → (rest fs').1 p ≡ fs' p)
      → (copy_one paths c dst rest r fs).1 p ≡ fs p
  copy_one-outside c dst p rest (err e) fs other h = refl
  copy_one-outside c dst p rest (ok content) fs other h =
      let fs' = write_path dst (write_file (c.write dst) content) fs in
      let same : fs' p ≡ fs p = rw other refl in
      elim (Bool-cases (write_failed (c.write dst))) [
        | inl failed ↦ rw failed same
        | inr done ↦ rw done (ap (λ (g : Files). g p) (named-files dst (rest fs')) ∙ h fs' ∙ same)
      ]

  pub copy_each-outside :
      (c : PathCalls) (ps : List (Text × Text)) (fs : Files) (p : Text)
      → is_destination p ps ≡ false
      → (copy_each paths c ps fs).1 p ≡ fs p
  unfolding copy_each
  copy_each-outside c [] fs p h = refl
  copy_each-outside c ((src, dst) ∷ ps) fs p h = elim (Bool-cases (stat_ok c fs src)) [
    | inr absent ↦ rw absent (copy_each-outside c ps fs p (ground arith))
    | inl there ↦ rw there (
        copy_one-outside c dst p (λ fs'. copy_each paths c ps fs') (read_path c fs src) fs
          (ground arith) (λ fs'. copy_each-outside c ps fs' p (ground arith)))
  ]

-- No call of the operating system fails.
pub record NoneFails (c : PathCalls) : Type 0 where
  pub mkdir_ok : c.mkdir ≡ true
  pub stat_ok : (p : Text) → c.stat p ≡ true
  pub read_ok : (p : Text) → c.read p ≡ true
  pub write_ok : (p : Text) → c.write p ≡ written

-- No destination is a later source or a later destination.
abbrev pub Apart : List (Text × Text) → Type 0
Apart [] = Unit
Apart ((src, dst) ∷ ps) = (is_source dst ps ≡ false) × (is_destination dst ps ≡ false) × Apart ps

abbrev pub or_kept : Option Text → Option Text → Option Text
or_kept none old = old
or_kept (some content) old = some content

-- Each destination has what its source had, and is as it was where there was no source.
abbrev pub Copies : Files → Files → List (Text × Text) → Type 0
Copies fs fs' ps = All (λ q. fs' q.1 ≡ or_kept (fs q.0) (fs q.1)) ps

Copies-write :
    (fs fs' : Files) (d : Text) (x : Option Text) (ps : List (Text × Text))
    → is_source d ps ≡ false
    → is_destination d ps ≡ false
    → Copies (write_path d x fs) fs' ps
    → Copies fs fs' ps
Copies-write fs fs' d x [] s t h = tt
Copies-write fs fs' d x ((src, dst) ∷ ps) s t (h, hs) =
    let from : write_path d x fs src ≡ fs src = ground (arith, equal_iff src d, equal_iff d src) in
    let to : write_path d x fs dst ≡ fs dst = ground (arith, equal_iff dst d, equal_iff d dst) in
    (
      h ∙ ap (λ o. or_kept o (write_path d x fs dst)) from ∙ ap (λ o. or_kept (fs src) o) to,
      Copies-write fs fs' d x ps (ground arith) (ground arith) hs,
    )

abbrev pub Succeeds : Result (List Text) → Type 0
Succeeds r = (names : List Text) × (r ≡ ok names)

module _ (paths : Paths) (c : PathCalls) (fine : NoneFails c) where
  named-Succeeds :
      (dst : Text) (x : Result (List Text) × Files) → Succeeds x.0 → Succeeds (named paths dst x).0
  named-Succeeds dst (err e, fs) (names, h) = absurd (ground arith)
  named-Succeeds dst (ok names, fs) h = (paths.base dst ∷ names, refl)

  module _ (src dst : Text) (ps : List (Text × Text)) (fs : Files) where
    copy_each_skips :
        fs src ≡ none → copy_each paths c ((src, dst) ∷ ps) fs ≡ copy_each paths c ps fs
    unfolding copy_each stat_ok
    copy_each_skips absent = ground (arith, absent)

    stat_found : (content : Text) → fs src ≡ some content → stat_ok c fs src ≡ true
    unfolding stat_ok
    stat_found content found = ground (arith, found, fine.stat_ok src)

    read_found : (content : Text) → fs src ≡ some content → read_path c fs src ≡ ok content
    unfolding read_path
    read_found content found = ground (arith, found, fine.read_ok src)

    copy_each_copies :
        (content : Text)
        → fs src ≡ some content
        → copy_each paths c ((src, dst) ∷ ps) fs
          ≡ named paths dst (copy_each paths c ps (write_path dst (some content) fs))
    unfolding copy_each
    copy_each_copies content found =
        rw (stat_found content found, read_found content found, fine.write_ok dst) refl

  pub copy_each-Copies :
      (ps : List (Text × Text)) (fs : Files)
      → Apart ps
      → Succeeds (copy_each paths c ps fs).0 × Copies fs (copy_each paths c ps fs).1 ps
  unfolding copy_each
  copy_each-Copies [] fs h = (([], refl), tt)
  copy_each-Copies ((src, dst) ∷ ps) fs (s, d, h) = elim (Option-cases (fs src)) [
    | inl absent ↦
        let (done, copied) = copy_each-Copies ps fs h in
        subst (λ (x : Result (List Text) × Files). Succeeds x.0 × Copies fs x.1 ((src, dst) ∷ ps))
          (sym (copy_each_skips src dst ps fs absent))
          (
            done,
            (
              copy_each-outside paths c ps fs dst d ∙ sym (ap (λ o. or_kept o (fs dst)) absent),
              copied,
            ),
          )
    | inr (content, found) ↦
        let fs' = write_path dst (some content) fs in
        let (done, copied) = copy_each-Copies ps fs' h in
        let here : fs' dst ≡ or_kept (fs src) (fs dst) = ground (arith, equal_refl dst, found) in
        let kept = Copies-write fs (copy_each paths c ps fs').1 dst (some content) ps s d copied in
        let after = named-files paths dst (copy_each paths c ps fs') in
        subst (λ (x : Result (List Text) × Files). Succeeds x.0 × Copies fs x.1 ((src, dst) ∷ ps))
          (sym (copy_each_copies src dst ps fs content found))
          (
            named-Succeeds dst (copy_each paths c ps fs') done,
            subst (λ g. Copies fs g ((src, dst) ∷ ps)) (sym after)
                (copy_each-outside paths c ps fs' dst d ∙ here, kept),
          )
  ]
