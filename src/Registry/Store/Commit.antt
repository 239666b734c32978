-- ===== src/Registry/Store/Commit.antt =====
-- A mutation of the store happens whole or not at all.
use proxmox_license_proxy.Prelude.{true, none, some, Option-cases, ◌≡◌, refl, inl, inr, arith}
use proxmox_license_proxy.Result.{Error, Result, ok, err, Result-cases}
use proxmox_license_proxy.Subscription.Model.{Registry}
use proxmox_license_proxy.Registry.Store.{
  Codec, written, Calls, Disk, World, first_calls, later_calls, parse_file, load_with, save, mutate,
}

module _ (codec : Codec) where
  open codec use {Content, marshal, unmarshal}

  -- The registry that a reader finds.
  abbrev pub view : World Content → Result Registry
  view w = parse_file codec w.disk.main

  pub save-err :
      (c : Calls Content) (reg : Registry) (d : Disk Content) {e : Error}
      → (save codec c reg d).0 ≡ err e
      → (save codec c reg d).1.main ≡ d.main
  unfolding save
  save-err c reg d h = ground arith

  pub mutate-err :
      {A : Type 0} (fn : Registry → Result (A × Registry)) (w : World Content) {e : Error}
      → (mutate codec fn w).0 ≡ err e
      → (mutate codec fn w).1.disk.main ≡ w.disk.main
  unfolding mutate
  mutate-err fn w h = ground arith

  -- The registry was read, changed by `fn`, and the whole of its encoding is the file.
  pub record Committed {A : Type 0} (fn : Registry → Result (A × Registry)) (w w' : World Content)
      (a : A) : Type 0 where
    pub before : Registry
    pub after : Registry
    pub content : Content
    pub read : view w ≡ ok before
    pub applied : fn before ≡ ok (a, after)
    pub encoded : marshal after ≡ some content
    pub stored : w'.disk.main ≡ some content
    pub cleaned : w'.disk.tmp ≡ none

  pub mutate-ok :
      {A : Type 0} (fn : Registry → Result (A × Registry)) (w : World Content) {a : A}
      → (mutate codec fn w).0 ≡ ok a
      → Committed fn w (mutate codec fn w).1 a
  unfolding mutate
  mutate-ok fn w {a} h = elim (Result-cases (load_with codec (first_calls w.calls) w.disk)) [
    | inl (e, failed) ↦ absurd (ground arith)
    | inr (reg, loaded) ↦ elim (Result-cases (fn reg)) [
      | inl (e, failed) ↦ absurd (ground arith)
      | inr ((b, reg'), applied) ↦ elim (Option-cases (marshal reg')) [
        | inl failed ↦ absurd (ground arith)
        | inr (content, encoded) ↦ record {
          before = reg;
          after = reg';
          content = content;
          read = ground arith;
          applied = ground arith;
          encoded = encoded;
          stored = ground arith;
          cleaned = ground arith;
        }
      ]
    ]
  ]

  -- An outcome and the world it is left in: an error with the registry file as it was, or success
  -- with the file replaced.
  abbrev pub Atomic :
      {A : Type 0}
      → (Registry → Result (A × Registry))
      → World Content
      → Result A
      → World Content
      → Type 0
  Atomic fn w (err e) w' = w'.disk.main ≡ w.disk.main
  Atomic fn w (ok a) w' = Committed fn w w' a

  Atomic-outcome :
      {A : Type 0} (fn : Registry → Result (A × Registry)) (w w' : World Content) (r : Result A)
      → ((e : Error) → r ≡ err e → w'.disk.main ≡ w.disk.main)
      → ((a : A) → r ≡ ok a → Committed fn w w' a)
      → Atomic fn w r w'
  Atomic-outcome fn w w' (ok a) f g = g a refl
  Atomic-outcome fn w w' (err e) f g = f e refl

  -- Whichever calls of the operating system fail, and at whatever point, a mutation leaves the
  -- registry file as it was and returns an error, or replaces it by the encoding of the registry
  -- that it read, as changed by the closure, and returns the closure's value.
  pub mutate-Atomic :
      {A : Type 0} (fn : Registry → Result (A × Registry)) (w : World Content)
      → Atomic fn w (mutate codec fn w).0 (mutate codec fn w).1
  mutate-Atomic fn w =
      Atomic-outcome fn w (mutate codec fn w).1 (mutate codec fn w).0 (λ e. mutate-err fn w)
        (λ a. mutate-ok fn w)

  -- Every call that can stop a mutation succeeds; the backup may fail.
  pub record Serves (c : Calls Content) : Type 0 where
    pub mkdir_ok : c.mkdir ≡ true
    pub lock_ok : c.lock ≡ true
    pub read_ok : c.read ≡ true
    pub tmp_ok : c.tmp_write ≡ written
    pub chmod_ok : c.chmod ≡ true
    pub rename_ok : c.rename ≡ true

  -- The backup cannot stop a write: a mutation whose other calls succeed, over a readable file, by a
  -- closure that returns no error, to a registry that can be encoded, succeeds.
  pub mutate-Serves :
      {A : Type 0} (fn : Registry → Result (A × Registry)) (w : World Content) (reg reg' : Registry)
      (a : A) (content : Content)
      → Serves (first_calls w.calls)
      → view w ≡ ok reg
      → fn reg ≡ ok (a, reg')
      → marshal reg' ≡ some content
      → ((mutate codec fn w).0 ≡ ok a) × ((mutate codec fn w).1.disk.main ≡ some content)
  unfolding mutate
  mutate-Serves fn w reg reg' a content s v f m = ground arith

  -- Where the backup can be made, a write that succeeds leaves the file that it replaces in it.
  pub mutate_backup :
      {A : Type 0} (fn : Registry → Result (A × Registry)) (w : World Content) (prev : Content)
      {a : A}
      → w.disk.main ≡ some prev
      → (first_calls w.calls).backup_read ≡ true
      → (first_calls w.calls).backup_write ≡ written
      → (mutate codec fn w).0 ≡ ok a
      → (mutate codec fn w).1.disk.bak ≡ some prev
  unfolding mutate
  mutate_backup fn w prev m r b h = ground arith

  pub mutate-calls :
      {A : Type 0} (fn : Registry → Result (A × Registry)) (w : World Content)
      → (mutate codec fn w).1.calls ≡ later_calls w.calls
  unfolding mutate
  mutate-calls fn w = ground arith

  -- The codec reads back what it wrote. encoding/json does so for texts that are valid UTF-8.
  abbrev pub RoundTrips : Type 0
  RoundTrips =
      (reg : Registry) (content : Content)
      → marshal reg ≡ some content
      → unmarshal content ≡ some reg

  pub view-Committed :
      {A : Type 0} {fn : Registry → Result (A × Registry)} {w w' : World Content} {a : A}
      → RoundTrips
      → (c : Committed fn w w' a) → view w' ≡ ok c.after
  unfolding parse_file
  view-Committed rt c = ground (arith, c.stored, rt c.after c.content c.encoded)
