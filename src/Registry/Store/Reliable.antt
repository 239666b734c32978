-- ===== src/Registry/Store/Reliable.antt =====
-- Worlds in which the calls of the operating system succeed.
use proxmox_license_proxy.Prelude.{List, [], ◌∷◌, All, some, ◌≡◌, refl, arith}
use proxmox_license_proxy.Result.{Result, ok}
use proxmox_license_proxy.Subscription.Model.{Registry}
use proxmox_license_proxy.Registry.Store.{
  Codec, Calls, World, first_calls, later_calls, parse_file, mutate, reading,
}
use proxmox_license_proxy.Registry.Store.Commit.{
  view, Serves, RoundTrips, mutate-Serves, mutate-calls,
}
use proxmox_license_proxy.Registry.Store.Reading.{reading_serves, reading-disk, reading-calls}

module _ (codec : Codec) where
  open codec use {Content}

  -- No call of the operating system fails that can stop an operation.
  abbrev pub Reliable : World Content → Type 0
  Reliable w = All (Serves codec) w.calls

  pub Reliable-first : (w : World Content) → Reliable w → Serves codec (first_calls w.calls)
  Reliable-first w h = first w.calls h
    where
      first : (cs : List (Calls Content)) → All (Serves codec) cs → Serves codec (first_calls cs)
      first [] h = record {
        mkdir_ok = refl;
        lock_ok = refl;
        read_ok = refl;
        tmp_ok = refl;
        chmod_ok = refl;
        rename_ok = refl;
      }
      first (c ∷ cs) (h, _) = h

  pub All-later :
      (cs : List (Calls Content)) → All (Serves codec) cs → All (Serves codec) (later_calls cs)
  All-later [] h = tt
  All-later (c ∷ cs) (_, h) = h

  -- Every registry can be encoded, as encoding/json does for structs of strings and lists.
  abbrev pub Encodes : Type 0
  Encodes = (reg : Registry) → (content : Content) × (codec.marshal reg ≡ some content)

  -- The registry is found, and will be written.
  pub record Ready (w : World Content) (reg : Registry) : Type 0 where
    pub reliable : Reliable w
    pub found : view codec w ≡ ok reg

  pub mutate-Ready :
      {A : Type 0} (fn : Registry → Result (A × Registry)) (w : World Content) (reg reg' : Registry)
      (a : A)
      → RoundTrips codec
      → Encodes
      → Ready w reg
      → fn reg ≡ ok (a, reg')
      → ((mutate codec fn w).0 ≡ ok a) × Ready (mutate codec fn w).1 reg'
  mutate-Ready fn w reg reg' a rt en h e =
      let (content, encoded) = en reg' in
      let (done, stored) =
        mutate-Serves codec fn w reg reg' a content (Reliable-first w h.reliable) h.found e
          encoded in
      (
        done,
        record {
          reliable = rw (mutate-calls codec fn w) (All-later w.calls h.reliable);
          found = unfold parse_file in ground (arith, stored, rt reg' content encoded);
        },
      )

  pub reading-Ready :
      {A : Type 0} (get : Registry → A) (w : World Content) (reg : Registry)
      → Ready w reg
      → ((reading codec get w).0 ≡ ok (get reg)) × Ready (reading codec get w).1 reg
  reading-Ready get w reg h = (
    reading_serves codec get w reg (Reliable-first w h.reliable).read_ok h.found,
    record {
      reliable = rw (reading-calls codec get w) (All-later w.calls h.reliable);
      found = rw (reading-disk codec get w) h.found;
    },
  )
