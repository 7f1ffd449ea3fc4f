-- ===== src/Desktop/AtomicFile/Crash/Calls.antt =====
-- The calls of write_via_temp in that logic.
use veyora.Prelude.{
  ℕ, ◌≡◌, ◌⊎◌, inl, inr, refl, Bytes, codes, bytes_eq, bytes_eq_refl, Bool-cases, true, false,
  Option, none, some,
}
use veyora.Desktop.AtomicFile.{
  Directory, store, Os, FaultPoint, no_fault, create_temp, write_temp, flush, rename, Effect,
  and_then, create_file, write_all, sync_all, rename_file, same_point, inject, write_via_temp,
}
use veyora.Desktop.AtomicFile.Crash.Logic.{Triple, and_then-Triple}

-- The logic at one write: the directory before it, the names, and the contents.
module _ (d0 : Directory) (target temp contents : Bytes)
    (apart : bytes_eq target temp ≡ false) where
  abbrev pub Old : Directory → Type 0
  Old s = s target ≡ d0 target

  abbrev New : Directory → Type 0
  New s = s target ≡ some contents

  abbrev pub OldOrNew : Directory → Type 0
  OldOrNew s = (s target ≡ d0 target) ⊎ (s target ≡ some contents)

  abbrev Written : Directory → Type 0
  Written s = (s target ≡ d0 target) × (s temp ≡ some contents)

  abbrev pub Renamed : Directory → Type 0
  Renamed s = (s target ≡ some contents) × (s temp ≡ none)

  module _ (fault : FaultPoint) where
    abbrev pub Failed : Directory → Type 0
    Failed s = (s target ≡ d0 target) ⊎ ((fault ≡ rename) × (s target ≡ some contents))

    create_file-Triple : (r : Option Bytes) → Triple Old (create_file r temp) Old Failed OldOrNew
    unfolding store
    create_file-Triple none d h = rw apart ((inl h, tt), h)
    create_file-Triple (some e) d h = (tt, inl h)

    write_all-Triple :
        (r : Option Bytes) (written : ℕ)
        → Triple Old (write_all r written temp contents) Written Failed OldOrNew
    unfolding store
    write_all-Triple none written d h =
        rw (apart, bytes_eq_refl temp) ((inl h, (inl h, tt)), (h, refl))
    write_all-Triple (some e) written d h = rw apart ((inl h, tt), inl h)

    sync_all-Triple : (r : Option Bytes) → Triple Written (sync_all r) Written Failed OldOrNew
    sync_all-Triple none d h = (tt, h)
    sync_all-Triple (some e) d h = (tt, inl h.0)

    rename_file-Triple :
        (r : Option Bytes) → Triple Written (rename_file r temp target) Renamed Failed OldOrNew
    unfolding store
    rename_file-Triple none d h =
        rw (apart, bytes_eq_refl temp, bytes_eq_refl target) ((inr h.1, tt), (h.1, refl))
    rename_file-Triple (some e) d h = (tt, inl h.0)

    inject-Triple :
        (P : Directory → Type 0)
        → ((s : Directory) → P s → Old s)
        → (point : FaultPoint) (error : Bytes)
        → Triple P (inject fault point error) P Failed OldOrNew
    inject-Triple P old point error d h = elim (Bool-cases (same_point fault point)) [
      | inl e ↦ rw e (tt, inl (old d h))
      | inr e ↦ rw e (tt, h)
    ]

    same_point_rename : (p : FaultPoint) → same_point p rename ≡ true → p ≡ rename
    same_point_rename no_fault h = cc
    same_point_rename create_temp h = cc
    same_point_rename write_temp h = cc
    same_point_rename flush h = cc
    same_point_rename rename h = refl

    inject_rename-Triple :
        (error : Bytes) → Triple Renamed (inject fault rename error) Renamed Failed OldOrNew
    inject_rename-Triple error d h = elim (Bool-cases (same_point fault rename)) [
      | inl e ↦ rw e (tt, inr (same_point_rename fault e, h.0))
      | inr e ↦ rw e (tt, h)
    ]

    pub write_via_temp-Triple :
        (os : Os)
        → Triple Old (write_via_temp os target temp contents fault) Renamed Failed OldOrNew
    unfolding write_via_temp
    write_via_temp-Triple os =
        let old : (s : Directory) → Written s → Old s = λ s h. h.0 in
        let point = inject fault in
        let after_rename = point rename (codes "injected rename failure") in
        let renaming = and_then (rename_file os.rename_error temp target) after_rename in
        let after_flush = and_then (point flush (codes "injected flush failure")) renaming in
        let flushing = and_then (sync_all os.sync_error) after_flush in
        let after_write =
          and_then (point write_temp (codes "injected write-temp failure")) flushing in
        let writing = and_then (write_all os.write_error os.written temp contents) after_write in
        let after_create =
          and_then (point create_temp (codes "injected create-temp failure")) writing in
        next_call Old Old (create_file os.create_error temp) after_create
          (create_file-Triple os.create_error)
          (next_call Old Old (point create_temp (codes "injected create-temp failure")) writing
            (inject-Triple Old (λ s h. h) create_temp (codes "injected create-temp failure"))
            (next_call Old Written (write_all os.write_error os.written temp contents) after_write
              (write_all-Triple os.write_error os.written)
              (next_call Written Written (point write_temp (codes "injected write-temp failure"))
                flushing
                (inject-Triple Written old write_temp (codes "injected write-temp failure"))
                (next_call Written Written (sync_all os.sync_error) after_flush
                  (sync_all-Triple os.sync_error)
                  (next_call Written Written (point flush (codes "injected flush failure")) renaming
                    (inject-Triple Written old flush (codes "injected flush failure"))
                    (next_call Written Renamed (rename_file os.rename_error temp target)
                      after_rename (rename_file-Triple os.rename_error)
                      (inject_rename-Triple (codes "injected rename failure"))))))))
      where
        next_call :
            (P R : Directory → Type 0) (f g : Effect)
            → Triple P f R Failed OldOrNew
            → Triple R g Renamed Failed OldOrNew
            → Triple P (and_then f g) Renamed Failed OldOrNew
        next_call P R f g hf hg = and_then-Triple P R Renamed Failed OldOrNew f g hf hg
