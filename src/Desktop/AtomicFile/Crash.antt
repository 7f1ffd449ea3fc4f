-- ===== src/Desktop/AtomicFile/Crash.antt =====
-- What a crash or an error of atomic_file.rs leaves of the target and of the temporary file.
pub mod Logic
pub mod Calls
use veyora.Prelude.{
  ℕ, zero, suc, ◌+◌, ◌≡◌, ◌⊎◌, inl, inr, refl, ◌∙◌, ap, Bytes, codes, bytes_eq, bytes_eq_refl,
  bytes_eq_iff, Bool, Bool-cases, true, false, not, ◌||◌, Option, none, some, List, [], ◌∷◌, ◌++◌,
  Result, ok, err, if◌then◌else◌, take, length, length-append, All, arith,
}
use veyora.Desktop.AtomicFile.{
  Directory, store, Os, FaultPoint, no_fault, create_temp, write_temp, flush, rename, Effect,
  last_state, and_then, decimal, temp_path_for, create_file, write_all, sync_all, rename_file,
  remove_file, same_point, inject, write_via_temp, clean_up, write_file_with_faults, write_file,
}
use veyora.Desktop.AtomicFile.Crash.Logic.{
  After, Triple, All-append, After-append, After-weaken, and_then-Triple,
}
use veyora.Desktop.AtomicFile.Crash.Calls.{Old, OldOrNew, Renamed, Failed, write_via_temp-Triple}

abbrev pub is_failed : Option Bytes → Bool
is_failed none = false
is_failed (some error) = true

module _ (d0 : Directory) (target temp contents : Bytes)
    (apart : bytes_eq target temp ≡ false) where
  module _ (fault : FaultPoint) where
    -- Once the temporary file has been removed, it is gone, and the target is as it was.
    abbrev Cleaned : Option Bytes → Directory → Type 0
    Cleaned r s =
        (Failed d0 target temp contents apart fault) s × ((s temp ≡ none) ⊎ (is_failed r ≡ true))

    remove_file-Cleaned :
        (r : Option Bytes) (s : Directory)
        → (Failed d0 target temp contents apart fault) s
        → All (OldOrNew d0 target temp contents apart) (remove_file r temp s)
          × Cleaned r (last_state s (remove_file r temp s))
    unfolding store
    remove_file-Cleaned none s (inl h) =
        rw (apart, bytes_eq_refl temp) ((inl h, tt), (inl h, inl refl))
    remove_file-Cleaned none s (inr h) =
        rw (apart, bytes_eq_refl temp) ((inr h.1, tt), (inr h, inl refl))
    remove_file-Cleaned (some e) s h = (tt, (h, inr refl))

    clean_up-Triple :
        (os : Os) (f : Effect)
        → Triple
            (Old d0 target temp contents apart)
            f
            (Renamed d0 target temp contents apart)
            (Failed d0 target temp contents apart fault)
            (OldOrNew d0 target temp contents apart)
        → Triple
            (Old d0 target temp contents apart)
            (clean_up os temp f)
            (Renamed d0 target temp contents apart)
            (Cleaned os.remove_error)
            (OldOrNew d0 target temp contents apart)
    clean_up-Triple os f hf d h = let (every, last) = hf d h in cleaned (f d) every last
      where
        cleaned :
            (x : List Directory × Result Bytes (Unit {0}))
            → All (OldOrNew d0 target temp contents apart) x.0
            → After d
                (Renamed d0 target temp contents apart)
                (Failed d0 target temp contents apart fault)
                x
            → All (OldOrNew d0 target temp contents apart) (clean_up os temp (λ s. x) d).0
              × After d
                  (Renamed d0 target temp contents apart)
                  (Cleaned os.remove_error)
                  (clean_up os temp (λ s. x) d)
        cleaned (states, ok u) every last = (every, last)
        cleaned (states, err e) every last =
            let (every', last') = remove_file-Cleaned os.remove_error (last_state d states) last in
            (
              All-append (OldOrNew d0 target temp contents apart) states _ every every',
              After-append (Renamed d0 target temp contents apart) (Cleaned os.remove_error) d
                  states (remove_file os.remove_error temp (last_state d states)) (err e) last',
            )

-- The temporary name is longer than the target's.
temp_path_for_apart :
    (counter : ℕ) (target : Bytes) → bytes_eq target (temp_path_for counter (some target)).0 ≡ false
unfolding temp_path_for
temp_path_for_apart counter target =
    elim (Bool-cases (bytes_eq target (temp_path_for counter (some target)).0)) [
      | inr e ↦ e
      | inl e ↦ absurd (
          omega (
            arith,
            ap length ((bytes_eq_iff target (temp_path_for counter (some target)).0).0 e),
            length-append target (codes ".veyora-tmp-"),
            length-append (target ++ codes ".veyora-tmp-") (decimal 20 counter),
          ))
    ]

pub write_file_with_faults-After :
    (os : Os) (counter : ℕ) (d : Directory) (target contents : Bytes) (fault : FaultPoint)
    → let (states, result) = write_file_with_faults os counter target contents fault d in
      let temp = (temp_path_for counter (some target)).0 in
      All (λ s. (s target ≡ d target) ⊎ (s target ≡ some contents)) states
      × After d
          (λ s. (s target ≡ some contents) × (s temp ≡ none))
          (λ s.
            ((s target ≡ d target) ⊎ ((fault ≡ rename) × (s target ≡ some contents)))
            × ((s temp ≡ none) ⊎ (is_failed os.remove_error ≡ true)))
          (states, result)
unfolding write_file_with_faults
write_file_with_faults-After os counter d target contents fault =
    let temp = (temp_path_for counter (some target)).0 in
    let apart = temp_path_for_apart counter target in
    clean_up-Triple d target temp contents apart fault os
      (write_via_temp os target temp contents fault)
      (write_via_temp-Triple d target temp contents apart fault os) d refl

-- The calls of the operating system that must pass.
abbrev pub passes : Os → Bool
passes os = not (
    is_failed os.create_error
    || is_failed os.write_error
    || is_failed os.sync_error
    || is_failed os.rename_error)

abbrev pub succeeded : Result Bytes (Unit {0}) → Bool
succeeded (ok u) = true
succeeded (err e) = false

succeeded-write_file :
    (os : Os) (counter : ℕ) (d : Directory) (target contents : Bytes)
    → succeeded (write_file os counter target contents d).1 ≡ passes os
unfolding write_file write_file_with_faults write_via_temp
succeeded-write_file os counter d target contents =
    by_calls os.create_error os.write_error os.sync_error os.rename_error os.remove_error os.written
  where
    by_calls :
        (c w s r m : Option Bytes) (k : ℕ)
        → let os' : Os = record {
          create_error = c;
          written = k;
          write_error = w;
          sync_error = s;
          rename_error = r;
          remove_error = m;
        } in
          succeeded (write_file os' counter target contents d).1 ≡ passes os'
    by_calls (some e) w s r m k = refl
    by_calls none (some e) s r m k = refl
    by_calls none none (some e) r m k = refl
    by_calls none none none (some e) m k = refl
    by_calls none none none none m k = refl

-- The file is replaced if and only if its four calls pass. Whatever fails, and wherever a crash finds
-- the directory, the target holds its old entry or all of the new contents; after an error it is the
-- old one, and after a success the new one. The temporary file is gone in the end, unless an error's
-- own removal of it fails.
pub write_file_lem :
    (os : Os) (counter : ℕ) (d : Directory) (target contents : Bytes)
    → let (states, result) = write_file os counter target contents d in
      let temp = (temp_path_for counter (some target)).0 in
      (succeeded result ≡ passes os)
      × All (λ s. (s target ≡ d target) ⊎ (s target ≡ some contents)) states
      × After d
          (λ s. (s target ≡ some contents) × (s temp ≡ none))
          (λ s. (s target ≡ d target) × ((s temp ≡ none) ⊎ (is_failed os.remove_error ≡ true)))
          (states, result)
unfolding write_file
write_file_lem os counter d target contents =
    let temp = (temp_path_for counter (some target)).0 in
    let (every, last) = write_file_with_faults-After os counter d target contents no_fault in
    let Gone : Directory → Type 0 = λ s. (s temp ≡ none) ⊎ (is_failed os.remove_error ≡ true) in
    (
      succeeded-write_file os counter d target contents,
      every,
      After-weaken (λ s. (s target ≡ some contents) × (s temp ≡ none))
          (λ s.
            ((s target ≡ d target) ⊎ ((no_fault ≡ rename) × (s target ≡ some contents))) × Gone s)
          (λ s. (s target ≡ d target) × Gone s) (λ s (h, gone). (not_renamed s h, gone)) d
          (write_file os counter target contents d) last,
    )
  where
    not_renamed :
        (s : Directory)
        → (s target ≡ d target) ⊎ ((no_fault ≡ rename) × (s target ≡ some contents))
        → s target ≡ d target
    not_renamed s (inl h) = h
    not_renamed s (inr (h, new)) = cc
