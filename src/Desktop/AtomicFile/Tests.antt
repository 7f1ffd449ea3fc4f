-- ===== src/Desktop/AtomicFile/Tests.antt =====
-- atomic_file.rs at concrete files.
use veyora.Prelude.{decimal, ◌≡◌, ◌⊎◌, refl, Bytes, codes, bytes_eq, true, none, some, err, All}
use veyora.Desktop.AtomicFile.{
  Directory, store, Os, rename, last_state, temp_path_for, write_via_temp, write_file_with_faults,
  write_file,
}
use veyora.Desktop.AtomicFile.Crash.{is_failed, succeeded, passes, write_file_lem}
use veyora.Desktop.AtomicFile.Crash.Logic.{After}

abbrev target : Bytes
target = codes "export.json"

abbrev old_file : Directory
old_file = store (λ n. none) target (some (codes "valid older export"))

abbrev full_disk : Os
full_disk = record {
  create_error = none;
  written = 3;
  write_error = some (codes "disk full");
  sync_error = none;
  rename_error = none;
  remove_error = none;
}

abbrev sound : Os
sound = record {
  create_error = none;
  written = 0;
  write_error = none;
  sync_error = none;
  rename_error = none;
  remove_error = none;
}

temp_path_is_hidden : (temp_path_for 17 (some target)).0 ≡ codes ".export.json.veyora-tmp-17"
unfolding temp_path_for decimal
temp_path_is_hidden = refl

write_replaces :
    last_state old_file (write_file sound 0 target (codes "second") old_file).0 target
    ≡ some (codes "second")
unfolding write_file write_file_with_faults write_via_temp store bytes_eq temp_path_for decimal
write_replaces = refl

-- The fault after the rename is reported, but the file has been replaced.
rename_fault_commits :
    let (states, result) =
      write_file_with_faults sound 0 target (codes "committed") rename old_file in
    (result ≡ err (codes "injected rename failure"))
    × (last_state old_file states target ≡ some (codes "committed"))
unfolding write_file_with_faults write_via_temp store bytes_eq temp_path_for decimal
rename_fault_commits = (refl, refl)

write_file_lem_example :
    let (states, result) = write_file full_disk 17 target (codes "new") old_file in
    let temp = (temp_path_for 17 (some target)).0 in
    (succeeded result ≡ passes full_disk)
    × All (λ s. (s target ≡ old_file target) ⊎ (s target ≡ some (codes "new"))) states
    × After old_file
        (λ s. (s target ≡ some (codes "new")) × (s temp ≡ none))
        (λ s.
          (s target ≡ old_file target)
          × ((s temp ≡ none) ⊎ (is_failed (full_disk.remove_error) ≡ true)))
        (states, result)
write_file_lem_example = write_file_lem full_disk 17 old_file target (codes "new")
