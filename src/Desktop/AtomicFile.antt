-- ===== src/Desktop/AtomicFile.antt =====
-- apps/desktop/src-tauri/src/atomic_file.rs over one directory: what each name of it holds. A file
-- system call is a run of directories, one for each state that a crash can find, and its result. What
-- the operating system does with each call is a parameter. Names are UTF-8.
pub mod Crash
pub mod Tests
use veyora.Prelude.{
  decimal, ℕ, zero, suc, ◌+◌, ◌/◌, ◌%◌, ◌^◌, Bytes, codes, bytes_eq, Bool, true, false, Option,
  none, some, List, [], ◌∷◌, ◌++◌, Result, ok, err, ltb, if◌then◌else◌, take,
}

abbrev pub Directory : Type 0
Directory = Bytes → Option Bytes

unfoldable pub store : Directory → Bytes → Option Bytes → Directory
store d name entry = λ n. if bytes_eq n name then entry else d n

-- The error text of each call, if it fails, and how much of the contents a partial write has brought.
pub record Os : Type 0 where
  pub create_error : Option Bytes
  pub written : ℕ
  pub write_error : Option Bytes
  pub sync_error : Option Bytes
  pub rename_error : Option Bytes
  pub remove_error : Option Bytes

pub data FaultPoint : Type 0 where
  no_fault create_temp write_temp flush rename : FaultPoint

-- The states it goes through, after the one that it starts in, and what it returns.
abbrev pub Effect : Type 0
Effect = Directory → List Directory × Result Bytes (Unit {0})

abbrev pub last_state : Directory → List Directory → Directory
last_state d [] = d
last_state d (s ∷ states) = last_state s states

abbrev pub and_then : Effect → Effect → Effect
and_then f g d =
    let (states, result) = f d in
    elim result [
      | err e ↦ (states, err e)
      | ok u ↦ let (later, result') = g (last_state d states) in (states ++ later, result')
    ]

-- The temporary name, from the counter, and the counter that follows.
unfoldable pub temp_path_for : ℕ → Option Bytes → Bytes × ℕ
temp_path_for counter none = (codes ".veyora-tmp-" ++ decimal 20 counter, (counter + 1) % 2 ^ 64)
temp_path_for counter (some name) =
    (codes "." ++ name ++ codes ".veyora-tmp-" ++ decimal 20 counter, (counter + 1) % 2 ^ 64)

-- A call that fails changes nothing, but for a write, which leaves a part of the contents.
abbrev pub fails : Bytes → Bytes → Effect
fails step error d = ([], err (step ++ error))

abbrev pub create_file : Option Bytes → Bytes → Effect
create_file none temp d = (store d temp (some []) ∷ [], ok tt)
create_file (some error) temp d = fails (codes "create temporary file: ") error d

abbrev pub write_all : Option Bytes → ℕ → Bytes → Bytes → Effect
write_all none written temp contents d =
    (store d temp (some (take written contents)) ∷ store d temp (some contents) ∷ [], ok tt)
write_all (some error) written temp contents d = (
  store d temp (some (take written contents)) ∷ [],
  err (codes "write temporary file: " ++ error),
)

abbrev pub sync_all : Option Bytes → Effect
sync_all none d = ([], ok tt)
sync_all (some error) d = fails (codes "flush temporary file: ") error d

abbrev pub rename_file : Option Bytes → Bytes → Bytes → Effect
rename_file none temp target d = (store (store d target (d temp)) temp none ∷ [], ok tt)
rename_file (some error) temp target d = fails (codes "finalize file: ") error d

abbrev pub remove_file : Option Bytes → Bytes → Directory → List Directory
remove_file none temp d = store d temp none ∷ []
remove_file (some error) temp d = []

abbrev pub same_point : FaultPoint → FaultPoint → Bool
same_point create_temp create_temp = true
same_point write_temp write_temp = true
same_point flush flush = true
same_point rename rename = true
same_point no_fault no_fault = true
same_point p q = false

abbrev pub inject : FaultPoint → FaultPoint → Bytes → Effect
inject fault point error d = ([], if same_point fault point then err error else ok tt)

unfoldable pub write_via_temp : Os → Bytes → Bytes → Bytes → FaultPoint → Effect
write_via_temp os target temp contents fault = and_then (create_file os.create_error temp) (
    and_then (inject fault create_temp (codes "injected create-temp failure")) (
      and_then (write_all os.write_error os.written temp contents) (
        and_then (inject fault write_temp (codes "injected write-temp failure")) (
          and_then (sync_all os.sync_error) (
            and_then (inject fault flush (codes "injected flush failure")) (
              and_then (rename_file os.rename_error temp target)
                (inject fault rename (codes "injected rename failure"))))))))

abbrev pub clean_up : Os → Bytes → Effect → Effect
clean_up os temp f d =
    let (states, result) = f d in
    elim result [
      | ok u ↦ (states, ok u)
      | err e ↦ (states ++ remove_file os.remove_error temp (last_state d states), err e)
    ]

unfoldable pub write_file_with_faults : Os → ℕ → Bytes → Bytes → FaultPoint → Effect
write_file_with_faults os counter target contents fault =
    let temp = (temp_path_for counter (some target)).0 in
    clean_up os temp (write_via_temp os target temp contents fault)

unfoldable pub write_file : Os → ℕ → Bytes → Bytes → Effect
unfolding write_file_with_faults
write_file os counter target contents = write_file_with_faults os counter target contents no_fault
