-- ===== src/Desktop/AtomicFile/Crash/Logic.antt =====
-- A logic of the effects of atomic_file.rs: a condition before, one after a success, one after an
-- error, and one on every state between.
use veyora.Prelude.{◌≡◌, refl, Bytes, List, [], ◌∷◌, ◌++◌, Result, ok, err, All}
use veyora.Desktop.AtomicFile.{Directory, Effect, last_state, and_then}

abbrev pub After :
    Directory
    → (Directory → Type 0)
    → (Directory → Type 0)
    → List Directory × Result Bytes (Unit {0})
    → Type 0
After d Q E (states, ok u) = Q (last_state d states)
After d Q E (states, err e) = E (last_state d states)

abbrev pub Triple : (P : Directory → Type 0) (f : Effect) (Q E G : Directory → Type 0) → Type 0
Triple P f Q E G = (d : Directory) → P d → All G (f d).0 × After d Q E (f d)

pub All-append :
    (G : Directory → Type 0) (xs ys : List Directory) → All G xs → All G ys → All G (xs ++ ys)
All-append G [] ys hx hy = hy
All-append G (x ∷ xs) ys (h, hx) hy = (h, All-append G xs ys hx hy)

last_state-append :
    (d : Directory) (xs ys : List Directory)
    → last_state d (xs ++ ys) ≡ last_state (last_state d xs) ys
last_state-append d [] ys = refl
last_state-append d (x ∷ xs) ys = last_state-append x xs ys

pub After-append :
    (Q E : Directory → Type 0) (d : Directory) (xs ys : List Directory)
    (r : Result Bytes (Unit {0}))
    → After (last_state d xs) Q E (ys, r)
    → After d Q E (xs ++ ys, r)
After-append Q E d xs ys (ok u) h = rw (last_state-append d xs ys) h
After-append Q E d xs ys (err e) h = rw (last_state-append d xs ys) h

pub After-weaken :
    (Q E E' : Directory → Type 0)
    → ((s : Directory) → E s → E' s)
    → (d : Directory) (x : List Directory × Result Bytes (Unit {0})) → After d Q E x
    → After d Q E' x
After-weaken Q E E' f d (states, ok u) h = h
After-weaken Q E E' f d (states, err e) h = f (last_state d states) h

module _ (P R Q E G : Directory → Type 0) where
  -- The second effect runs from where the first one ends, if it succeeds.
  pub and_then-Triple :
      (f g : Effect) → Triple P f R E G → Triple R g Q E G → Triple P (and_then f g) Q E G
  and_then-Triple f g hf hg d h = let (every, last) = hf d h in joined (f d) every last
    where
      joined :
          (x : List Directory × Result Bytes (Unit {0}))
          → All G x.0
          → After d R E x
          → All G (and_then (λ s. x) g d).0 × After d Q E (and_then (λ s. x) g d)
      joined (states, err e) every last = (every, last)
      joined (states, ok u) every last =
          let (every', last') = hg (last_state d states) last in
          (All-append G states _ every every', After-append Q E d states _ _ last')
