-- ===== src/Api/Limiter.antt =====
-- `RateLimiter` of services/api/src/lib.rs. The clock's seconds are an argument.
use mathlib.Core.Path.{subst}
use veyora.Prelude.{
  ℕ, zero, suc, ◌+◌, ◌-◌, ◌/◌, ◌≡◌, ◌≤◌, ◌<◌, refl, sym, Bytes, bytes_eq, bytes_eq_iff, Bool, true,
  false, Option, none, some, List, [], ◌∷◌, leb, ◌==◌, if◌then◌else◌, arith, Bool-cases, inl, inr,
}

-- The fixed window of one client: its minute and the requests counted in it.
pub record Window : Type 0 where
  pub minute : ℕ
  pub count : ℕ

abbrev pub Windows : Type 0
Windows = List (Bytes × Window)

abbrev pub find : Bytes → Windows → Option Window
find k [] = none
find k ((j, entry) ∷ w) = let rest = find k w in if bytes_eq j k then some entry else rest

abbrev pub store_entry : Bytes → Window → Windows → Windows
store_entry k entry [] = (k, entry) ∷ []
store_entry k entry ((j, e) ∷ w) =
    let rest = store_entry k entry w in if bytes_eq j k then (k, entry) ∷ w else (j, e) ∷ rest

-- The count of the key's entry in a minute, before the request.
abbrev pub count_in : ℕ → Option Window → ℕ
count_in minute none = 0
count_in minute (some entry) = if entry.minute == minute then entry.count else 0

-- `allow`: whether the request passes, and the counters after it.
unfoldable pub allow : ℕ → Bytes → ℕ → Windows → Bool × Windows
allow zero key now w = (true, w)
allow (suc limit) key now w =
    let counted = count_in (now / 60) (find key w) + 1 in
    (leb counted (suc limit), store_entry key (record { minute = now / 60; count = counted }) w)

-- The requests of a run, in order, each a key and the clock's seconds: how many of one key in one minute
-- passed.
unfoldable pub passed : ℕ → Bytes → ℕ → List (Bytes × ℕ) → Windows → ℕ
passed limit key minute [] w = 0
passed limit key minute ((k, now) ∷ rs) w =
    let done = allow limit k now w in
    let later = passed limit key minute rs done.1 in
    if done.0
    then (if bytes_eq k key then (if now / 60 == minute then suc later else later) else later)
    else later

-- The clock does not run backwards, and starts at or after a minute.
abbrev pub Forward : ℕ → List (Bytes × ℕ) → Type 0
Forward last [] = Unit
Forward last ((k, now) ∷ rs) = (last ≤ now / 60) × Forward (now / 60) rs

abbrev Past : ℕ → Option Window → Type 0
Past last none = Unit
Past last (some entry) = entry.minute ≤ last

key_refl : (k : Bytes) → bytes_eq k k ≡ true
key_refl k = (bytes_eq_iff k k).1 refl

keys_apart : (i k j : Bytes) → bytes_eq i k ≡ true → bytes_eq k j ≡ false → bytes_eq i j ≡ false
keys_apart i k j h f = rw ((bytes_eq_iff i k).0 h) f

find_same : (k : Bytes) (entry : Window) (w : Windows) → find k (store_entry k entry w) ≡ some entry
find_same k entry [] = ground (arith, key_refl k)
find_same k entry ((i, e) ∷ w) = ground (arith, key_refl k, find_same k entry w)

find_other :
    (k j : Bytes) (entry : Window) (w : Windows)
    → bytes_eq k j ≡ false
    → find j (store_entry k entry w) ≡ find j w
find_other k j entry [] f = ground arith
find_other k j entry ((i, e) ∷ w) f = ground (arith, find_other k j entry w, keys_apart i k j)

-- A minute that is over passes nothing more.
none_later :
    (limit : ℕ) (key : Bytes) (minute last : ℕ) (rs : List (Bytes × ℕ)) (w : Windows)
    → minute < last
    → Forward last rs
    → passed limit key minute rs w ≡ 0
unfolding passed
none_later limit key minute last [] w h f = refl
none_later limit key minute last ((k, now) ∷ rs) w h (le, f) =
    let later = none_later limit key minute (now / 60) rs (allow limit k now w).1 (omega arith) f in
    ground arith

-- One request of the key itself, in minute `q`, against what its entry has counted.
one_request :
    (limit minute last q later : ℕ) (o : Option Window)
    → Past last o
    → last ≤ q
    → later ≤ suc limit - (if q == minute then count_in q o + 1 else 0)
    → (minute < q → later ≡ 0)
    → (if leb (count_in q o + 1) (suc limit)
        then (if q == minute then suc later else later)
        else later)
      ≤ suc limit - count_in minute o
one_request limit minute last q later none past le bound over = ground arith
one_request limit minute last q later (some entry) past le bound over = ground arith

Past-same : (q n : ℕ) (o : Option Window) → o ≡ some (record { minute = q; count = n }) → Past q o
Past-same q n none h = absurd (ground arith)
Past-same q n (some entry) h = ground arith

Past-on : (last q : ℕ) (o : Option Window) → last ≤ q → Past last o → Past q o
Past-on last q none le past = tt
Past-on last q (some entry) le past = omega arith

-- The counters after a request of the key in minute `q`.
abbrev counted : Bytes → ℕ → Windows → Windows
counted key q w = store_entry key (record { minute = q; count = count_in q (find key w) + 1 }) w

own_request :
    (limit : ℕ) (key : Bytes) (minute last now : ℕ) (rs : List (Bytes × ℕ)) (w : Windows)
    → last ≤ now / 60
    → Forward (now / 60) rs
    → Past last (find key w)
    → passed (suc limit) key minute rs (counted key (now / 60) w)
      ≤ suc limit - count_in minute (find key (counted key (now / 60) w))
    → passed (suc limit) key minute ((key, now) ∷ rs) w ≤ suc limit - count_in minute (find key w)
unfolding passed allow
own_request limit key minute last now rs w le f past bound =
    let q = now / 60 in
    let later = passed (suc limit) key minute rs (counted key q w) in
    let room : later ≤ suc limit - (if q == minute then count_in q (find key w) + 1 else 0) =
      rw (find_same key (record { minute = q; count = count_in q (find key w) + 1 }) w) at bound in
    let over = λ (h : minute < q). none_later (suc limit) key minute q rs (counted key q w) h f in
    rw (key_refl key) (one_request limit minute last q later (find key w) past le room over)

window_bound :
    (limit : ℕ) (key : Bytes) (minute last : ℕ) (rs : List (Bytes × ℕ)) (w : Windows)
    → Forward last rs
    → Past last (find key w)
    → passed (suc limit) key minute rs w ≤ suc limit - count_in minute (find key w)
unfolding passed allow
window_bound limit key minute last [] w f past = omega arith
window_bound limit key minute last ((k, now) ∷ rs) w (le, f) past =
    elim (Bool-cases (bytes_eq k key)) [
      | inl e ↦
          let q = now / 60 in
          let n = count_in q (find key w) + 1 in
          let here = find_same key (record { minute = q; count = n }) w in
          let bound =
            window_bound limit key minute q rs (counted key q w) f (Past-same q n _ here) in
          subst
            (λ j.
              passed (suc limit) key minute ((j, now) ∷ rs) w
              ≤ suc limit - count_in minute (find key w))
            (sym ((bytes_eq_iff k key).0 e))
            (own_request limit key minute last now rs w le f past bound)
      | inr e ↦
          let q = now / 60 in
          let n = count_in q (find k w) + 1 in
          let w' = store_entry k (record { minute = q; count = n }) w in
          let other = find_other k key (record { minute = q; count = n }) w e in
          let bound =
            window_bound limit key minute q rs w' f
              (subst (Past q) (sym other) (Past-on last q (find key w) le past)) in
          let room : passed (suc limit) key minute rs w'
              ≤ suc limit - count_in minute (find key w) =
            rw other at bound in
          rw e (ground arith)
    ]

-- Under a positive limit and a clock that does not run backwards, no client passes more requests in any
-- one minute than the limit, whatever the other clients do.
pub allow_bounds_minute :
    (limit : ℕ) (key : Bytes) (minute start : ℕ) (rs : List (Bytes × ℕ))
    → 0 < limit
    → Forward start rs
    → passed limit key minute rs [] ≤ limit
allow_bounds_minute zero key minute start rs h f = absurd (omega arith)
allow_bounds_minute (suc limit) key minute start rs h f =
    omega (arith, window_bound limit key minute start rs [] f tt)
