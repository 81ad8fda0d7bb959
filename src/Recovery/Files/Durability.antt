-- ===== src/Recovery/Files/Durability.antt =====
-- What the store of files holds after a write of recovery.py, whatever the system answers.
use mathlib.Core.Path.{subst}
use mathlib.Core.List.{append-nil, append_assoc}
use k8s_stack_tooling.Prelude.{
  ℕ, zero, suc, ◌≤◌, String, true, false, List, [], ◌∷◌, ◌++◌, ◌≡◌, refl, sym, ◌∙◌, ap, ◌≢◌, ◌⊎◌,
  Option, none, some, arith, eq_iff, eq_refl, is_ok, take, drop, length, take-append-drop,
  length-drop, is_some,
}
use k8s_stack_tooling.Recovery.Files.{
  Files, System, Written, done, failed, out_of_fuel, write_all, after_round, after_write,
  finish_atomic, finish_exclusive, Outcome, Stored, stored, store_payload, private_file,
  write_exclusive, write_atomic, write_new, update,
}

-- The loop ends with the whole view behind what was there, or fails.
abbrev Writes : List ℕ → Written → Type 0
Writes whole (done file) = file ≡ whole
Writes whole (failed file) = Unit
Writes whole out_of_fuel = ⊥

regroup_view :
    (n b : ℕ) (view file : List ℕ) → (file ++ b ∷ take n view) ++ drop n view ≡ file ++ b ∷ view
regroup_view n b view file =
    append_assoc file (b ∷ take n view) (drop n view)
    ∙ ap (λ r. file ++ b ∷ r) (take-append-drop n view)

Writes-after_round :
    (whole : List ℕ) (o : Option ℕ) (file : List ℕ) (next : ℕ → Written)
    → ((n : ℕ) → Writes whole (next n))
    → Writes whole (after_round o file next)
Writes-after_round whole none file next h = tt
Writes-after_round whole (some zero) file next h = tt
Writes-after_round whole (some (suc n)) file next h = h n

write_all-Writes :
    (fuel : ℕ) (writes : ℕ → Option ℕ) (i : ℕ) (view file : List ℕ)
    → length view ≤ fuel
    → Writes (file ++ view) (write_all fuel writes i view file)
unfolding write_all
write_all-Writes fuel writes i [] file h = sym (append-nil file)
write_all-Writes zero writes i (b ∷ view) file h = absurd (omega arith)
write_all-Writes (suc fuel) writes i (b ∷ view) file h = Writes-after_round _ (writes i) file _ λ n.
    subst
      (λ whole.
        Writes whole (write_all fuel writes (suc i) (drop n view) (file ++ b ∷ take n view)))
      (regroup_view n b view file)
      (write_all-Writes fuel writes (suc i) (drop n view) (file ++ b ∷ take n view)
        (omega (arith, length-drop n view)))

-- A call that went through holds the payload whole.
abbrev IsWhole : List ℕ → Stored → Type 0
IsWhole payload (stored true file) = file ≡ payload
IsWhole payload (stored false file) = Unit

store_payload-IsWhole :
    (sys : System) (payload : List ℕ) → IsWhole payload (store_payload sys (length payload) payload)
unfolding store_payload
store_payload-IsWhole sys payload =
    after_write-IsWhole (write_all (length payload) sys.writes 0 payload [])
      (write_all-Writes (length payload) sys.writes 0 payload [] (omega arith))
  where
    after_write-IsWhole : (w : Written) → Writes payload w → IsWhole payload (after_write sys w)
    after_write-IsWhole (done file) h = ground arith
    after_write-IsWhole (failed file) h = tt
    after_write-IsWhole out_of_fuel h = elim h [ ]

module _ (sys : System) (path temporary : String) (payload : List ℕ) (fs : Files) where
  -- What a file may hold after a write: what was there, if an error is reported, or the payload.
  abbrev AllOrNothing : Outcome → Type 0
  AllOrNothing (result, after) =
      ((after path ≡ fs path) × (is_ok result ≡ false)) ⊎ (after path ≡ private_file payload)

  finish_atomic-AllOrNothing :
      path ≢ temporary
      → (s : Stored) → IsWhole payload s
      → AllOrNothing (finish_atomic sys path temporary fs s)
  finish_atomic-AllOrNothing ne (stored true file) h =
      ground (arith, eq_iff path temporary, eq_refl path)
  finish_atomic-AllOrNothing ne (stored false file) h = ground (arith, eq_iff path temporary)

  -- Whatever the system answers, `_write_atomic` leaves under the path either what was there, and
  -- then it raises, or the payload whole in a private file.
  write_atomic-AllOrNothing :
      path ≢ temporary → AllOrNothing (write_atomic sys (length payload) path temporary payload fs)
  unfolding write_atomic
  write_atomic-AllOrNothing ne = ground (
    arith,
    finish_atomic-AllOrNothing ne (store_payload sys (length payload) payload)
        (store_payload-IsWhole sys payload),
    eq_iff path temporary,
  )

  finish_atomic-removes_temporary :
      path ≢ temporary
      → sys.unlink_ok ≡ true
      → (s : Stored) → (finish_atomic sys path temporary fs s).1 temporary ≡ none
  finish_atomic-removes_temporary ne unlinked (stored whole file) =
      ground (arith, eq_refl temporary)

  write_atomic-removes_temporary :
      path ≢ temporary
      → fs temporary ≡ none
      → sys.unlink_ok ≡ true
      → (write_atomic sys (length payload) path temporary payload fs).1 temporary ≡ none
  unfolding write_atomic
  write_atomic-removes_temporary ne fresh unlinked = ground (
    arith,
    finish_atomic-removes_temporary ne unlinked (store_payload sys (length payload) payload),
    eq_refl temporary,
  )

  finish_atomic_others :
      (q : String)
      → q ≢ path
      → q ≢ temporary
      → (s : Stored) → (finish_atomic sys path temporary fs s).1 q ≡ fs q
  finish_atomic_others q np nt (stored whole file) =
      ground (arith, eq_iff q path, eq_iff q temporary)

  write_atomic_others :
      (q : String)
      → q ≢ path
      → q ≢ temporary
      → (write_atomic sys (length payload) path temporary payload fs).1 q ≡ fs q
  unfolding write_atomic
  write_atomic_others q np nt = ground (
    arith,
    finish_atomic_others q np nt (store_payload sys (length payload) payload),
    eq_iff q temporary,
  )

  -- An update raises and leaves what was under the path, or it has put the payload there whole; the
  -- temporary file is gone if its removal is not refused; and no other path has changed.
  pub update-AllOrNothing :
      path ≢ temporary
      → fs temporary ≡ none
      → let (result, after) = update sys (length payload) path temporary payload fs in
        (((after path ≡ fs path) × (is_ok result ≡ false)) ⊎ (after path ≡ private_file payload))
        × (sys.unlink_ok ≡ true → after temporary ≡ none)
        × ((q : String) → q ≢ path → q ≢ temporary → after q ≡ fs q)
  unfolding update
  update-AllOrNothing ne fresh = (
    ground (arith, write_atomic-AllOrNothing ne),
    λ unlinked. ground (arith, write_atomic-removes_temporary ne fresh unlinked),
    λ q np nt. ground (arith, write_atomic_others q np nt),
  )

module _ (sys : System) (path : String) (payload : List ℕ) (fs : Files) where
  finish_exclusive_lem :
      (s : Stored)
      → IsWhole payload s
      → let (result, after) = finish_exclusive sys path fs s in
        (is_ok result ≡ true → after path ≡ private_file payload)
        × (is_ok result ≡ false → sys.unlink_ok ≡ true → after path ≡ none)
        × ((q : String) → q ≢ path → after q ≡ fs q)
  finish_exclusive_lem (stored true file) h = (
    λ done. ground (arith, eq_refl path),
    λ fails unlinked. ground (arith, eq_refl path),
    λ q np. ground (arith, eq_iff q path),
  )
  finish_exclusive_lem (stored false file) h = (
    λ done. cc,
    λ fails unlinked. ground (arith, eq_refl path),
    λ q np. ground (arith, eq_iff q path),
  )

  write_exclusive_lem :
      let (result, after) = write_exclusive sys (length payload) path payload fs in
      (is_ok result ≡ true → after path ≡ private_file payload)
      × (fs path ≡ none → is_ok result ≡ false → sys.unlink_ok ≡ true → after path ≡ none)
      × ((q : String) → q ≢ path → after q ≡ fs q)
  unfolding write_exclusive
  write_exclusive_lem =
      let (finished, fails, others) =
        finish_exclusive_lem (store_payload sys (length payload) payload)
          (store_payload-IsWhole sys payload) in
      (
        λ e. ground (arith, finished),
        λ free e unlinked. ground (arith, fails),
        λ q np. ground (arith, others q np),
      )

  -- A new kit never overwrites: over a path that is taken nothing changes. On a free path it is
  -- written whole, or an error is reported and, if its removal is not refused, the path is free.
  pub write_new_never_overwrites :
      let (result, after) = write_new sys (length payload) path payload fs in
      (is_some (fs path) ≡ true → (after ≡ fs) × (is_ok result ≡ false))
      × (is_ok result ≡ true → after path ≡ private_file payload)
      × (fs path ≡ none → is_ok result ≡ false → sys.unlink_ok ≡ true → after path ≡ none)
      × ((q : String) → q ≢ path → after q ≡ fs q)
  unfolding write_new
  write_new_never_overwrites = (
    λ taken. rw taken (refl, refl),
    λ done. ground (arith, write_exclusive_lem.0),
    λ free failed_write unlinked. ground (arith, write_exclusive_lem.1 free),
    λ q np. ground (arith, write_exclusive_lem.2 q np),
  )
