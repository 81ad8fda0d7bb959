-- ===== src/CatalogSync/Files/Names.antt =====
-- sync.py: the names that write_files works with, and what its files may be said to hold.
use k8s_stack_tooling.Prelude.{
  String, true, false, none, some, List, [], ◌∷◌, ◌≡◌, ◌≢◌, ◌⊎◌, refl, sym, ap, ◌∙◌, arith, is_some,
  All,
}
use k8s_stack_tooling.CatalogSync.Files.{Bytes, Files, bytes_eq, Output, Saved}
use k8s_stack_tooling.CatalogSync.Files.Frames.{NotTemporary, NotBackup, NotDestination}

-- What a name was made for: an output, a temporary file of mkstemp or a backup.
pub data Kind : Type 0 where
  target temporary backup : Kind

-- The names are of their kinds, and different within each.
abbrev pub IsNamed : (String → Kind) → List Output → Type 0
IsNamed kind [] = Unit
IsNamed kind (o ∷ os) =
    (kind o.destination ≡ target)
    × (kind o.temporary ≡ temporary)
    × (kind o.backup ≡ backup)
    × NotDestination o.destination os
    × NotTemporary o.temporary os
    × NotBackup o.backup os
    × IsNamed kind os

pub bytes_eq_sound : (a b : Bytes) → bytes_eq a b ≡ true → a ≡ b
bytes_eq_sound [] [] h = refl
bytes_eq_sound [] (y ∷ ys) h = cc
bytes_eq_sound (x ∷ xs) [] h = cc
bytes_eq_sound (x ∷ xs) (y ∷ ys) h = ground (arith, bytes_eq_sound xs ys)

module _ (kind : String → Kind) where
  pub ne_of_kind : (a b : String) (k l : Kind) → kind a ≡ k → kind b ≡ l → k ≢ l → a ≢ b
  ne_of_kind a b k l ka kb ne e = ne (sym ka ∙ ap kind e ∙ kb)

  pub target-NotTemporary :
      (q : String) (os : List Output) → kind q ≡ target → IsNamed kind os → NotTemporary q os
  target-NotTemporary q [] t n = tt
  target-NotTemporary q (o ∷ os) t (d, x, b, nd, nt, nb, n) =
      (ne_of_kind q o.temporary _ _ t x (λ e. cc), target-NotTemporary q os t n)

  pub target-NotBackup :
      (q : String) (os : List Output) → kind q ≡ target → IsNamed kind os → NotBackup q os
  target-NotBackup q [] t n = tt
  target-NotBackup q (o ∷ os) t (d, x, b, nd, nt, nb, n) =
      (ne_of_kind q o.backup _ _ t b (λ e. cc), target-NotBackup q os t n)

  pub backup-NotTemporary :
      (q : String) (os : List Output) → kind q ≡ backup → IsNamed kind os → NotTemporary q os
  backup-NotTemporary q [] t n = tt
  backup-NotTemporary q (o ∷ os) t (d, x, b, nd, nt, nb, n) =
      (ne_of_kind q o.temporary _ _ t x (λ e. cc), backup-NotTemporary q os t n)

  pub backup-NotDestination :
      (q : String) (os : List Output) → kind q ≡ backup → IsNamed kind os → NotDestination q os
  backup-NotDestination q [] t n = tt
  backup-NotDestination q (o ∷ os) t (d, x, b, nd, nt, nb, n) =
      (ne_of_kind q o.destination _ _ t d (λ e. cc), backup-NotDestination q os t n)

  pub temporary-NotBackup :
      (q : String) (os : List Output) → kind q ≡ temporary → IsNamed kind os → NotBackup q os
  temporary-NotBackup q [] t n = tt
  temporary-NotBackup q (o ∷ os) t (d, x, b, nd, nt, nb, n) =
      (ne_of_kind q o.backup _ _ t b (λ e. cc), temporary-NotBackup q os t n)

  temporary-NotDestination :
      (q : String) (os : List Output) → kind q ≡ temporary → IsNamed kind os → NotDestination q os
  temporary-NotDestination q [] t n = tt
  temporary-NotDestination q (o ∷ os) t (d, x, b, nd, nt, nb, n) =
      (ne_of_kind q o.destination _ _ t d (λ e. cc), temporary-NotDestination q os t n)

-- The output has a copy, or there was nothing to copy.
abbrev pub IsRestorable : Files → Files → Saved → Type 0
IsRestorable before fs (o, true) =
    (fs o.backup ≡ before o.destination) × (is_some (before o.destination) ≡ true)
IsRestorable before fs (o, false) = before o.destination ≡ none

abbrev pub AllAsBefore : Files → Files → List Output → Type 0
AllAsBefore before fs os = All (λ (o : Output). fs o.destination ≡ before o.destination) os

-- What the output held is under its name or under the backup's, or there was nothing.
abbrev pub NotLost : Files → Files → Output → Type 0
NotLost before fs o =
    (fs o.destination ≡ before o.destination)
    ⊎ ((fs o.backup ≡ before o.destination) ⊎ (before o.destination ≡ none))

abbrev pub AllStaged : Files → List Output → Type 0
AllStaged fs os = All (λ (o : Output). fs o.temporary ≡ some o.content) os

abbrev pub AllWritten : Files → List Output → Type 0
AllWritten fs os = All (λ (o : Output). fs o.destination ≡ some o.content) os
