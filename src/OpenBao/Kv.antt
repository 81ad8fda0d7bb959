-- ===== src/OpenBao/Kv.antt =====
-- client.py: what the setup relies on of the records of OpenBao, and a run against its server. A
-- request may be refused at any time; a write that is refused may have been carried out all the same.
pub mod Kept
pub mod Settled
pub mod Ensured
use k8s_stack_tooling.Prelude.{
  ℕ, zero, suc, String, Bool, true, false, Option, none, some, List, [], ◌∷◌, ◌≡◌, ◌⊎◌, str_eq,
  Result, ok, err, Dict,
}
use k8s_stack_tooling.Value.{Value}

-- SecretRecord
pub record SecretRecord : Type 0 where
  pub values : Dict Value
  pub version : ℕ

-- OpenBaoError, by what it reports.
pub data OpenBaoError : Type 0 where
  refused mismatch not_text invalid conflict bad_passwords : OpenBaoError

-- What read_secret and write_secret do on the state of the server, of which `held` is what it holds
-- under a path.
pub record Server : Type 1 where
  pub State : Type 0
  pub held : State → String → Option SecretRecord
  pub read : State → String → Result OpenBaoError (Option SecretRecord)
  pub write : State → String → Dict Value → ℕ → Bool × State

-- The record of the path holds these values.
abbrev pub Holds : Option SecretRecord → Dict Value → Type 0
Holds held values = (n : ℕ) × (held ≡ some (record { values = values; version = n }))

-- A read that is not refused returns what is held. A write that is not refused stores all the values;
-- one that is refused has stored them or not. Nothing else changes.
pub record IsLawful (server : Server) : Type 0 where
  pub read_held :
      (s : server.State) (path : String) (r : Option SecretRecord)
      → server.read s path ≡ ok r
      → r ≡ server.held s path
  pub write_other :
      (s : server.State) (path : String) (values : Dict Value) (cas : ℕ) (other : String)
      → str_eq path other ≡ false
      → server.held (server.write s path values cas).1 other ≡ server.held s other
  pub write_done :
      (s : server.State) (path : String) (values : Dict Value) (cas : ℕ)
      → (server.write s path values cas).0 ≡ true
      → Holds (server.held (server.write s path values cas).1 path) values
  pub write_refused :
      (s : server.State) (path : String) (values : Dict Value) (cas : ℕ)
      → (server.write s path values cas).0 ≡ false
      → (server.held (server.write s path values cas).1 path ≡ server.held s path)
        ⊎ Holds (server.held (server.write s path values cas).1 path) values

-- A run that may raise, over the states `W`.
abbrev pub Run : Type 0 → Type 0 → Type 0
Run W A = W → Result OpenBaoError A × W

abbrev pub return : {W A : Type 0} → A → Run W A
return a w = (ok a, w)

abbrev pub lift : {W A : Type 0} → Result OpenBaoError A → Run W A
lift r w = (r, w)

abbrev pub continue :
    {W A B : Type 0} → Result OpenBaoError A × W → (A → Run W B) → Result OpenBaoError B × W
continue (ok a, w) k = k a w
continue (err e, w) k = (err e, w)

infixl 5 ◌>>=◌
abbrev pub ◌>>=◌ : {W A B : Type 0} → Run W A → (A → Run W B) → Run W B
◌>>=◌ m k w = continue (m w) k

-- The state of the server, and how many random values were drawn.
pub record World (server : Server) : Type 0 where
  pub state : server.State
  pub drawn : ℕ

module _ (server : Server) where
  abbrev pub read_secret : String → Run (World server) (Option SecretRecord)
  read_secret path w = (server.read w.state path, w)

  abbrev pub answer : Bool → Result OpenBaoError (Unit {0})
  answer true = ok tt
  answer false = err refused

  abbrev pub write_secret : String → Dict Value → ℕ → Run (World server) (Unit {0})
  write_secret path values cas w =
      let sent = server.write w.state path values cas in
      (answer sent.0, record { state = sent.1; drawn = w.drawn })
