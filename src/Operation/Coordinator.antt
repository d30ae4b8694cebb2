-- ===== src/Operation/Coordinator.antt =====
-- internal/operation/coordinator.go and filelock_unix.go: callers of several processes, each with its
-- coordinator, over one lock file. A caller is a number, and `home` names its process. A step is one
-- action on the shared memory, on the channel or on the lock file, in any order of the callers.
mod Invariant
pub mod Exclusion
mod Tests
use m_ui.Prelude.{ℕ, ◌≡◌, Bool, true, false, Option, none, some, ◌==◌, if◌then◌else◌}

-- `token` says whether the channel holds its token.
pub record Coordinator : Type 0 where
  pub token : Bool
  pub active : Bool

abbrev pub new_coordinator : Coordinator
new_coordinator = record { token = true; active = false }

-- Which of the two functions a caller is in.
pub data Mode : Type 0 where
  acquire try_acquire : Mode

-- Where a caller stands: before the token; with the token, at the lock file; between two tries; about
-- to give the token back; with the lock; with the release function, not called yet; in the release
-- function, before each of its three actions.
pub data Pc : Type 0 where
  idle : Pc
  requesting trying polling : Mode → Pc
  giving_up locked running unlocking deactivating returning : Pc

-- How `tryPlatformFileLock` ends: the lock is taken where nobody has it, and busy where somebody has
-- it; opening and checking the file can fail.
pub data TryLock (i : ℕ) : Option ℕ → Option ℕ → Bool → Type 0 where
  taken : TryLock i none (some i) true
  busy : {j : ℕ} → TryLock i (some j) (some j) false

-- The actions of caller `i`, on its coordinator and on the owner of the lock file.
pub data Move (i : ℕ) : Coordinator → Option ℕ → Pc → Coordinator → Option ℕ → Pc → Type 0 where
  start : {c : Coordinator} {o : Option ℕ} (m : Mode) → Move i c o idle c o (requesting m)
  cancel : {c : Coordinator} {o : Option ℕ} → Move i c o (requesting acquire) c o idle
  take :
      {a : Bool} {o : Option ℕ} {m : Mode}
      → Move i
          (record { token = true; active = a })
          o
          (requesting m)
          (record { token = false; active = a })
          o
          (trying m)
  no_token :
      {a : Bool} {o : Option ℕ}
      → Move i
          (record { token = false; active = a })
          o
          (requesting try_acquire)
          (record { token = false; active = a })
          o
          idle
  lock :
      {c : Coordinator} {o new : Option ℕ} {m : Mode}
      → TryLock i o new true
      → Move i c o (trying m) c new locked
  lock_failed : {c : Coordinator} {o : Option ℕ} {m : Mode} → Move i c o (trying m) c o giving_up
  wait :
      {c : Coordinator} {o new : Option ℕ}
      → TryLock i o new false
      → Move i c o (trying acquire) c new (polling acquire)
  refuse_busy :
      {c : Coordinator} {o new : Option ℕ}
      → TryLock i o new false
      → Move i c o (trying try_acquire) c new giving_up
  again : {c : Coordinator} {o : Option ℕ} {m : Mode} → Move i c o (polling m) c o (trying m)
  cancel_polling :
      {c : Coordinator} {o : Option ℕ} {m : Mode} → Move i c o (polling m) c o giving_up
  release_local :
      {t a : Bool} {o : Option ℕ}
      → Move i
          (record { token = t; active = a })
          o
          giving_up
          (record { token = true; active = a })
          o
          idle
  activate :
      {t a : Bool} {o : Option ℕ}
      → Move i
          (record { token = t; active = a })
          o
          locked
          (record { token = t; active = true })
          o
          running
  release : {c : Coordinator} {o : Option ℕ} → Move i c o running c o unlocking
  -- The release function called again: its exchange of `released` fails.
  release_again : {c : Coordinator} {o : Option ℕ} {p : Pc} → Move i c o p c o p
  unlock : {c : Coordinator} {o : Option ℕ} → Move i c o unlocking c none deactivating
  deactivate :
      {t a : Bool} {o : Option ℕ}
      → Move i
          (record { token = t; active = a })
          o
          deactivating
          (record { token = t; active = false })
          o
          returning
  return_token :
      {t a : Bool} {o : Option ℕ}
      → Move i
          (record { token = t; active = a })
          o
          returning
          (record { token = true; active = a })
          o
          idle

abbrev pub update {ℓ} : {A : Type ℓ} → (ℕ → A) → ℕ → A → ℕ → A
update f i a j = if i == j then a else f j

pub record System : Type 0 where
  pub coordinator : ℕ → Coordinator  -- of a process
  pub owner : Option ℕ  -- of the lock on the file
  pub pc : ℕ → Pc  -- of a caller

abbrev pub initial : System
initial = record { coordinator = λ p. new_coordinator; owner = none; pc = λ i. idle }

pub data Step (home : ℕ → ℕ) (s : System) : System → Type 0 where
  pick :
      (i : ℕ) {c : Coordinator} {o : Option ℕ} {p : Pc}
      → Move i (s.coordinator (home i)) s.owner (s.pc i) c o p
      → Step home s (record {
        coordinator = update s.coordinator (home i) c;
        owner = o;
        pc = update s.pc i p;
      })

pub data Reachable (home : ℕ → ℕ) : System → Type 0 where
  at_start : Reachable home initial
  later : {s t : System} → Reachable home s → Step home s t → Reachable home t
