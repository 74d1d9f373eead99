-- ===== src/Lock/States.antt =====
-- lock.go as a step relation: processes that run `Acquire` and `Release` on one file, one call of the
-- operating system at a time, that exit when they are done, and a host that may kill them.
use sentinel_host.Prelude.{ℕ, Bool, true, false, ◌==◌, if◌then◌else◌, ◌≡◌}

-- The file: absent, created by a process that has not written it yet, or naming its owner.
pub data LockFile : Type 0 where
  absent : LockFile
  created_by owned_by : ℕ → LockFile

-- Where a process stands. `creating` is before the exclusive creation, `looking` after it was refused,
-- `read_owner` after the file was read, and `removing` after its owner was found dead.
pub data Phase : Type 0 where
  idle creating writing looking removing holding refused exited killed : Phase
  read_owner : ℕ → Phase

pub record State : Type 0 where
  pub file : LockFile
  pub phase : ℕ → Phase

-- `processAlive`; a process is alive until it exits or is killed, and its number is not used again.
abbrev pub alive : State → ℕ → Bool
alive s p = elim (s.phase p) [ exited ↦ false | killed ↦ false | _ ↦ true ]

abbrev pub at : ℕ → Phase → (ℕ → Phase) → ℕ → Phase
at p ph phase q = if p == q then ph else phase q

abbrev pub move : ℕ → Phase → LockFile → State → State
move p ph f s = record { file = f; phase = at p ph s.phase }

-- The content of the file of a process that writes: a file that was removed meanwhile stays removed.
abbrev pub written : ℕ → LockFile → LockFile
written p absent = absent
written p (owned_by q) = owned_by q
written p (created_by q) = if p == q then owned_by q else created_by q

-- One step. Each constructor is one call, with what it finds.
pub data Step : State → State → Type 0 where
  begin : (p : ℕ) (s : State) → s.phase p ≡ idle → Step s (move p creating s.file s)
  create :
      (p : ℕ) (s : State)
      → s.phase p ≡ creating
      → s.file ≡ absent
      → Step s (move p writing (created_by p) s)
  open_fails : (p : ℕ) (s : State) → s.phase p ≡ creating → Step s (move p refused s.file s)
  exists :
      (p : ℕ) (s : State)
      → s.phase p ≡ creating
      → ¬ (s.file ≡ absent)
      → Step s (move p looking s.file s)
  write : (p : ℕ) (s : State) → s.phase p ≡ writing → Step s (move p holding (written p s.file) s)
  close_fails :
      (p : ℕ) (s : State) → s.phase p ≡ writing → Step s (move p refused (written p s.file) s)
  write_fails : (p : ℕ) (s : State) → s.phase p ≡ writing → Step s (move p refused absent s)
  read :
      (p q : ℕ) (s : State)
      → s.phase p ≡ looking
      → s.file ≡ owned_by q
      → Step s (move p (read_owner q) s.file s)
  read_fails : (p : ℕ) (s : State) → s.phase p ≡ looking → Step s (move p refused s.file s)
  owner_alive :
      (p q : ℕ) (s : State)
      → s.phase p ≡ read_owner q
      → alive s q ≡ true
      → Step s (move p refused s.file s)
  owner_dead :
      (p q : ℕ) (s : State)
      → s.phase p ≡ read_owner q
      → alive s q ≡ false
      → Step s (move p removing s.file s)
  remove : (p : ℕ) (s : State) → s.phase p ≡ removing → Step s (move p creating absent s)
  remove_fails : (p : ℕ) (s : State) → s.phase p ≡ removing → Step s (move p refused s.file s)
  release : (p : ℕ) (s : State) → s.phase p ≡ holding → Step s (move p idle absent s)
  release_fails : (p : ℕ) (s : State) → s.phase p ≡ holding → Step s (move p idle s.file s)
  give_up : (p : ℕ) (s : State) → s.phase p ≡ refused → Step s (move p idle s.file s)
  exit : (p : ℕ) (s : State) → s.phase p ≡ idle → Step s (move p exited s.file s)
  kill : (p : ℕ) (s : State) → Step s (move p killed s.file s)

-- No process and no file.
abbrev pub start : State
start = record { file = absent; phase = λ p. idle }

-- Several steps.
pub data Steps : State → State → Type 0 where
  done : (s : State) → Steps s s
  next : (s t u : State) → Steps s t → Step t u → Steps s u

-- A process takes the file for stale: its owner is not alive.
abbrev pub takes_over : {s t : State} → Step s t → Bool
takes_over (owner_dead p q s h a) = true
takes_over _ = false

-- No file is taken for stale.
abbrev pub Undisturbed : {s t : State} → Steps s t → Type 0
Undisturbed (done s) = Unit
Undisturbed (next s t u before st) = Undisturbed before × (takes_over st ≡ false)
