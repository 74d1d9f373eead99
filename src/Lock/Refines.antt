-- ===== src/Lock/Refines.antt =====
-- The lock file implements a mutex, as long as no file is taken for stale.
use mathlib.Core.Path.{subst}
use sentinel_host.Prelude.{
  ℕ, ◌==◌, ◌≡◌, refl, ◌≢◌, Option, none, some, List, [], ◌∷◌, ◌++◌, sym, ap, ◌∙◌, inl, inr,
  Bool-cases, arith,
}
use sentinel_host.Lock.States.{
  LockFile, absent, created_by, Phase, idle, creating, writing, looking, removing, holding, refused,
  exited, killed, read_owner, State, move, written, Step, begin, create, open_fails, exists, write,
  close_fails, write_fails, read, read_fails, owner_alive, owner_dead, remove, remove_fails,
  release, release_fails, give_up, exit, kill, start, Steps, done, next, Undisturbed,
}
use sentinel_host.Lock.Exclusion.{Guarded, Steps-Guarded, start-Guarded, mutual_exclusion}

-- What a process is told: `Acquire` has returned with the lock, or the process is rid of it, by `Release` or
-- because it was killed.
pub data Event : Type 0 where
  acquired released : ℕ → Event

-- A kill releases the lock of the process that held it, and of no other.
abbrev pub end_of : ℕ → Phase → List Event
end_of p holding = released p ∷ []
end_of p _ = []

abbrev pub label : {s t : State} → Step s t → List Event
label (write p s h) = acquired p ∷ []
label (release p s h) = released p ∷ []
label (release_fails p s h) = released p ∷ []
label (kill p s) = end_of p (s.phase p)
label _ = []

-- The events of a run, the last one first.
abbrev pub history : {s t : State} → Steps s t → List Event
history (done s) = []
history (next s t u before st) = label st ++ history before

-- A mutex: it is acquired when it is free, and released by whoever holds it.
pub data MutexRun : List Event → Option ℕ → Type 0 where
  free : MutexRun [] none
  taken : (p : ℕ) (es : List Event) → MutexRun es none → MutexRun (acquired p ∷ es) (some p)
  given_up : (p : ℕ) (es : List Event) → MutexRun es (some p) → MutexRun (released p ∷ es) none

-- Who holds the mutex when the processes stand as they do.
abbrev Shows : State → Option ℕ → Type 0
Shows s none = (q : ℕ) → s.phase q ≢ holding
Shows s (some p) = s.phase p ≡ holding

-- Nobody holds the lock, or this process and no other.
abbrev pub HeldBy : State → Option ℕ → Type 0
HeldBy s none = (q : ℕ) → s.phase q ≢ holding
HeldBy s (some p) = (s.phase p ≡ holding) × ((q : ℕ) → s.phase q ≡ holding → q ≡ p)

-- A process that neither held the lock nor gets it.
move-Shows :
    (p : ℕ) (ph was : Phase) (f : LockFile) (s : State) (o : Option ℕ)
    → s.phase p ≡ was
    → was ≢ holding
    → ph ≢ holding
    → Shows s o
    → Shows (move p ph f s) o
move-Shows p ph was f s none h n m k = λ q e. ground (arith, k q, m)
move-Shows p ph was f s (some r) h n m k = elim (Bool-cases (p == r)) [
  | inl t ↦ let same : p ≡ r = ground arith in absurd (n (sym h ∙ (ap s.phase same ∙ k)))
  | inr t ↦ ground (arith, k)
]

-- The mutex after a step with these events.
abbrev Follows : List Event → State → Type 0
Follows es t = (v : Option ℕ) × MutexRun es v × Shows t v

-- The lock is taken: the file was the writer's, so nobody held it.
taken-Follows :
    (p : ℕ) (f : LockFile) (s : State) (es : List Event) (o : Option ℕ)
    → s.phase p ≡ writing
    → Guarded s
    → MutexRun es o
    → Shows s o
    → Follows (acquired p ∷ es) (move p holding f s)
taken-Follows p f s es none h g m k = (some p, taken p es m, ground arith)
taken-Follows p f s es (some r) h g m k = absurd (cc (g.holder r k, g.writer p h))

-- Whoever gives the lock up is the one who is shown.
dropped-Follows :
    (p : ℕ) (ph : Phase) (f : LockFile) (s : State) (es : List Event) (o : Option ℕ)
    → s.phase p ≡ holding
    → ph ≢ holding
    → Guarded s
    → MutexRun es o
    → Shows s o
    → Follows (released p ∷ es) (move p ph f s)
dropped-Follows p ph f s es none h n g m k = absurd (k p h)
dropped-Follows p ph f s es (some r) h n g m k =
    let same : r ≡ p = cc (g.holder r k, g.holder p h) in
    (
      none,
      given_up p es (subst (λ x. MutexRun es (some x)) same m),
      λ q e. ground (arith, g.holder p h, g.holder q, n),
    )

move-Follows :
    (p : ℕ) (ph was : Phase) (f : LockFile) (s : State) (es : List Event) (o : Option ℕ)
    → s.phase p ≡ was
    → was ≢ holding
    → ph ≢ holding
    → MutexRun es o
    → Shows s o
    → Follows es (move p ph f s)
move-Follows p ph was f s es o h n k m w = (o, m, move-Shows p ph was f s o h n k w)

killed-Follows :
    (p : ℕ) (was : Phase) (s : State) (es : List Event) (o : Option ℕ)
    → s.phase p ≡ was
    → Guarded s
    → MutexRun es o
    → Shows s o
    → Follows (end_of p was ++ es) (move p killed s.file s)
killed-Follows p holding s es o h g m k = dropped-Follows p killed s.file s es o h (λ q. cc q) g m k
killed-Follows p idle s es o h g m k =
    move-Follows p killed idle s.file s es o h (λ e. cc e) (λ e. cc e) m k
killed-Follows p creating s es o h g m k =
    move-Follows p killed creating s.file s es o h (λ e. cc e) (λ e. cc e) m k
killed-Follows p writing s es o h g m k =
    move-Follows p killed writing s.file s es o h (λ e. cc e) (λ e. cc e) m k
killed-Follows p looking s es o h g m k =
    move-Follows p killed looking s.file s es o h (λ e. cc e) (λ e. cc e) m k
killed-Follows p removing s es o h g m k =
    move-Follows p killed removing s.file s es o h (λ e. cc e) (λ e. cc e) m k
killed-Follows p refused s es o h g m k =
    move-Follows p killed refused s.file s es o h (λ e. cc e) (λ e. cc e) m k
killed-Follows p exited s es o h g m k =
    move-Follows p killed exited s.file s es o h (λ e. cc e) (λ e. cc e) m k
killed-Follows p killed s es o h g m k =
    move-Follows p killed killed s.file s es o h (λ e. cc e) (λ e. cc e) m k
killed-Follows p (read_owner q) s es o h g m k =
    move-Follows p killed (read_owner q) s.file s es o h (λ e. cc e) (λ e. cc e) m k

Step-Follows :
    {s t : State} (st : Step s t) (es : List Event) (o : Option ℕ)
    → Guarded s
    → MutexRun es o
    → Shows s o
    → Follows (label st ++ es) t
Step-Follows (begin p s h) es o g m k =
    move-Follows p creating idle s.file s es o h (λ q. cc q) (λ q. cc q) m k
Step-Follows (create p s h a) es o g m k =
    move-Follows p writing creating (created_by p) s es o h (λ q. cc q) (λ q. cc q) m k
Step-Follows (open_fails p s h) es o g m k =
    move-Follows p refused creating s.file s es o h (λ q. cc q) (λ q. cc q) m k
Step-Follows (exists p s h n) es o g m k =
    move-Follows p looking creating s.file s es o h (λ q. cc q) (λ q. cc q) m k
Step-Follows (write p s h) es o g m k = taken-Follows p (written p s.file) s es o h g m k
Step-Follows (close_fails p s h) es o g m k =
    move-Follows p refused writing (written p s.file) s es o h (λ q. cc q) (λ q. cc q) m k
Step-Follows (write_fails p s h) es o g m k =
    move-Follows p refused writing absent s es o h (λ q. cc q) (λ q. cc q) m k
Step-Follows (read p q s h f) es o g m k =
    move-Follows p (read_owner q) looking s.file s es o h (λ q. cc q) (λ q. cc q) m k
Step-Follows (read_fails p s h) es o g m k =
    move-Follows p refused looking s.file s es o h (λ q. cc q) (λ q. cc q) m k
Step-Follows (owner_alive p q s h a) es o g m k =
    move-Follows p refused (read_owner q) s.file s es o h (λ q. cc q) (λ q. cc q) m k
Step-Follows (owner_dead p q s h a) es o g m k =
    move-Follows p removing (read_owner q) s.file s es o h (λ q. cc q) (λ q. cc q) m k
Step-Follows (remove p s h) es o g m k =
    move-Follows p creating removing absent s es o h (λ q. cc q) (λ q. cc q) m k
Step-Follows (remove_fails p s h) es o g m k =
    move-Follows p refused removing s.file s es o h (λ q. cc q) (λ q. cc q) m k
Step-Follows (release p s h) es o g m k = dropped-Follows p idle absent s es o h (λ q. cc q) g m k
Step-Follows (release_fails p s h) es o g m k =
    dropped-Follows p idle s.file s es o h (λ q. cc q) g m k
Step-Follows (give_up p s h) es o g m k =
    move-Follows p idle refused s.file s es o h (λ q. cc q) (λ q. cc q) m k
Step-Follows (exit p s h) es o g m k =
    move-Follows p exited idle s.file s es o h (λ q. cc q) (λ q. cc q) m k
Step-Follows (kill p s) es o g m k = killed-Follows p (s.phase p) s es o refl g m k

Steps-Follows : {s : State} (steps : Steps start s) → Undisturbed steps → Follows (history steps) s
Steps-Follows (done _) u = (none, free, (λ q e. cc e))
Steps-Follows (next _ s t before st) u =
    let (o, run, k) = Steps-Follows before u.0 in
    Step-Follows st (history before) o (Steps-Guarded before u.0 start-Guarded) run k

-- The lock file refines a mutex: as long as no file is taken for stale, the acquisitions and the ends of the
-- possession of the lock (a release, or the kill of its holder) are, in their order, a run of a mutex that
-- is acquired only when it is free and given up only by its holder; and who holds the lock at the end is
-- the holder of the mutex, and no other process.
pub Steps-MutexRun :
    (s : State) (steps : Steps start s)
    → Undisturbed steps
    → (o : Option ℕ) × MutexRun (history steps) o × HeldBy s o
Steps-MutexRun s steps u = named (Steps-Follows steps u)
  where
    named : Follows (history steps) s → (o : Option ℕ) × MutexRun (history steps) o × HeldBy s o
    named (none, run, k) = (none, run, k)
    named (some p, run, k) = (some p, run, (k, (λ q h. mutual_exclusion s steps u q p h k)))
