-- ===== src/Lock/Exclusion.antt =====
-- Two processes never hold the lock together as long as no file is taken for stale.
use sentinel_host.Prelude.{ℕ, false, ◌≡◌, ◌≢◌, ◌⊎◌, inl, inr, arith}
use sentinel_host.Lock.States.{
  absent, created_by, owned_by, Phase, idle, creating, writing, looking, removing, holding, refused,
  exited, killed, read_owner, State, move, Step, begin, create, open_fails, exists, write,
  close_fails, write_fails, read, read_fails, owner_alive, owner_dead, remove, remove_fails,
  release, release_fails, give_up, exit, kill, start, Steps, done, next, takes_over, Undisturbed,
}

-- The lock names whoever holds it, is its creator's until it is written, and is nobody's to remove.
pub record Guarded (s : State) : Type 0 where
  pub holder : (p : ℕ) → s.phase p ≡ holding → s.file ≡ owned_by p
  pub writer : (p : ℕ) → s.phase p ≡ writing → s.file ≡ created_by p
  pub no_remover : (p : ℕ) → s.phase p ≡ removing → ⊥

pub start-Guarded : Guarded start
start-Guarded = record {
  holder = λ p q. absurd (cc q);
  writer = λ p q. absurd (cc q);
  no_remover = λ p q. cc q;
}

-- Phases that neither hold, write nor remove the file.
abbrev Harmless : Phase → Type 0
Harmless ph = (ph ≢ holding) × (ph ≢ writing) × (ph ≢ removing)

-- A step to such a phase that leaves the file alone.
Harmless-Guarded :
    (p : ℕ) (ph : Phase) (s : State) → Harmless ph → Guarded s → Guarded (move p ph s.file s)
Harmless-Guarded p ph s h g = record {
  holder = λ q e. ground (arith, g.holder q, h.0);
  writer = λ q e. ground (arith, g.writer q, h.1);
  no_remover = λ q e. ground (arith, g.no_remover q, h.2);
}

-- The file goes away with the one process that held it or wrote it.
cleared-Guarded :
    (p : ℕ) (ph : Phase) (s : State)
    → Harmless ph
    → (s.phase p ≡ holding) ⊎ (s.phase p ≡ writing)
    → Guarded s
    → Guarded (move p ph absent s)
cleared-Guarded p ph s h was g = record {
  holder = λ q e. ground (arith, g.holder q, g.holder p, g.writer p, h.0);
  writer = λ q e. ground (arith, g.writer q, g.holder p, g.writer p, h.1);
  no_remover = λ q e. ground (arith, g.no_remover q, h.2);
}

Step-Guarded : {s t : State} (st : Step s t) → takes_over st ≡ false → Guarded s → Guarded t
Step-Guarded (begin p s h) u g = Harmless-Guarded p creating s (λ q. cc q, λ q. cc q, λ q. cc q) g
Step-Guarded (create p s h a) u g = record {
  holder = λ q e. ground (arith, g.holder q);
  writer = λ q e. ground (arith, g.writer q);
  no_remover = λ q e. ground (arith, g.no_remover q);
}
Step-Guarded (open_fails p s h) u g =
    Harmless-Guarded p refused s (λ q. cc q, λ q. cc q, λ q. cc q) g
Step-Guarded (exists p s h n) u g = Harmless-Guarded p looking s (λ q. cc q, λ q. cc q, λ q. cc q) g
Step-Guarded (write p s h) u g = record {
  holder = λ q e. ground (arith, g.holder q, g.writer p);
  writer = λ q e. ground (arith, g.writer q, g.writer p);
  no_remover = λ q e. ground (arith, g.no_remover q);
}
Step-Guarded (close_fails p s h) u g = record {
  holder = λ q e. ground (arith, g.holder q, g.writer p);
  writer = λ q e. ground (arith, g.writer q, g.writer p);
  no_remover = λ q e. ground (arith, g.no_remover q);
}
Step-Guarded (write_fails p s h) u g =
    cleared-Guarded p refused s (λ q. cc q, λ q. cc q, λ q. cc q) (inr h) g
Step-Guarded (read p o s h f) u g =
    Harmless-Guarded p (read_owner o) s (λ q. cc q, λ q. cc q, λ q. cc q) g
Step-Guarded (read_fails p s h) u g =
    Harmless-Guarded p refused s (λ q. cc q, λ q. cc q, λ q. cc q) g
Step-Guarded (owner_alive p o s h a) u g =
    Harmless-Guarded p refused s (λ q. cc q, λ q. cc q, λ q. cc q) g
Step-Guarded (owner_dead p o s h a) u g = absurd (cc u)
Step-Guarded (remove p s h) u g = absurd (g.no_remover p h)
Step-Guarded (remove_fails p s h) u g = absurd (g.no_remover p h)
Step-Guarded (release p s h) u g =
    cleared-Guarded p idle s (λ q. cc q, λ q. cc q, λ q. cc q) (inl h) g
Step-Guarded (release_fails p s h) u g =
    Harmless-Guarded p idle s (λ q. cc q, λ q. cc q, λ q. cc q) g
Step-Guarded (give_up p s h) u g = Harmless-Guarded p idle s (λ q. cc q, λ q. cc q, λ q. cc q) g
Step-Guarded (exit p s h) u g = Harmless-Guarded p exited s (λ q. cc q, λ q. cc q, λ q. cc q) g
Step-Guarded (kill p s) u g = Harmless-Guarded p killed s (λ q. cc q, λ q. cc q, λ q. cc q) g

pub Steps-Guarded : {s t : State} (steps : Steps s t) → Undisturbed steps → Guarded s → Guarded t
Steps-Guarded (done s) u g = g
Steps-Guarded (next s t w before st) u g = Step-Guarded st u.1 (Steps-Guarded before u.0 g)

-- Two processes never hold the lock together, in every state that is reached from the empty one without
-- a process taking the file for stale, whatever processes exit or are killed on the way.
pub mutual_exclusion :
    (s : State) (steps : Steps start s)
    → Undisturbed steps
    → (p q : ℕ) → s.phase p ≡ holding
    → s.phase q ≡ holding
    → p ≡ q
mutual_exclusion s steps u p q hp hq =
    let g = Steps-Guarded steps u start-Guarded in cc (g.holder p hp, g.holder q hq)
