-- ===== src/Lock/Race.antt =====
-- Without any kill, a process that finds the file of one that is done can end up holding the lock together
-- with another.
use mathlib.Core.Path.{subst}
use sentinel_host.Prelude.{ℕ, ◌≡◌, ◌≢◌, refl, arith}
use sentinel_host.Lock.States.{
  LockFile, absent, created_by, owned_by, idle, creating, writing, looking, removing, holding,
  exited, killed, read_owner, State, move, Step, begin, create, exists, write, read, owner_dead,
  remove, release, exit, start, Steps, done, next,
}

module _ (a b c : ℕ) (ab : a ≢ b) (ac : a ≢ c) (bc : b ≢ c) where
  -- `a` takes the lock, and `b` reads that `a` owns it; `a` releases the lock and exits, and `c` takes it; then
  -- `b` finds `a` dead, removes the file, which is the one of `c`, and takes the lock.
  abbrev s1 : State
  s1 = move a creating absent start

  abbrev s2 : State
  s2 = move a writing (created_by a) s1

  abbrev s3 : State
  s3 = move a holding (owned_by a) s2

  abbrev s4 : State
  s4 = move b creating (owned_by a) s3

  abbrev s5 : State
  s5 = move b looking (owned_by a) s4

  abbrev s6 : State
  s6 = move b (read_owner a) (owned_by a) s5

  abbrev s7 : State
  s7 = move a idle absent s6

  abbrev s8 : State
  s8 = move a exited absent s7

  abbrev s9 : State
  s9 = move c creating absent s8

  abbrev s10 : State
  s10 = move c writing (created_by c) s9

  abbrev s11 : State
  s11 = move c holding (owned_by c) s10

  abbrev s12 : State
  s12 = move b removing (owned_by c) s11

  abbrev s13 : State
  s13 = move b creating absent s12

  abbrev s14 : State
  s14 = move b writing (created_by b) s13

  abbrev s15 : State
  s15 = move b holding (owned_by b) s14

  -- A process that writes the file that it has created.
  written_own :
      (p : ℕ) (s : State)
      → s.phase p ≡ writing
      → s.file ≡ created_by p
      → Step s (move p holding (owned_by p) s)
  written_own p s h f =
      subst (λ (x : LockFile). Step s (move p holding x s)) (ground arith) (write p s h)

  steps1 : Steps start s1
  steps1 = next start start s1 (done start) (begin a start (ground arith))

  steps2 : Steps start s2
  steps2 = next start s1 s2 steps1 (create a s1 (ground arith) refl)

  steps3 : Steps start s3
  steps3 = next start s2 s3 steps2 (written_own a s2 (ground arith) refl)

  steps4 : Steps start s4
  steps4 = next start s3 s4 steps3 (begin b s3 (ground arith))

  steps5 : Steps start s5
  steps5 = next start s4 s5 steps4 (exists b s4 (ground arith) (λ q. cc q))

  steps6 : Steps start s6
  steps6 = next start s5 s6 steps5 (read b a s5 (ground arith) refl)

  steps7 : Steps start s7
  steps7 = next start s6 s7 steps6 (release a s6 (ground arith))

  steps8 : Steps start s8
  steps8 = next start s7 s8 steps7 (exit a s7 (ground arith))

  steps9 : Steps start s9
  steps9 = next start s8 s9 steps8 (begin c s8 (ground arith))

  steps10 : Steps start s10
  steps10 = next start s9 s10 steps9 (create c s9 (ground arith) refl)

  steps11 : Steps start s11
  steps11 = next start s10 s11 steps10 (written_own c s10 (ground arith) refl)

  steps12 : Steps start s12
  steps12 = next start s11 s12 steps11 (owner_dead b a s11 (ground arith) (ground arith))

  steps13 : Steps start s13
  steps13 = next start s12 s13 steps12 (remove b s12 (ground arith))

  steps14 : Steps start s14
  steps14 = next start s13 s14 steps13 (create b s13 (ground arith) refl)

  steps15 : Steps start s15
  steps15 = next start s14 s15 steps14 (written_own b s14 (ground arith) refl)

  -- Two processes that hold the lock together, in a state that is reached though nobody was ever killed.
  pub record HeldTwice : Type 0 where
    pub reached : State
    pub steps : Steps start reached
    pub first_done : reached.phase a ≡ exited
    pub second_holds : reached.phase b ≡ holding
    pub third_holds : reached.phase c ≡ holding
    pub nobody_killed : (p : ℕ) → reached.phase p ≢ killed

  -- The lock can be held twice without any kill: for any three processes there is a sequence of steps from the
  -- empty state after which the first has exited, the other two both hold the lock, and no process is
  -- killed.
  pub held_twice : HeldTwice
  held_twice = record {
    reached = s15;
    steps = steps15;
    first_done = ground arith;
    second_holds = ground arith;
    third_holds = ground arith;
    nobody_killed = λ p q. ground arith;
  }
