-- ===== src/Lock/Tests.antt =====
-- One process that takes the lock, and three of which two hold it.
use sentinel_host.Prelude.{ℕ, Option, ◌≡◌, refl, arith}
use sentinel_host.Lock.States.{
  absent, created_by, owned_by, creating, writing, holding, State, move, begin, create, write,
  start, Steps, done, next, Undisturbed,
}
use sentinel_host.Lock.Exclusion.{mutual_exclusion}
use sentinel_host.Lock.Refines.{MutexRun, history, HeldBy, Steps-MutexRun}
use sentinel_host.Lock.Race.{HeldTwice, held_twice}

abbrev s1 : State
s1 = move 7 creating absent start

abbrev s2 : State
s2 = move 7 writing (created_by 7) s1

abbrev s3 : State
s3 = move 7 holding (owned_by 7) s2

abbrev taken : Steps start s3
taken =
    next start s2 s3
      (next start s1 s2 (next start start s1 (done start) (begin 7 start refl))
        (create 7 s1 refl refl))
      (write 7 s2 refl)

taken-Undisturbed : Undisturbed taken
taken-Undisturbed = (((tt, refl), refl), refl)

abbrev me : ℕ
me = 7

mutual_exclusion_example : me ≡ me
mutual_exclusion_example = mutual_exclusion s3 taken taken-Undisturbed 7 7 refl refl

held_twice_example : HeldTwice 1 2 3 (omega arith) (omega arith) (omega arith)
held_twice_example = held_twice 1 2 3 (omega arith) (omega arith) (omega arith)

Steps-MutexRun_example : (o : Option ℕ) × MutexRun (history taken) o × HeldBy s3 o
Steps-MutexRun_example = Steps-MutexRun s3 taken taken-Undisturbed
