-- ===== src/Web/Limit.antt =====
-- How many passwords one address may try.
use mathlib.Core.Path.{subst}
use sentinel_host.Prelude.{
  ℕ, suc, true, false, ◌+◌, ◌*◌, ◌/◌, ◌≤◌, ◌<◌, List, [], ◌∷◌, ◌++◌, Text, text_eq, text_eq_iff,
  length, length-append, ltb, leb, ◌≡◌, refl, sym, ◌⊎◌, inl, inr, Bool-cases, arith, if◌then◌else◌,
}
use sentinel_host.Web.Login.{
  second, Counters, Panel, Request, is_recent, recent_attempts, set_counter, record_login, allow,
  LoginResult, too_many, logged_in, answer, after_login, handle_login, bad_body, no_password,
  wrong_password,
}

-- The times of the attempts of an address that were answered and failed, since its last login.
unfoldable pub note : Text → Request → LoginResult → List ℕ → List ℕ
note q r too_many h = h
note q r logged_in h = if text_eq r.ip q then [] else h
note q r _ h = if text_eq r.ip q then r.now ∷ h else h

unfoldable pub serve : Panel → Text → List Request → Counters → List ℕ → Counters × List ℕ
unfolding note handle_login
serve p q [] c h = (c, h)
serve p q (r ∷ rs) c h =
    let (result, next) = handle_login p r c in serve p q rs next (note q r result h)

-- How many of the times are less than 59 seconds ago.
abbrev pub tries_before : ℕ → List ℕ → ℕ
tries_before now [] = 0
tries_before now (t ∷ ts) =
    if ltb now (t + 59 * second) then suc (tries_before now ts) else tries_before now ts

-- Every failed attempt of the last 59 seconds is still counted, and no counter exceeds the limit.
abbrev Counted : Panel → ℕ → List ℕ → List ℕ → Type 0
Counted p from ns h =
    (length ns ≤ p.per_min)
    × ((now : ℕ) → from ≤ now → tries_before now h ≤ length (recent_attempts now ns))

length-recent_attempts : (now : ℕ) (ns : List ℕ) → length (recent_attempts now ns) ≤ length ns
unfolding recent_attempts
length-recent_attempts now [] = omega arith
length-recent_attempts now (n ∷ ns) = ground (arith, length-recent_attempts now ns)

-- What is recent later was recent before.
recent_attempts_twice :
    (now later : ℕ) (ns : List ℕ)
    → now ≤ later
    → recent_attempts later (recent_attempts now ns) ≡ recent_attempts later ns
unfolding recent_attempts
recent_attempts_twice now later [] h = refl
recent_attempts_twice now later (n ∷ ns) h = ground (arith, recent_attempts_twice now later ns)

recent_attempts-append :
    (now n : ℕ) (ns : List ℕ)
    → length (recent_attempts now (ns ++ n ∷ []))
      ≡ length (recent_attempts now ns) + (if is_recent now n then 1 else 0)
unfolding recent_attempts
recent_attempts-append now n [] = ground arith
recent_attempts-append now n (m ∷ ns) = ground (arith, recent_attempts-append now n ns)

kept-Counted :
    (p : Panel) (from now : ℕ) (ns h : List ℕ)
    → from ≤ now
    → Counted p from ns h
    → Counted p now (recent_attempts now ns) h
kept-Counted p from now ns h le (few, all) = (
  omega (arith, few, length-recent_attempts now ns),
  (λ later l. rw (recent_attempts_twice now later ns l) (all later (omega arith))),
)

-- A second that is cut off is less than a second.
cut_off : (now : ℕ) → now < now / second * second + second
cut_off now = omega arith

added-Counted :
    (p : Panel) (from now : ℕ) (ns h : List ℕ)
    → from ≤ now
    → Counted p from ns h
    → length (recent_attempts now ns) < p.per_min
    → Counted p now (recent_attempts now ns ++ now / second ∷ []) (now ∷ h)
added-Counted p from now ns h le c room = (
  omega (arith, length-append (recent_attempts now ns) (now / second ∷ []), room),
  (λ later l.
      let before = (kept-Counted p from now ns h le c).1 later l in
      let more = recent_attempts-append later (now / second) (recent_attempts now ns) in
      ground (arith, before, more, cut_off now)),
)

fewer-Counted :
    (p : Panel) (from t : ℕ) (ns h : List ℕ) → Counted p from ns (t ∷ h) → Counted p from ns h
fewer-Counted p from t ns h (few, all) =
    (few, (λ later l. let bound = all later l in ground (arith, bound)))

later-Counted :
    (p : Panel) (from now : ℕ) (ns h : List ℕ)
    → from ≤ now
    → Counted p from ns h
    → Counted p now ns h
later-Counted p from now ns h le (few, all) = (few, (λ later l. all later (omega arith)))

-- The counter of the address after the password was looked at.
after_login-Counted :
    (p : Panel) (q : Text) (r : Request) (res : LoginResult) (c : Counters) (h : List ℕ)
    → text_eq r.ip q ≡ true
    → r.write_works ≡ true
    → Counted p r.now (c q) (r.now ∷ h)
    → Counted p r.now (after_login r res c q) (note q r res h)
unfolding after_login note record_login
after_login-Counted p q r too_many c h e w k = fewer-Counted p r.now r.now (c q) h k
after_login-Counted p q r bad_body c h e w k = rw e k
after_login-Counted p q r no_password c h e w k = rw e k
after_login-Counted p q r wrong_password c h e w k = rw e k
after_login-Counted p q r logged_in c h e w k = rw (w, e) (omega arith, (λ later l. omega arith))

after_login-other :
    (q : Text) (r : Request) (res : LoginResult) (c : Counters) (h : List ℕ)
    → text_eq r.ip q ≡ false
    → (after_login r res c q ≡ c q) × (note q r res h ≡ h)
unfolding after_login note record_login
after_login-other q r too_many c h e = (refl, refl)
after_login-other q r bad_body c h e = (refl, rw e refl)
after_login-other q r no_password c h e = (refl, rw e refl)
after_login-other q r wrong_password c h e = (refl, rw e refl)
after_login-other q r logged_in c h e = (ground (arith, e), rw e refl)

-- With a database that works, an attempt is refused at the limit and counted below it.
allow_cases :
    (p : Panel) (r : Request) (c : Counters)
    → r.query_works ≡ true
    → r.write_works ≡ true
    → let recent = recent_attempts r.now (c r.ip) in
      (allow p r c ≡ (false, set_counter r.ip recent c))
      ⊎ ((length recent < p.per_min)
          × (allow p r c ≡ (true, set_counter r.ip (recent ++ r.now / second ∷ []) c)))
unfolding allow record_login
allow_cases p r c reads writes =
    elim (Bool-cases (leb p.per_min (length (recent_attempts r.now (c r.ip))))) [
      | inl t ↦ inl (rw (reads, writes, t) refl)
      | inr f ↦ inr (ground (arith, f), rw (reads, writes, f) refl)
    ]

set_counter_same :
    (ip q : Text) (ns : List ℕ) (c : Counters) → text_eq ip q ≡ true → set_counter ip ns c q ≡ ns
set_counter_same ip q ns c e = rw e refl

set_counter_other :
    (ip q : Text) (ns : List ℕ) (c : Counters) → text_eq ip q ≡ false → set_counter ip ns c q ≡ c q
set_counter_other ip q ns c e = rw e refl

handle_login-Counted :
    (p : Panel) (q : Text) (r : Request) (c : Counters) (h : List ℕ) (from : ℕ)
    → from ≤ r.now
    → r.query_works ≡ true
    → r.write_works ≡ true
    → Counted p from (c q) h
    → let out = handle_login p r c in Counted p r.now (out.1 q) (note q r out.0 h)
unfolding handle_login note
handle_login-Counted p q r c h from le reads writes k =
    let recent = recent_attempts r.now (c r.ip) in
    let added = recent ++ r.now / second ∷ [] in
    elim (Bool-cases (text_eq r.ip q)) [
      | inl e ↦
          let mine : Counted p from (c r.ip) h =
            subst (λ i. Counted p from (c i) h) (sym ((text_eq_iff r.ip q).0 e)) k in
          elim (allow_cases p r c reads writes) [
            | inl refused ↦ rw (refused, e) (kept-Counted p from r.now (c r.ip) h le mine)
            | inr (room, passed) ↦ rw passed (
                after_login-Counted p q r (answer p r.password) (set_counter r.ip added c) h e
                  writes
                  (subst (λ ns. Counted p r.now ns (r.now ∷ h))
                    (sym (set_counter_same r.ip q added c e))
                    (added-Counted p from r.now (c r.ip) h le mine room)))
          ]
      | inr e ↦ elim (allow_cases p r c reads writes) [
        | inl refused ↦ rw (refused, e) (later-Counted p from r.now (c q) h le k)
        | inr (room, passed) ↦
            let (same, still) =
              after_login-other q r (answer p r.password) (set_counter r.ip added c) h e in
            rw (passed, same, still, e) (later-Counted p from r.now (c q) h le k)
      ]
    ]

-- Requests in the order of their times, while the database works.
abbrev pub Timely : ℕ → List Request → Type 0
Timely from [] = Unit
Timely from (r ∷ rs) =
    (from ≤ r.now) × (r.query_works ≡ true) × (r.write_works ≡ true) × Timely r.now rs

abbrev pub last_time : ℕ → List Request → ℕ
last_time from [] = from
last_time from (r ∷ rs) = last_time r.now rs

serve-Counted :
    (p : Panel) (q : Text) (rs : List Request) (c : Counters) (h : List ℕ) (from : ℕ)
    → Timely from rs
    → Counted p from (c q) h
    → let out = serve p q rs c h in Counted p (last_time from rs) (out.0 q) out.1
unfolding serve
serve-Counted p q [] c h from t k = k
serve-Counted p q (r ∷ rs) c h from t k =
    let out = handle_login p r c in
    serve-Counted p q rs out.1 (note q r out.0 h) r.now t.3
      (handle_login-Counted p q r c h from t.0 t.1 t.2 k)

-- The limit of logins holds: requests of any addresses are answered in the order of their times with a
-- database that works, and the counter of an address starts within the limit; then at any later
-- time, at most `per_min` attempts of that address since its last login have had their password looked at
-- within the last 59 seconds.
pub serve_bounded :
    (p : Panel) (q : Text) (rs : List Request) (c : Counters) (now : ℕ)
    → Timely 0 rs
    → length (c q) ≤ p.per_min
    → last_time 0 rs ≤ now
    → tries_before now (serve p q rs c []).1 ≤ p.per_min
serve_bounded p q rs c now t few l =
    let (room, all) = serve-Counted p q rs c [] 0 t (few, (λ later k. omega arith)) in
    let out = serve p q rs c [] in
    omega (arith, room, all now l, length-recent_attempts now (out.0 q))
