-- ===== src/Web/Login.antt =====
-- The limit of login attempts (auth.go, store/settings.go) and handleLogin (api.go). A counter is kept as the
-- list of its seconds instead of their text; the hash of the password is a parameter.
use sentinel_host.Prelude.{
  ℕ, suc, Bool, true, false, not, ◌+◌, ◌*◌, ◌/◌, Option, none, some, List, [], ◌∷◌, ◌++◌, Text,
  text_eq, is_empty, length, select, ltb, leb, if◌then◌else◌,
}
use sentinel_host.Prelude.Int.{ℤ, pos}

abbrev pub second : ℕ
second = 1000000000

-- The counters by the address of the client; an empty list is a missing key.
abbrev pub Counters : Type 0
Counters = Text → List ℕ

-- What the login is served with. Times are in nanoseconds.
pub record Panel : Type 0 where
  pub per_min : ℕ
  pub password_hash : Option Text
  pub verify : Text → Text → Bool

-- `newRateLimiter`.
unfoldable pub attempts_per_minute : ℤ → ℕ
attempts_per_minute (pos (suc n)) = suc n
attempts_per_minute _ = 10

-- A request: its address, its time, its password if the body can be read, and whether the database reads and
-- writes the counter.
pub record Request : Type 0 where
  pub ip : Text
  pub now : ℕ
  pub password : Option Text
  pub query_works : Bool
  pub write_works : Bool

-- `time.Unix(n, 0).After(now.Add(-window))`.
abbrev pub is_recent : ℕ → ℕ → Bool
is_recent now n = ltb now (n * second + 60 * second)

unfoldable pub recent_attempts : ℕ → List ℕ → List ℕ
recent_attempts now ns = select (is_recent now) ns

abbrev pub set_counter : Text → List ℕ → Counters → Counters
set_counter ip ns c q = if text_eq ip q then ns else c q

unfoldable pub record_login : Request → List ℕ → Counters → Counters
record_login r ns c = if r.write_works then set_counter r.ip ns c else c

unfoldable pub allow : Panel → Request → Counters → Bool × Counters
unfolding recent_attempts record_login
allow p r c =
    let recent = recent_attempts r.now (c r.ip) in
    if not r.query_works
    then (true, c)
    else if leb p.per_min (length recent)
    then (false, record_login r recent c)
    else (true, record_login r (recent ++ r.now / second ∷ []) c)

pub data LoginResult : Type 0 where
  too_many bad_body no_password wrong_password logged_in : LoginResult

-- The part of `handleLogin` after the body was read.
unfoldable pub check_password : Panel → Text → Option Text → LoginResult
check_password p password none = no_password
check_password p password (some hash) =
    if is_empty hash
    then no_password
    else if p.verify password hash
    then logged_in
    else wrong_password

unfoldable pub answer : Panel → Option Text → LoginResult
unfolding check_password
answer p none = bad_body
answer p (some password) = check_password p password p.password_hash

-- A login clears the counter.
unfoldable pub after_login : Request → LoginResult → Counters → Counters
unfolding record_login
after_login r logged_in c = record_login r [] c
after_login r _ c = c

unfoldable pub handle_login : Panel → Request → Counters → LoginResult × Counters
unfolding allow answer after_login
handle_login p r c =
    let (allowed, counted) = allow p r c in
    if not allowed
    then (too_many, counted)
    else (answer p r.password, after_login r (answer p r.password) counted)
