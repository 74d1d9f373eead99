-- ===== src/Web/Origin.antt =====
-- internal/web/origin.go: which requests that change something are taken for the panel's own.
use sentinel_host.Prelude.{
  ℕ, Bool, true, not, ◌||◌, ◌≡◌, refl, Option, none, some, List, [], ◌∷◌, ◌++◌, Text, codes,
  text_eq, is_empty, has_prefix, drop, ◌==◌, any_of, if◌then◌else◌,
}
use sentinel_host.Config.Alerts.{to_lower}
use sentinel_host.Drivers.Lines.{take_while}

-- The parts of a request that are read; a missing header is empty.
pub record OriginRequest : Type 0 where
  pub method : Text
  pub sec_fetch_site : Text
  pub origin : Text
  pub host : Text
  pub forwarded_hosts : List Text

-- What follows `://`, or all of it.
unfoldable pub after_scheme : Text → Option Text
after_scheme [] = none
after_scheme (c ∷ s) =
    let rest = after_scheme s in if has_prefix (c ∷ s) (codes "://") then some (drop 2 s) else rest

abbrev or_text : Option Text → Text → Text
or_text none t = t
or_text (some s) t = s

abbrev ends_host : ℕ → Bool
ends_host c = c == b'/' || (c == b'?' || c == b'#')

-- What stands before the last colon, and the rest from it on.
abbrev cons_colon : ℕ → Text → Option (Text × Text) → Option (Text × Text)
cons_colon c s (some (a, b)) = some (c ∷ a, b)
cons_colon c s none = if c == b':' then some ([], c ∷ s) else none

unfoldable pub last_colon : Text → Option (Text × Text)
last_colon [] = none
last_colon (c ∷ s) = cons_colon c s (last_colon s)

abbrev no_port : Text → Option (Text × Text) → Text
no_port t none = t
no_port t (some (a, b)) = if any_of (λ c. c == b']') b then t else a

unfoldable pub strip_port : Text → Text
unfolding last_colon
strip_port t = no_port t (last_colon t)

-- The last value of a header.
unfoldable pub last_value : List Text → Text
last_value [] = []
last_value (v ∷ []) = v
last_value (v ∷ w ∷ vs) = last_value (w ∷ vs)

-- `strings.EqualFold`, on ASCII.
unfoldable pub equal_fold : Text → Text → Bool
unfolding to_lower
equal_fold s t = text_eq (to_lower s) (to_lower t)

unfoldable pub same_origin : OriginRequest → Bool
unfolding after_scheme take_while strip_port last_value equal_fold
same_origin r =
    let host = take_while (λ c. not (ends_host c)) (or_text (after_scheme r.origin) r.origin) in
    let forwarded = last_value r.forwarded_hosts in
    equal_fold (strip_port host) (strip_port (if is_empty forwarded then r.host else forwarded))

-- Methods that change nothing.
abbrev is_safe : Text → Bool
is_safe m = text_eq m (codes "GET") || (text_eq m (codes "HEAD") || text_eq m (codes "OPTIONS"))

abbrev is_own_site : Text → Bool
is_own_site s = text_eq s (codes "same-origin") || text_eq s (codes "none")

-- Whether no error is returned.
unfoldable pub require_same_origin : OriginRequest → Bool
unfolding same_origin
require_same_origin r =
    if is_safe r.method
    then true
    else if not (is_empty r.sec_fetch_site)
    then is_own_site r.sec_fetch_site
    else if not (is_empty r.origin)
    then same_origin r
    else true

last_value-append : (vs : List Text) (v : Text) → last_value (vs ++ v ∷ []) ≡ v
unfolding last_value
last_value-append [] v = refl
last_value-append (w ∷ []) v = refl
last_value-append (w ∷ x ∷ vs) v = last_value-append (x ∷ vs) v

-- A request as the proxy passes it on: after the values that the client sent it adds its own.
abbrev pub forwarded : OriginRequest → (sent : List Text) → (added : Text) → OriginRequest
forwarded r sent added = record r { forwarded_hosts = sent ++ added ∷ [] }

same_origin-forwarded :
    (r : OriginRequest) (sent : List Text) (added : Text)
    → same_origin (forwarded r sent added) ≡ same_origin (forwarded r [] added)
unfolding same_origin
same_origin-forwarded r sent added =
    rw (last_value-append sent added, last_value-append [] added) refl

-- Whatever values of X-Forwarded-Host a client sends, a request that the proxy passes on with its own
-- value after them is answered as if the client had sent none.
pub require_same_origin-forwarded :
    (r : OriginRequest) (sent : List Text) (added : Text)
    → require_same_origin (forwarded r sent added) ≡ require_same_origin (forwarded r [] added)
unfolding require_same_origin
require_same_origin-forwarded r sent added = rw (same_origin-forwarded r sent added) refl
