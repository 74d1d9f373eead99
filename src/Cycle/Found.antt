-- ===== src/Cycle/Found.antt =====
-- No changed file escapes a cycle: what `collectTargets` finds.
use sentinel_host.Prelude.{
  ℕ, zero, suc, Bool, true, false, ◌≤◌, Option, none, some, List, [], ◌∷◌, Text, text_eq_refl,
  text_ne, is_empty, length, ◌≡◌, ◌≢◌, ◌⊎◌, refl, sym, ap, ◌∙◌, inl, inr, arith, In, Distinct,
  In-append_left, In-select_intro, select, if_cases,
}
use sentinel_host.Verdict.Collect.{get, put}
use sentinel_host.Baseline.Compare.{Entry, Known, needs_hash, must_hash, paths_of}
use sentinel_host.Baseline.Hashing.{stamp, hash_entries, shared_entries}
use sentinel_host.Baseline.Changes.{Fresh, Changed, compare-Changed}
use sentinel_host.Baseline.Settled.{get-put}
use sentinel_host.Cycle.Gather.{
  Account, Walked, put_all, fill_entries, hashed_paths, collect_full, collect_incremental,
}

put_all_other :
    (k : Text) (m : Known) (es : List Entry) → ¬ In k (paths_of es) → get k (put_all m es) ≡ get k m
unfolding put_all
put_all_other k m [] h = refl
put_all_other k m (e ∷ es) h =
    put_all_other k (put e.path e m) es (λ i. h (inr i))
    ∙ (get-put k e.path e m ∙ rw (text_ne e.path k (λ q. h (inl (sym q)))) refl)

put_all_self :
    (m : Known) (es : List Entry) (e : Entry)
    → Distinct (paths_of es)
    → In e es
    → get e.path (put_all m es) ≡ some e
unfolding put_all
put_all_self m [] e d i = absurd i
put_all_self m (x ∷ es) e d (inl q) = rw q (
    put_all_other x.path (put x.path x m) es d.0
    ∙ (get-put x.path x.path x m ∙ rw (text_eq_refl x.path) refl))
put_all_self m (x ∷ es) e d (inr i) = put_all_self (put x.path x m) es e d.1 i

-- The paths of what was hashed are paths of the list, and stay distinct.
hash_entries-paths :
    (hash : Text → Option Text) (alive : ℕ) (p : Text) (es : List Entry)
    → In p (paths_of (hash_entries hash alive es).0)
    → In p (paths_of es)
unfolding hash_entries
hash_entries-paths hash zero p es h = absurd h
hash_entries-paths hash (suc n) p [] h = h
hash_entries-paths hash (suc n) p (e ∷ es) h = ground (arith, hash_entries-paths hash n p es)

hash_entries-Distinct :
    (hash : Text → Option Text) (alive : ℕ) (es : List Entry)
    → Distinct (paths_of es)
    → Distinct (paths_of (hash_entries hash alive es).0)
unfolding hash_entries
hash_entries-Distinct hash zero es d = tt
hash_entries-Distinct hash (suc n) [] d = tt
hash_entries-Distinct hash (suc n) (e ∷ es) d =
    ground (arith, hash_entries-Distinct hash n es, hash_entries-paths hash n e.path es)

hash_entries-stamp :
    (hash : Text → Option Text) (alive : ℕ) (es : List Entry) (e : Entry) (sum : Text)
    → length es ≤ alive
    → In e es
    → hash e.path ≡ some sum
    → In (stamp sum e) (hash_entries hash alive es).0
unfolding hash_entries
hash_entries-stamp hash zero [] e sum h i q = absurd i
hash_entries-stamp hash zero (x ∷ es) e sum h i q = absurd (omega arith)
hash_entries-stamp hash (suc n) [] e sum h i q = absurd i
hash_entries-stamp hash (suc n) (x ∷ es) e sum h (inl r) q =
    rw (sym (ap (λ (y : Entry). hash y.path) r) ∙ q) (inl (ap (stamp sum) r))
hash_entries-stamp hash (suc n) (x ∷ es) e sum h (inr i) q =
    ground (arith, hash_entries-stamp hash n es e sum)

fill_entries-Changed :
    (new_hashes files : Known) (es : List Entry) (e h : Entry)
    → In e es
    → get e.path new_hashes ≡ some h
    → h.path ≡ e.path
    → Fresh (get h.path files) h
    → Changed files h.path (fill_entries new_hashes files es)
unfolding fill_entries
fill_entries-Changed new_hashes files [] e h i q p f = absurd i
fill_entries-Changed new_hashes files (x ∷ es) e h (inl r) q p f =
    rw (sym (ap (λ (y : Entry). get y.path new_hashes) r) ∙ q) (inl (refl, f))
fill_entries-Changed new_hashes files (x ∷ es) e h (inr i) q p f =
    inr (fill_entries-Changed new_hashes files es e h i q p f)

fill_entries-In :
    (new_hashes files : Known) (es : List Entry) (e h : Entry)
    → In e es
    → get e.path new_hashes ≡ some h
    → In h (fill_entries new_hashes files es)
unfolding fill_entries
fill_entries-In new_hashes files [] e h i q = absurd i
fill_entries-In new_hashes files (x ∷ es) e h (inl r) q =
    rw (sym (ap (λ (y : Entry). get y.path new_hashes) r) ∙ q) (inl refl)
fill_entries-In new_hashes files (x ∷ es) e h (inr i) q =
    inr (fill_entries-In new_hashes files es e h i q)

hashed_paths-In :
    (es : List Entry) (e : Entry)
    → In e es
    → is_empty e.sha256 ≡ false
    → In e.path (hashed_paths es)
unfolding hashed_paths
hashed_paths-In [] e i h = i
hashed_paths-In (x ∷ es) e (inl r) h =
    if_cases (λ ps. In e.path ps) (is_empty x.sha256) _ _
      (λ t. cc (ap (λ (y : Entry). is_empty y.sha256) r, t, h))
      (λ _. inl (ap (λ (y : Entry). y.path) r))
hashed_paths-In (x ∷ es) e (inr i) h =
    if_cases (λ ps. In e.path ps) (is_empty x.sha256) _ _ (λ _. hashed_paths-In es e i h)
      (λ _. inr (hashed_paths-In es e i h))

select-paths :
    (test : Entry → Bool) (p : Text) (es : List Entry)
    → In p (paths_of (select test es))
    → In p (paths_of es)
select-paths test p [] i = i
select-paths test p (e ∷ es) i = ground (arith, select-paths test p es)

select-Distinct :
    (test : Entry → Bool) (es : List Entry)
    → Distinct (paths_of es)
    → Distinct (paths_of (select test es))
select-Distinct test [] d = tt
select-Distinct test (e ∷ es) d =
    ground (arith, select-Distinct test es, select-paths test e.path es)

length-select : (test : Entry → Bool) (es : List Entry) → length (select test es) ≤ length es
length-select test [] = omega arith
length-select test (e ∷ es) = ground (arith, length-select test es)

-- The file is new; or its size or time is not the known one, and its hash and the known hash are there and
-- differ.
abbrev pub Replaced : Option Entry → Entry → Text → Type 0
Replaced none e sum = Unit
Replaced (some previous) e sum =
    ((e.size ≢ previous.size) ⊎ (e.m_time ≢ previous.m_time))
    × ((sum ≢ []) × (previous.sha256 ≢ []) × (sum ≢ previous.sha256))

Replaced-must_hash :
    (o : Option Entry) (e : Entry) (sum : Text) → Replaced o e sum → must_hash o e ≡ true
unfolding must_hash
Replaced-must_hash none e sum r = refl
Replaced-must_hash (some previous) e sum (inl n, r) = ground (arith, n)
Replaced-must_hash (some previous) e sum (inr n, r) = ground (arith, n)

Replaced-Fresh :
    (o : Option Entry) (e : Entry) (sum : Text) → Replaced o e sum → Fresh o (stamp sum e)
Replaced-Fresh none e sum r = tt
Replaced-Fresh (some previous) e sum r = inl r.1

-- No changed file escapes an incremental cycle: a walked file that can be read is a target if it is not in
-- the baseline, or if its size or time is not the known one and its hash and the known hash are there and
-- differ. The paths of the walk are distinct, and the cycle is not cancelled before all files are hashed.
pub collect_incremental-finds :
    (acc : Account) (files : Known) (w : Walked) (e : Entry) (sum : Text)
    → Distinct (paths_of w.all)
    → length w.all ≤ acc.alive
    → In e w.all
    → acc.hash e.path ≡ some sum
    → Replaced (get e.path files) e sum
    → In e.path (collect_incremental acc files w).scan_paths
unfolding collect_incremental needs_hash
collect_incremental-finds acc files w e sum d long i read new =
    let test = λ (x : Entry). must_hash (get x.path files) x in
    let todo = select test w.all in
    let hashed = (hash_entries acc.hash acc.alive todo).0 in
    let fits : length todo ≤ acc.alive = omega (arith, length-select test w.all) in
    let at : get e.path (put_all [] hashed) ≡ some (stamp sum e) =
      put_all_self [] hashed (stamp sum e)
        (hash_entries-Distinct acc.hash acc.alive todo (select-Distinct test w.all d))
        (hash_entries-stamp acc.hash acc.alive todo e sum fits
          (In-select_intro test e w.all i (Replaced-must_hash (get e.path files) e sum new))
          read) in
    ((compare-Changed files (fill_entries (put_all [] hashed) files w.all)).0 e.path).1 (
      fill_entries-Changed (put_all [] hashed) files w.all e (stamp sum e) i at refl
        (Replaced-Fresh (get e.path files) e sum new))

-- A full cycle hands over every walked file that can be read. The paths of the walk are distinct, and
-- the cycle is not cancelled before all files are hashed.
pub collect_full-finds :
    (acc : Account) (files : Known) (w : Walked) (e : Entry) (sum : Text)
    → Distinct (paths_of w.all)
    → length w.all ≤ acc.alive
    → In e w.all
    → acc.hash e.path ≡ some sum
    → is_empty sum ≡ false
    → In e.path (collect_full acc files w).scan_paths
unfolding collect_full shared_entries
collect_full-finds acc files w e sum d long i read real =
    let hashed = (hash_entries acc.hash acc.alive w.all).0 in
    let mine = hash_entries-stamp acc.hash acc.alive w.all e sum long i read in
    let at : get e.path (put_all [] hashed) ≡ some (stamp sum e) =
      put_all_self [] hashed (stamp sum e) (hash_entries-Distinct acc.hash acc.alive w.all d)
        mine in
    hashed_paths-In _ (stamp sum e)
      (fill_entries-In (put_all [] hashed) files _ (stamp sum e) (stamp sum e)
        (In-append_left (stamp sum e) hashed _ mine) at)
      real
