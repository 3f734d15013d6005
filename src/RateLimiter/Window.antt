-- ===== src/RateLimiter/Window.antt =====
-- The rate limiter against the history of the requests that it has allowed.
use ai_virtual_try_on.Prelude.{
  ℕ, ◌+◌, ◌-◌, ◌*◌, ◌/◌, ◌≤◌, ◌<◌, ◌≡◌, refl, ap, String, Bool, true, false, ◌&&◌, some, List, [],
  ◌∷◌, ◌++◌, arith, ltb, str_eq, eq_iff, str_eq_self, All, length, select, count_where,
  count_where-append, count_where-le, if◌then◌else◌, inl, inr, Option-cases,
}
use ai_virtual_try_on.Errors.Exec.{ok, err}
use ai_virtual_try_on.RateLimiter.{
  RateLimitResult, RateLimiter, second, get_hits, set_hits, is_recent, oldest, check,
}

-- An allowed request: its client and its time.
abbrev pub History : Type 0
History = List (String × ℕ)

-- The request is this client's and lies in the window that ends now.
abbrev pub in_window : ℕ → String → ℕ → String × ℕ → Bool
in_window window key now (k, t) = str_eq k key && is_recent window now t

-- The promise: at most `max` requests of a client in each window.
abbrev pub spec_allows : ℕ → ℕ → String → ℕ → History → Bool
spec_allows max window key now past = ltb (count_where (in_window window key now) past) max

-- The limiter's lists count what the history counts, at every time from the last check on.
pub record Tracks (l : RateLimiter) (past : History) (last : ℕ) : Type 0 where
  pub counts :
      (key : String) (now : ℕ)
      → last ≤ now
      → count_where (is_recent l.window_seconds now) (get_hits key l.hits)
        ≡ count_where (in_window l.window_seconds key now) past

get-set_hits :
    (key k : String) (ts : List ℕ) (d : List (String × List ℕ))
    → get_hits k (set_hits key ts d) ≡ (if str_eq key k then ts else get_hits k d)
unfolding get_hits set_hits
get-set_hits key k ts [] = refl
get-set_hits key k ts ((j, old) ∷ d) =
    ground (arith, eq_iff j key, eq_iff j k, eq_iff key k, get-set_hits key k ts d)

length-select_count : (p : ℕ → Bool) (ts : List ℕ) → length (select p ts) ≡ count_where p ts
length-select_count p [] = refl
length-select_count p (t ∷ ts) = ground (arith, length-select_count p ts)

-- What has left the window stays outside.
count-pruned :
    (window now later : ℕ) (ts : List ℕ)
    → now ≤ later
    → count_where (is_recent window later) (select (is_recent window now) ts)
      ≡ count_where (is_recent window later) ts
count-pruned window now later [] h = refl
count-pruned window now later (t ∷ ts) h = ground (arith, count-pruned window now later ts h)

-- How the answer of a check reads.
abbrev pub answer : RateLimiter → String → ℕ → Bool
answer l key now = elim (check key now l).0 [ ok r ↦ r.allowed | err e ↦ false ]

abbrev pub remember : Bool → String → ℕ → History → History
remember allowed key now past = if allowed then (key, now) ∷ past else past

module _ (l : RateLimiter) (past : History) (last : ℕ) (tracks : Tracks l past last) where
  module _ (key : String) (now : ℕ) (ordered : last ≤ now) where
    answer-eq_spec : answer l key now ≡ spec_allows l.max_requests l.window_seconds key now past
    unfolding check
    answer-eq_spec = ground (
      arith,
      tracks.counts key now ordered,
      length-select_count (is_recent l.window_seconds now) (get_hits key l.hits),
    )

    limits_check :
        ((check key now l).1.max_requests ≡ l.max_requests)
        × ((check key now l).1.window_seconds ≡ l.window_seconds)
    unfolding check
    limits_check = ground arith

    counts-check :
        (k : String) (later : ℕ)
        → now ≤ later
        → count_where (is_recent l.window_seconds later) (get_hits k (check key now l).1.hits)
          ≡ count_where
              (in_window l.window_seconds k later)
              (remember (answer l key now) key now past)
    unfolding check
    counts-check k later after = ground (
      arith,
      tracks.counts k later (omega arith),
      get-set_hits key k (select (is_recent l.window_seconds now) (get_hits key l.hits)) l.hits,
      get-set_hits key k (select (is_recent l.window_seconds now) (get_hits key l.hits) ++ now ∷ [])
          l.hits,
      count-pruned l.window_seconds now later (get_hits key l.hits) after,
      count_where-append (is_recent l.window_seconds later)
          (select (is_recent l.window_seconds now) (get_hits key l.hits)) (now ∷ []),
      eq_iff key k,
    )

    Tracks-check : Tracks (check key now l).1 (remember (answer l key now) key now past) now
    Tracks-check = record {
      counts = λ k later after. rw (limits_check.1) (counts-check k later after);
    }

-- The answers to a sequence of requests, and those that the promise gives.
pub answers : RateLimiter → List (String × ℕ) → List Bool
answers l [] = []
answers l ((key, now) ∷ requests) = answer l key now ∷ answers (check key now l).1 requests

pub spec_answers : ℕ → ℕ → History → List (String × ℕ) → List Bool
spec_answers max window past [] = []
spec_answers max window past ((key, now) ∷ requests) =
    let allowed = spec_allows max window key now past in
    allowed ∷ spec_answers max window (remember allowed key now past) requests

abbrev pub Ordered : ℕ → List (String × ℕ) → Type 0
Ordered last [] = Unit {0}
Ordered last ((key, now) ∷ requests) = (last ≤ now) × Ordered now requests

-- On any sequence of requests whose times do not fall, a limiter whose lists count what the
-- history counts allows exactly the requests that find fewer than max_requests allowed requests
-- of their client in the window that ends with them.
pub answers-eq_spec :
    (l : RateLimiter) (past : History) (last : ℕ) (requests : List (String × ℕ))
    → Tracks l past last
    → Ordered last requests
    → answers l requests ≡ spec_answers l.max_requests l.window_seconds past requests
unfolding answers spec_answers
answers-eq_spec l past last [] tracks ordered = refl
answers-eq_spec l past last ((key, now) ∷ requests) tracks ordered =
    let e = answer-eq_spec l past last tracks key now ordered.0 in
    let (m, v) = limits_check l past last tracks key now ordered.0 in
    let rest =
      answers-eq_spec (check key now l).1 (remember (answer l key now) key now past) now requests
        (Tracks-check l past last tracks key now ordered.0) ordered.1 in
    rw (← e) (ap (λ tail. answer l key now ∷ tail) (rw (m, v) at rest))

-- The oldest hit is one of the list, so once it has left the window fewer are in it.
count_after_oldest :
    (window later m : ℕ) (ts : List ℕ)
    → oldest ts ≡ some m
    → window * second + m ≤ later
    → count_where (is_recent window later) ts < length ts
unfolding oldest
count_after_oldest window later m [] h old = cc
count_after_oldest window later m (t ∷ ts) h old = elim (Option-cases (oldest ts)) [
  | inl none_left ↦ ground (arith, count_where-le (is_recent window later) ts)
  | inr (m', e) ↦
      ground
        (arith, count_where-le (is_recent window later) ts, count_after_oldest window later m' ts e)
]

oldest-le :
    (now m : ℕ) (p : ℕ → Bool) (ts : List ℕ)
    → All (λ t. t ≤ now) ts
    → oldest (select p ts) ≡ some m
    → m ≤ now
unfolding oldest
oldest-le now m p [] past h = cc
oldest-le now m p (t ∷ ts) past h = elim (Option-cases (oldest (select p ts))) [
  | inl none_left ↦ ground arith
  | inr (m', e) ↦ ground (arith, oldest-le now m' p ts past.1 e)
]

abbrev pruned : RateLimiter → String → ℕ → List ℕ
pruned l key now = select (is_recent l.window_seconds now) (get_hits key l.hits)

module _ (l : RateLimiter) (key : String) (now : ℕ) where
  module _ (later m : ℕ) where
    -- The limiter after a refusal holds the pruned list.
    allowed_after :
        count_where (is_recent l.window_seconds now) (get_hits key l.hits) ≤ l.max_requests
        → oldest (pruned l key now) ≡ some m
        → l.window_seconds * second + m ≤ later
        → answer (record l { hits = set_hits key (pruned l key now) l.hits }) key later ≡ true
    unfolding check
    allowed_after few e old = ground (
      arith,
      length-select_count (is_recent l.window_seconds now) (get_hits key l.hits),
      get-set_hits key key (pruned l key now) l.hits,
      str_eq_self key,
      length-select_count (is_recent l.window_seconds later) (pruned l key now),
      count_after_oldest l.window_seconds later m (pruned l key now) e old,
    )

  module _ (m : ℕ) (r : RateLimitResult) (h : (check key now l).0 ≡ ok r)
      (refused : r.allowed ≡ false) (e : oldest (pruned l key now) ≡ some m) where
    check_refuses : (check key now l).1 ≡ record l { hits = set_hits key (pruned l key now) l.hits }
    check_refuses = unfold check in ground arith

    retry_seconds : r.retry_after_seconds ≡ (l.window_seconds * second - (now - m)) / second + 1
    retry_seconds = unfold check in ground arith

-- A client that is refused, and asks again when the announced seconds have passed and no other of
-- its requests was checked meanwhile, is allowed, if no more than max_requests of its hits are in
-- the window and none lies in the future.
pub retry_after_allows :
    (key : String) (now later : ℕ) (l : RateLimiter) (r : RateLimitResult)
    → (check key now l).0 ≡ ok r
    → r.allowed ≡ false
    → count_where (is_recent l.window_seconds now) (get_hits key l.hits) ≤ l.max_requests
    → All (λ t. t ≤ now) (get_hits key l.hits)
    → now + r.retry_after_seconds * second ≤ later
    → answer (check key now l).1 key later ≡ true
retry_after_allows key now later l r h refused few past waited =
    elim (Option-cases (oldest (pruned l key now))) [
      | inl no_hits ↦ absurd (unfold check in ground arith)
      | inr (m, e) ↦ rw (check_refuses l key now m r h refused e) (
          allowed_after l key now later m few e (
            omega (
              arith,
              retry_seconds l key now m r h refused e,
              oldest-le now m (is_recent l.window_seconds now) (get_hits key l.hits) past e,
            )))
    ]
