-- ===== src/Channel/Retry.antt =====
-- `SendRequestWithRetry` (link/transport/channel.cc) and the options of link/retry_options.h.
use yacl_r.Base.{
  ℕ, suc, ◌+◌, ◌*◌, ◌%◌, ◌^◌, ◌≤◌, ◌<◌, ◌≡◌, refl, min, Bool, true, false, not, ◌&&◌, ◌||◌, List,
  [], ◌∷◌, Option, none, some, arith, leb, ◌==◌, if◌then◌else◌, length, get_elem?, ◌⊎◌, inl, inr,
  Bool-cases,
}

pub record RetryOptions : Type 0 where
  pub max_retry : ℕ
  pub retry_interval_ms : ℕ
  pub retry_interval_incr_ms : ℕ
  pub max_retry_interval_ms : ℕ
  pub error_codes : List ℕ
  pub http_codes : List ℕ
  pub aggressive_retry : Bool

pub default_options : RetryOptions
default_options = record {
  max_retry = 3;
  retry_interval_ms = 1000;
  retry_interval_incr_ms = 2000;
  max_retry_interval_ms = 10000;
  error_codes = [];
  http_codes = [];
  aggressive_retry = true;
}

-- The code and the HTTP code of a `LinkError`.
pub record LinkError : Type 0 where
  pub code : ℕ
  pub http_code : ℕ

-- How `link_->SendRequest` ends: it returns, throws a `LinkError`, or throws something else.
pub data Outcome : Type 0 where
  sent : Outcome
  link_error : LinkError → Outcome
  other_error : Outcome

-- One round of the loop: whether the channel is aborting, and how the call would end.
pub record Attempt : Type 0 where
  pub aborting : Bool
  pub outcome : Outcome

-- How the method ends.
pub data Sending : Type 0 where
  delivered aborted : Sending
  failed : LinkError → Sending
  escaped : Sending

has_code : List ℕ → ℕ → Bool
has_code [] x = false
has_code (z ∷ zs) x = z == x || has_code zs x

-- An empty list stands for every code.
empty_or_has : List ℕ → ℕ → Bool
unfolding has_code
empty_or_has [] x = true
empty_or_has (y ∷ ys) x = has_code (y ∷ ys) x

pub should_retry : RetryOptions → LinkError → Bool
unfolding empty_or_has
should_retry o e =
    if o.aggressive_retry
    then true
    else if empty_or_has o.error_codes e.code
    then true
    else not (e.http_code == 0) && empty_or_has o.http_codes e.http_code

-- In `uint32_t`.
pub interval : RetryOptions → ℕ → ℕ
interval o retry_count =
    min ((o.retry_interval_ms + retry_count * o.retry_interval_incr_ms) % 2 ^ 32)
      o.max_retry_interval_ms

slept : ℕ → Option (Sending × List ℕ) → Option (Sending × List ℕ)
slept ms none = none
slept ms (some (s, l)) = some (s, ms ∷ l)

-- What follows the outcome of an attempt; `again` is the rest of the loop.
after : RetryOptions → ℕ → Outcome → Option (Sending × List ℕ) → Option (Sending × List ℕ)
after o count sent again = some (delivered, [])
after o count other_error again = some (escaped, [])
after o count (link_error e) again =
    if should_retry o e
    then (if leb o.max_retry count then some (failed e, []) else slept (interval o count) again)
    else some (failed e, [])

-- The end of the method and the intervals that it slept, or `none` while it still tries.
retry_loop : RetryOptions → ℕ → List Attempt → Option (Sending × List ℕ)
unfolding slept after
retry_loop o count [] = none
retry_loop o count (a ∷ rest) = elim a.aborting [
  | true ↦ some (aborted, [])
  | false ↦ after o count a.outcome (retry_loop o (count + 1) rest)
]

pub send_request_with_retry : RetryOptions → List Attempt → Option (Sending × List ℕ)
unfolding retry_loop
send_request_with_retry o attempts = retry_loop o 0 attempts

abbrev pub AllLe : ℕ → List ℕ → Type 0
AllLe n [] = Unit {0}
AllLe n (x ∷ xs) = (x ≤ n) × AllLe n xs

-- The attempt by which the method ended.
abbrev pub EndsBy : RetryOptions → ℕ → Sending → ℕ → Option Attempt → Type 0
EndsBy o count s slept none = ⊥
EndsBy o count aborted slept (some a) = a.aborting ≡ true
EndsBy o count delivered slept (some a) = (a.aborting ≡ false) × (a.outcome ≡ sent)
EndsBy o count escaped slept (some a) = (a.aborting ≡ false) × (a.outcome ≡ other_error)
EndsBy o count (failed e) slept (some a) =
    (a.aborting ≡ false)
    × (a.outcome ≡ link_error e)
    × ((should_retry o e ≡ false) ⊎ (slept + count ≡ o.max_retry))

-- What the loop promises, at `count` retries so far.
abbrev pub Promise : RetryOptions → ℕ → List Attempt → Option (Sending × List ℕ) → Type 0
Promise o count attempts none = length attempts + count ≤ o.max_retry
Promise o count attempts (some (s, l)) =
    (length l + count ≤ o.max_retry)
    × AllLe o.max_retry_interval_ms l
    × EndsBy o count s (length l) (get_elem? attempts (length l))

interval-le : (o : RetryOptions) (count : ℕ) → interval o count ≤ o.max_retry_interval_ms
unfolding interval
interval-le o count = omega arith

EndsBy-suc :
    (o : RetryOptions) (count : ℕ) (s : Sending) (n : ℕ) (a : Option Attempt)
    → EndsBy o (count + 1) s n a
    → EndsBy o count s (suc n) a
EndsBy-suc o count s n none h = h
EndsBy-suc o count aborted n (some a) h = h
EndsBy-suc o count delivered n (some a) h = h
EndsBy-suc o count escaped n (some a) h = h
EndsBy-suc o count (failed e) n (some a) h = ground (arith, h)

slept-Promise :
    (o : RetryOptions) (count : ℕ) (a : Attempt) (rest : List Attempt)
    (again : Option (Sending × List ℕ))
    → count < o.max_retry
    → Promise o (count + 1) rest again
    → Promise o count (a ∷ rest) (slept (interval o count) again)
unfolding slept
slept-Promise o count a rest none h p = omega arith
slept-Promise o count a rest (some (s, l)) h p =
    (omega arith, (interval-le o count, p.1), EndsBy-suc o count s (length l) _ p.2)

after-Promise :
    (o : RetryOptions) (count : ℕ) (a : Attempt) (rest : List Attempt) (out : Outcome)
    (again : Option (Sending × List ℕ))
    → count ≤ o.max_retry
    → a.aborting ≡ false
    → a.outcome ≡ out
    → (count < o.max_retry → Promise o (count + 1) rest again)
    → Promise o count (a ∷ rest) (after o count out again)
unfolding after
after-Promise o count a rest sent again h f e p = (omega arith, tt, (f, e))
after-Promise o count a rest other_error again h f e p = (omega arith, tt, (f, e))
after-Promise o count a rest (link_error d) again h f e p = elim (Bool-cases (should_retry o d)) [
  | inr no_retry ↦ rw (no_retry, after) (omega arith, tt, (f, e, inl no_retry))
  | inl retry ↦ elim (Bool-cases (leb o.max_retry count)) [
    | inl last ↦ rw (retry, last, after) (omega arith, tt, (f, e, inr (ground arith)))
    | inr more ↦
        rw (retry, more, after)
          (slept-Promise o count a rest again (ground arith) (p (ground arith)))
  ]
]

retry_loop-Promise :
    (o : RetryOptions) (count : ℕ) (attempts : List Attempt)
    → count ≤ o.max_retry
    → Promise o count attempts (retry_loop o count attempts)
unfolding retry_loop
retry_loop-Promise o count [] h = omega arith
retry_loop-Promise o count (a ∷ rest) h = elim (Bool-cases a.aborting) [
  | inl e ↦ rw (e, retry_loop) (omega arith, tt, refl)
  | inr e ↦
      rw (e, retry_loop)
        (after-Promise o count (record a { aborting = false }) rest a.outcome
          (retry_loop o (count + 1) rest) h refl refl
          (λ more. retry_loop-Promise o (count + 1) rest (omega arith)))
]

-- With more attempts than `max_retry` the method ends. It sleeps `max_retry` times at most, each time
-- for `max_retry_interval_ms` at most, and then ends by the next attempt: delivered if that was sent,
-- with the link error if that may not be retried or all retries are used up, aborted if the channel
-- aborts, and with any other exception as it comes.
pub send_request_with_retry-Promise :
    (o : RetryOptions) (attempts : List Attempt)
    → Promise o 0 attempts (send_request_with_retry o attempts)
unfolding send_request_with_retry
send_request_with_retry-Promise o attempts = retry_loop-Promise o 0 attempts (omega arith)
