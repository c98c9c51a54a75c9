-- ===== src/Channel/Chunks/Window.antt =====
-- `SendChunkedWindow` (link/transport/channel.cc): how many chunks are under way at a time, and how
-- the failure of one is reported. `int64_t` counts stay far from their limits.

use yacl_r.Base.{
  ℕ, ◌+◌, ◌-◌, ◌≤◌, ◌≡◌, refl, Bool, true, false, not, ◌||◌, List, [], ◌∷◌, Option, none, some,
  arith, Result, ok, err, io_error, ltb, ◌==◌, if◌then◌else◌, length, Bool-cases, inl, inr,
}

pub record SendChunkedWindow : Type 0 where
  pub parallel_limit : ℕ
  pub running_push : ℕ
  pub async_exception : Bool

-- `OnPushDone`, at the end of a token; `failed` says whether the push threw.
pub on_push_done : Bool → SendChunkedWindow → SendChunkedWindow
on_push_done failed w = record w {
  running_push = w.running_push - 1;
  async_exception = failed || w.async_exception;
}

-- A loop on `cond_.wait` that goes on while `busy`, and throws if a wake-up finds an exception. The
-- list is what the other threads do during each wait; `none` is a wait that goes on.
window_wait :
    (SendChunkedWindow → Bool)
    → List (SendChunkedWindow → SendChunkedWindow)
    → SendChunkedWindow
    → Option (Result (Unit {0}) × SendChunkedWindow)
window_wait busy [] w = if busy w then none else some (ok tt, w)
window_wait busy (others ∷ rest) w = elim (busy w) [
  | false ↦ some (ok tt, w)
  | true ↦
      let next = window_wait busy rest (others w) in
      if (others w).async_exception then some (err io_error, others w) else next
]

unfoldable pub get_token :
    List (SendChunkedWindow → SendChunkedWindow)
    → SendChunkedWindow
    → Option (Result (Unit {0}) × SendChunkedWindow)
unfolding window_wait
get_token ws w =
    window_wait (λ x. ltb x.parallel_limit x.running_push) ws
      (record w { running_push = w.running_push + 1 })

pub finished :
    List (SendChunkedWindow → SendChunkedWindow)
    → SendChunkedWindow
    → Option (Result (Unit {0}) × SendChunkedWindow)
unfolding window_wait
finished = window_wait (λ x. not (x.running_push == 0))

-- `for (auto& t : threads) t.join()`: every push that was under way has ended, as the list says.
pub join_all : List Bool → SendChunkedWindow → SendChunkedWindow
join_all [] w = w
join_all (failed ∷ rest) w = join_all rest (on_push_done failed w)

pub any_failed : List Bool → Bool
any_failed [] = false
any_failed (f ∷ fs) = f || any_failed fs

window_wait-idle :
    (busy : SendChunkedWindow → Bool) (ws : List (SendChunkedWindow → SendChunkedWindow))
    (w d : SendChunkedWindow)
    → window_wait busy ws w ≡ some (ok tt, d)
    → busy d ≡ false
unfolding window_wait
window_wait-idle busy [] w d h = ground arith
window_wait-idle busy (others ∷ rest) w d h = elim (Bool-cases (busy w)) [
  | inr e ↦ ground (arith, e)
  | inl e ↦ ground (arith, e, window_wait-idle busy rest (others w) d)
]

-- When `GetToken` returns, no more pushes are under way than the limit allows.
pub get_token-le :
    (ws : List (SendChunkedWindow → SendChunkedWindow)) (w d : SendChunkedWindow)
    → get_token ws w ≡ some (ok tt, d)
    → d.running_push ≤ d.parallel_limit
unfolding get_token
get_token-le ws w d h = ground (arith, window_wait-idle _ ws _ d h)

join_all_lem :
    (fs : List Bool) (w : SendChunkedWindow)
    → w.running_push ≡ length fs
    → ((join_all fs w).running_push ≡ 0)
      × ((join_all fs w).async_exception ≡ (any_failed fs || w.async_exception))
unfolding join_all any_failed on_push_done
join_all_lem [] w h = (h, refl)
join_all_lem (f ∷ fs) w h = ground (arith, join_all_lem fs (on_push_done f w))

-- Where the threads of `SendChunked` have been joined, `Finished` returns normally, although the
-- window holds the exception of any push that failed: that exception is lost.
pub finished-join_all :
    (fs : List Bool) (ws : List (SendChunkedWindow → SendChunkedWindow)) (w : SendChunkedWindow)
    → w.running_push ≡ length fs
    → (finished ws (join_all fs w) ≡ some (ok tt, join_all fs w))
      × ((join_all fs w).async_exception ≡ (any_failed fs || w.async_exception))
unfolding finished
finished-join_all fs [] w h = ground (arith, join_all_lem fs w h)
finished-join_all fs (others ∷ ws) w h = ground (arith, join_all_lem fs w h)
