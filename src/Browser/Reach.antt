-- ===== src/Browser/Reach.antt =====
-- The stores that sigiledd/src/browser/mod.rs reaches, by any requests in any order.
use sigiled.Base.{ℕ, String, Bool, Option, [], arith}
use sigiled.Routine.{Result, Gives, ok, err}
use sigiled.Browser.Requests.{Error, Headers}
use sigiled.Browser.Store.{
  Config, Query, Fresh, Verified, Attempt, Store, login, callback_start, callback_end,
}
use sigiled.Browser.Sessions.{resolve_session, from_request_parts, logout}
use sigiled.Browser.Capacity.{
  IsBounded, login-Keeps, callback_start-Keeps, callback_end-Keeps, resolve_session-Keeps,
  from_request_parts-Keeps, logout-Keeps,
}

-- A request, with what the provider, the clock and the random source tell while it is served. A
-- callback is two requests, and the second may come at any time or never.
pub data Request : Type 0 where
  logging_in : Headers → Query → Option Fresh → ℕ → Request
  calling_back : Headers → Query → ℕ → Request
  answering : Attempt → Option Verified → Option (String × String) → ℕ → ℕ → Request
  resolving : String → Bool → Option Verified → ℕ → ℕ → ℕ → ℕ → Request
  extracting : Bool → Headers → Option Verified → ℕ → ℕ → ℕ → ℕ → Request
  logging_out : Headers → ℕ → Request

module _ (cfg : Config) where
  -- The store that a request leaves.
  unfoldable pub serve : Request → Store → Store
  serve (logging_in h q drawn now) s = (login cfg h q drawn now s).1
  serve (calling_back h q now) s = (callback_start cfg h q now s).1
  serve (answering a answer drawn now later) s = (callback_end cfg a answer drawn now later s).1
  serve (resolving id activity answer first waited later last) s =
      (resolve_session cfg id activity answer first waited later last s).1
  serve (extracting is_reading h answer first waited later last) s =
      (from_request_parts cfg is_reading h answer first waited later last s).1
  serve (logging_out h now) s = (logout cfg h now s).1

  pub data Reach : Store → Type 0 where
    empty : Reach (record { logins = []; sessions = [] })
    served : {s : Store} → Reach s → (r : Request) → Reach (serve r s)

  left :
      {A : Type 0} (r : Result Error A × Store) → Gives (λ a. IsBounded) IsBounded r → IsBounded r.1
  left (ok a, s) b = b
  left (err e, s) b = b

  serve-IsBounded : (r : Request) (s : Store) → IsBounded s → IsBounded (serve r s)
  unfolding serve
  serve-IsBounded (logging_in h q drawn now) s b = left _ ((login-Keeps cfg h q drawn now).at s b)
  serve-IsBounded (calling_back h q now) s b = left _ ((callback_start-Keeps cfg h q now).at s b)
  serve-IsBounded (answering a answer drawn now later) s b =
      left _ ((callback_end-Keeps cfg a answer drawn now later).at s b)
  serve-IsBounded (resolving id activity answer first waited later last) s b =
      left _ ((resolve_session-Keeps cfg id activity answer first waited later last).at s b)
  serve-IsBounded (extracting is_reading h answer first waited later last) s b =
      left _ ((from_request_parts-Keeps cfg is_reading h answer first waited later last).at s b)
  serve-IsBounded (logging_out h now) s b = left _ ((logout-Keeps cfg h now).at s b)

  -- Whatever requests the browser's boundary serves, in whatever order and however the identity
  -- provider answers, it never holds more than 1024 login transactions or 4096 sessions.
  pub Reach-IsBounded : (s : Store) → Reach s → IsBounded s
  Reach-IsBounded _ empty = (omega arith, omega arith)
  Reach-IsBounded _ (served {s = s} h r) = serve-IsBounded r s (Reach-IsBounded s h)
