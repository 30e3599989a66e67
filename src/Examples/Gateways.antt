-- ===== src/Examples/Gateways.antt =====
-- Runs and instances for sigiledd/src/browser/ide_gateway/access.rs: one ticket at its own origin.
use sigiled.Base.{ℕ, ◌≡◌, refl, String, Bool, true, false, Option, none, some, [], ◌∷◌}
use sigiled.Routine.{Gives, Result, ok}
use sigiled.Browser.Requests.{Error, Headers}
use sigiled.Browser.Tickets.{Binding, Ticket, Gateway, consume, issue}
use sigiled.Browser.Uses.{Used, Kept, consume-Used, consume-consume}

abbrev editor : Binding
editor = record {
  target = none;
  port = none;
  parent = "parent";
  actor = "human:user-1";
  project = "proj";
  session = "ab12";
  generation = 1;
  origin = "https://ab12-g1.ide.example.test";
  destination = "/";
}

abbrev headers : Headers
headers =
    ("host", some "ab12-g1.ide.example.test")
    ∷ ("origin", some "https://ab12-g1.ide.example.test")
    ∷ []

abbrev gateway : Gateway
gateway = record {
  tickets = ("ticket", record { binding = editor; expires = 160 }) ∷ [];
  grants = [];
}

abbrev allowed : Binding → Result Error ℕ
allowed binding = ok 5000

abbrev living : Binding → Bool
living binding = true

abbrev drawn : Option (String × String)
drawn = some ("grant", "csrf")

consume-Used_example :
    Gives
      (Used headers "ticket" 120 allowed living drawn gateway)
      (Kept headers "ticket" 120 allowed living drawn gateway)
      (consume headers "ticket" 120 allowed living drawn gateway)
consume-Used_example = consume-Used headers "ticket" 120 allowed living drawn gateway

consume-consume_example :
    Gives
      (λ id after.
        (g : Headers) (later : ℕ) (may : Binding → Result Error ℕ) (lives : Binding → Bool)
        (next : Option (String × String))
        → Gives
            (λ u s. ⊥)
            (Kept g "ticket" later may lives next after)
            (consume g "ticket" later may lives next after))
      (λ s. Unit)
      (consume headers "ticket" 120 allowed living drawn gateway)
consume-consume_example = consume-consume headers "ticket" 120 allowed living drawn gateway

consume_test : (consume headers "ticket" 120 allowed living drawn gateway).0 ≡ ok "grant"
unfolding consume sigiled.Routine.◌>>=◌ sigiled.Browser.Tickets.take_ticket sigiled.Routine.gets
    sigiled.Routine.lift sigiled.Base.get sigiled.Browser.Tickets.exact_origin
    sigiled.Routine.fail_unless sigiled.Browser.Requests.single sigiled.Routine.pure
    sigiled.Routine.change sigiled.Browser.Tickets.admit sigiled.Base.keep
consume_test = refl

abbrev empty : Gateway
empty = record { tickets = []; grants = [] }

issue_test : (issue editor (some "ticket") 100 empty).1 ≡ gateway
unfolding issue sigiled.Routine.◌>>=◌ sigiled.Routine.lift sigiled.Routine.change
    sigiled.Routine.gets sigiled.Routine.fail_unless sigiled.Base.keep sigiled.Routine.pure
    sigiled.Base.insert
issue_test = refl
