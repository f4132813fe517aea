-- ===== src/Engine/Flights.antt =====
-- internal/engine/singleflight.go: concurrent calls of one key share one flight. A pointer to a
-- flightCall is its position among the flights that were ever made.
pub mod Sound
pub mod Sharing
pub mod Outcomes
use feishu_super_search.Prelude.{
  String, ℕ, Bool, true, false, Option, none, some, List, [], ◌∷◌, ◌++◌, Dict, lookup, insert,
  remove, length, get_elem?, set, ◌≡◌,
}

-- `closed` is after `close(call.done)`, and `released` after `delete(g.m, key)`: another goroutine
-- may take the mutex in between.
pub data Phase : Type 0 where
  flying closed released : Phase

module _ (V : Type 0) where
  -- A flightCall, with the key that its `finish` closes over; the outcome is the value and the error.
  pub record Flight : Type 0 where
    pub key : String
    pub phase : Phase
    pub outcome : Option V

  pub record FlightGroup : Type 0 where
    pub flights : List Flight
    pub by_key : Dict ℕ

module _ {V : Type 0} where
  abbrev pub no_flights : FlightGroup V
  no_flights = record { flights = []; by_key = [] }

  -- Acquire: the flight, and whether the caller leads it.
  unfoldable pub acquire : String → FlightGroup V → FlightGroup V × ℕ × Bool
  acquire key g = elim (lookup key g.by_key) [
    | some existing ↦ (g, existing, false)
    | none ↦ (
      record {
        flights = g.flights ++ record { key = key; phase = flying; outcome = none } ∷ [];
        by_key = insert key (length g.flights) g.by_key;
      },
      length g.flights,
      true,
    )
  ]

  abbrev pub close_at : Phase → V → Flight V → Flight V
  close_at flying v f = record f { phase = closed; outcome = some v }
  close_at closed v f = f
  close_at released v f = f

  -- The first half of `finish`; `once` makes a second call of it do nothing.
  unfoldable pub close_flight : ℕ → V → FlightGroup V → FlightGroup V
  close_flight p v g = elim (get_elem? g.flights p) [
    | none ↦ g
    | some f ↦ record g { flights = set g.flights p (close_at f.phase v f) }
  ]

  abbrev pub release_at : Phase → ℕ → Flight V → FlightGroup V → FlightGroup V
  release_at flying p f g = g
  release_at closed p f g = record {
    flights = set g.flights p (record f { phase = released });
    by_key = remove f.key g.by_key;
  }
  release_at released p f g = g

  -- The second half, which only the goroutine reaches that closed the flight.
  unfoldable pub release : ℕ → FlightGroup V → FlightGroup V
  release p g = elim (get_elem? g.flights p) [ none ↦ g | some f ↦ release_at f.phase p f g ]

  -- A goroutine takes a step; anything else that it does leaves the group alone.
  pub data Step (g : FlightGroup V) : FlightGroup V → Type 0 where
    acquires : (key : String) → Step g (acquire key g).0
    closes : (p : ℕ) (v : V) → Step g (close_flight p v g)
    releases : (p : ℕ) → Step g (release p g)

  pub data Reach (g : FlightGroup V) : FlightGroup V → Type 0 where
    here : Reach g g
    next : {h k : FlightGroup V} → Reach g h → Step h k → Reach g k

  -- What `wait` may return: the outcome of a flight that is closed, or the error of the context.
  pub data Waits (g : FlightGroup V) (p : ℕ) : Option V → Type 0 where
    delivered :
        (f : Flight V) (v : V)
        → get_elem? g.flights p ≡ some f
        → f.outcome ≡ some v
        → Waits g p (some v)
    cancelled : Waits g p none
