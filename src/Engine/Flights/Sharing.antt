-- ===== src/Engine/Flights/Sharing.antt =====
-- Who shares a flight, in every run of a group of flights.
use mathlib.Core.Path.{subst}
use feishu_super_search.Prelude.{String, ℕ, ◌≡◌, refl, true, false, some, get_elem?}
use feishu_super_search.Engine.Flights.{Flight, FlightGroup, no_flights, acquire, Reach}
use feishu_super_search.Engine.Flights.Sound.{in_air, Listed, Reach-IsSound, no_flights-IsSound}

module _ {V : Type 0} where
  -- In every run of a group of flights: if a flight of a key is in the air (it is not yet taken
  -- out of the map), then Acquire of the key starts no other one and hands out that flight to a
  -- follower.
  pub acquire_joins :
      {g : FlightGroup V} (key : String) {p : ℕ} {f : Flight V}
      → Reach no_flights g
      → get_elem? g.flights p ≡ some f
      → in_air f ≡ true
      → f.key ≡ key
      → acquire key g ≡ (g, p, false)
  unfolding acquire
  acquire_joins {g} key {p} {f} r at_p up same =
      let s = Reach-IsSound r no_flights-IsSound in
      let (at_f, _) : Listed g.by_key p (some f) = subst (Listed g.by_key p) at_p (s.listed p) in
      rw (acquire, ← same, at_f up) refl
