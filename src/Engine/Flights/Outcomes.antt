-- ===== src/Engine/Flights/Outcomes.antt =====
-- What `wait` returns: the value of the leader, for every caller of a flight.
use mathlib.Core.Path.{subst}
use feishu_super_search.Prelude.{
  ap, ◌∙◌, String, ℕ, ◌≡◌, refl, true, Option, some, lookup, get_elem?, get_elem?-snoc, eqb,
  Option-cases, Bool-cases, inl, inr, arith,
}
use feishu_super_search.Engine.Flights.{
  Phase, flying, closed, released, Flight, FlightGroup, no_flights, acquire, close_at, close_flight,
  release, release_at, Step, acquires, closes, releases, Reach, here, next, Waits, delivered,
  cancelled,
}
use feishu_super_search.Engine.Flights.Sound.{
  IsSound, Reach-IsSound, no_flights-IsSound, Listed, is_closed, has_outcome, new_flight,
  old_position, set_here, set_elsewhere,
}

module _ {V : Type 0} where
  -- The flight at `p` has the outcome `v`.
  abbrev Has : FlightGroup V → ℕ → V → Type 0
  Has g p v = (f : Flight V) × (get_elem? g.flights p ≡ some f) × (f.outcome ≡ some v)

  acquire-Has :
      (key : String) (g : FlightGroup V) (p : ℕ) (v : V)
      → IsSound g
      → Has g p v
      → Has (acquire key g).0 p v
  unfolding acquire
  acquire-Has key g p v s (f, there, done) = elim (Option-cases (lookup key g.by_key)) [
    | inl fresh ↦
        rw (acquire, fresh)
          (
            f,
            rw (get_elem?-snoc g.flights (new_flight key g s) p, old_position key g s p f there)
                there,
            done,
          )
    | inr (q, held) ↦ rw (acquire, held) (f, there, done)
  ]

  close_at-outcome :
      (ph : Phase) (w v : V) (f : Flight V)
      → f.phase ≡ ph
      → has_outcome f ≡ is_closed f
      → f.outcome ≡ some v
      → (close_at ph w f).outcome ≡ some v
  close_at-outcome flying w v f e sound done = absurd (ground (arith, e, sound, done))
  close_at-outcome closed w v f e sound done = done
  close_at-outcome released w v f e sound done = done

  at_same :
      (g : FlightGroup V) (p q : ℕ) (f k : Flight V) (v : V)
      → get_elem? g.flights p ≡ some f
      → get_elem? g.flights q ≡ some k
      → eqb q p ≡ true
      → f.outcome ≡ some v
      → k.outcome ≡ some v
  at_same g p q f k v there at_q same done =
      let e : q ≡ p = ground arith in cc (there, at_q, ap (get_elem? g.flights) e, done)

  close_flight-Has :
      (q : ℕ) (w : V) (g : FlightGroup V) (p : ℕ) (v : V)
      → IsSound g
      → Has g p v
      → Has (close_flight q w g) p v
  unfolding close_flight
  close_flight-Has q w g p v s (f, there, done) = elim (Option-cases (get_elem? g.flights q)) [
    | inl absent ↦ rw (close_flight, absent) (f, there, done)
    | inr (k, at_q) ↦
        let (_, sound) : Listed g.by_key q (some k) = subst (Listed g.by_key q) at_q (s.listed q) in
        elim (Bool-cases (eqb q p)) [
          | inl same ↦
              rw (close_flight, at_q)
                (
                  close_at k.phase w k,
                  set_here q k (close_at k.phase w k) g s at_q p same,
                  close_at-outcome k.phase w v k refl sound
                      (at_same g p q f k v there at_q same done),
                )
          | inr apart ↦
              rw (close_flight, at_q)
                (f, set_elsewhere q k (close_at k.phase w k) g s at_q p apart ∙ there, done)
        ]
  ]

  release_at-Has :
      (ph : Phase) (q : ℕ) (k : Flight V) (g : FlightGroup V) (p : ℕ) (v : V)
      → IsSound g
      → get_elem? g.flights q ≡ some k
      → Has g p v
      → Has (release_at ph q k g) p v
  release_at-Has flying q k g p v s at_q h = h
  release_at-Has released q k g p v s at_q h = h
  release_at-Has closed q k g p v s at_q (f, there, done) = elim (Bool-cases (eqb q p)) [
    | inl same ↦ (
      record k { phase = released },
      set_here q k (record k { phase = released }) g s at_q p same,
      at_same g p q f k v there at_q same done,
    )
    | inr apart ↦
        (f, set_elsewhere q k (record k { phase = released }) g s at_q p apart ∙ there, done)
  ]

  release-Has :
      (q : ℕ) (g : FlightGroup V) (p : ℕ) (v : V) → IsSound g → Has g p v → Has (release q g) p v
  unfolding release
  release-Has q g p v s h = elim (Option-cases (get_elem? g.flights q)) [
    | inl absent ↦ rw (release, absent) h
    | inr (k, at_q) ↦ rw (release, at_q) (release_at-Has k.phase q k g p v s at_q h)
  ]

  Step-Has : {g h : FlightGroup V} (p : ℕ) (v : V) → Step g h → IsSound g → Has g p v → Has h p v
  Step-Has {g} p v (acquires key) s held = acquire-Has key g p v s held
  Step-Has {g} p v (closes q w) s held = close_flight-Has q w g p v s held
  Step-Has {g} p v (releases q) s held = release-Has q g p v s held

  Reach-Has : {g h : FlightGroup V} (p : ℕ) (v : V) → Reach g h → IsSound g → Has g p v → Has h p v
  Reach-Has p v here s held = held
  Reach-Has p v (next r st) s held = Step-Has p v st (Reach-IsSound r s) (Reach-Has p v r s held)

  Waits-Has :
      {g : FlightGroup V} {p : ℕ} {o : Option V} {v : V} → Waits g p o → o ≡ some v → Has g p v
  Waits-Has (delivered f w there done) e = (f, there, done ∙ e)
  Waits-Has cancelled e = cc

  -- In every run of a group of flights, two callers that wait on one flight and get a value get
  -- the same value, however much later the second one asks.
  pub Waits-agree :
      {g h : FlightGroup V} {p : ℕ} {v w : V}
      → Reach no_flights g
      → Reach g h
      → Waits g p (some v)
      → Waits h p (some w)
      → v ≡ w
  Waits-agree {g} {h} {p} {v} {w} r later first second =
      let (f, at_p, left) =
        Reach-Has p v later (Reach-IsSound r no_flights-IsSound) (Waits-Has first refl) in
      let (k, at_p_too, right) = Waits-Has second refl in cc (at_p, left, at_p_too, right)
