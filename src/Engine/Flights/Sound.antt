-- ===== src/Engine/Flights/Sound.antt =====
-- The map of a group leads to the flights in the air, in every run.
use mathlib.Core.Path.{subst}
use feishu_super_search.Prelude.{
  ap, String, ℕ, ◌≡◌, refl, sym, ◌∙◌, Bool, true, false, Option, none, some, [], ◌∷◌, ◌++◌, Dict,
  lookup, insert, remove, lookup-insert, lookup-remove, length, get_elem?, set, get_elem?-set,
  get_elem?-snoc, get_elem?-length, eqb, ◌==◌, eq_iff, Option-cases, Bool-cases, inl, inr, arith,
}
use feishu_super_search.Engine.Flights.{
  Phase, flying, closed, released, Flight, FlightGroup, no_flights, acquire, close_at, release_at,
  close_flight, release, Step, acquires, closes, releases, Reach, here, next,
}

module _ {V : Type 0} where
  abbrev pub in_air : Flight V → Bool
  in_air f = elim f.phase [ released ↦ false | _ ↦ true ]

  abbrev pub is_closed : Flight V → Bool
  is_closed f = elim f.phase [ flying ↦ false | _ ↦ true ]

  abbrev pub has_outcome : Flight V → Bool
  has_outcome f = elim f.outcome [ none ↦ false | some _ ↦ true ]

  -- The map leads to a flight of the key that is in the air.
  abbrev pub Owned : String → Option (Flight V) → Type 0
  Owned k none = ⊥
  Owned k (some f) = (f.key ≡ k) × (in_air f ≡ true)

  -- A flight in the air is the one of its key, and has an outcome exactly if it is closed.
  abbrev pub Listed : Dict ℕ → ℕ → Option (Flight V) → Type 0
  Listed m p none = Unit
  Listed m p (some f) = (in_air f ≡ true → lookup f.key m ≡ some p) × (has_outcome f ≡ is_closed f)

  pub record IsSound (g : FlightGroup V) : Type 0 where
    pub owned : (k : String) (p : ℕ) → lookup k g.by_key ≡ some p → Owned k (get_elem? g.flights p)
    pub listed : (p : ℕ) → Listed g.by_key p (get_elem? g.flights p)

  pub no_flights-IsSound : IsSound no_flights
  unfolding lookup
  no_flights-IsSound = record { owned = λ k p h. cc; listed = λ p. tt }

  module _ (key : String) (g : FlightGroup V) (s : IsSound g) where
    abbrev pub new_flight : Flight V
    new_flight = record { key = key; phase = flying; outcome = none }

    abbrev grown : FlightGroup V
    grown = record {
      flights = g.flights ++ new_flight ∷ [];
      by_key = insert key (length g.flights) g.by_key;
    }

    -- The position of the new flight was free.
    pub old_position :
        (p : ℕ) (f : Flight V) → get_elem? g.flights p ≡ some f → eqb p (length g.flights) ≡ false
    old_position p f h = elim (Bool-cases (eqb p (length g.flights))) [
      | inr other ↦ other
      | inl same ↦
          let e : p ≡ length g.flights = ground arith in
          cc (h, get_elem?-length g.flights, ap (get_elem? g.flights) e)
    ]

    grown-Owned :
        (k : String) (p : ℕ) → lookup k grown.by_key ≡ some p → Owned k (get_elem? grown.flights p)
    grown-Owned k p h = elim (Bool-cases (key == k)) [
      | inl same ↦
          let e : p ≡ length g.flights =
            ground (arith, lookup-insert key k (length g.flights) g.by_key) in
          let self : eqb (length g.flights) (length g.flights) ≡ true = ground arith in
          rw (e, get_elem?-snoc g.flights new_flight (length g.flights), self)
            ((eq_iff key k).0 same, refl)
      | inr apart ↦
          let old : lookup k g.by_key ≡ some p =
            ground (arith, lookup-insert key k (length g.flights) g.by_key) in
          elim (Option-cases (get_elem? g.flights p)) [
            | inl absent ↦ absurd (subst (Owned k) absent (s.owned k p old))
            | inr (f, there) ↦
                rw (get_elem?-snoc g.flights new_flight p, old_position p f there) (s.owned k p old)
          ]
    ]

    grown-Listed :
        lookup key g.by_key ≡ none → (p : ℕ) → Listed grown.by_key p (get_elem? grown.flights p)
    grown-Listed fresh p = elim (Bool-cases (eqb p (length g.flights))) [
      | inl last ↦
          rw (get_elem?-snoc g.flights new_flight p, last)
            (
              λ _.
                  ground (arith, lookup-insert key key (length g.flights) g.by_key, eq_iff key key),
              refl,
            )
      | inr older ↦ elim (Option-cases (get_elem? g.flights p)) [
        | inl absent ↦ rw (get_elem?-snoc g.flights new_flight p, older, absent) tt
        | inr (f, there) ↦
            let (there_too, done) : Listed g.by_key p (some f) =
              subst (Listed g.by_key p) there (s.listed p) in
            rw (get_elem?-snoc g.flights new_flight p, older, there)
              (
                λ up. ground (
                  arith,
                  lookup-insert key f.key (length g.flights) g.by_key,
                  eq_iff key f.key,
                  there_too up,
                  fresh,
                ),
                done,
              )
      ]
    ]

    acquire-IsSound : IsSound (acquire key g).0
    unfolding acquire
    acquire-IsSound = elim (Option-cases (lookup key g.by_key)) [
      | inl fresh ↦ rw (acquire, fresh) record { owned = grown-Owned; listed = grown-Listed fresh }
      | inr (p, there) ↦ rw (acquire, there) s
    ]

  -- The flight at `p` becomes `new`.
  module _ (p : ℕ) (old new : Flight V) (g : FlightGroup V) (s : IsSound g)
      (there : get_elem? g.flights p ≡ some old) where
    pub set_here : (q : ℕ) → eqb p q ≡ true → get_elem? (set g.flights p new) q ≡ some new
    set_here q same =
        let e : p ≡ q = ground arith in
        let at_q : get_elem? g.flights q ≡ some old = ap (get_elem? g.flights) (sym e) ∙ there in
        rw (get_elem?-set g.flights p q new, same, at_q) refl

    pub set_elsewhere :
        (q : ℕ) → eqb p q ≡ false → get_elem? (set g.flights p new) q ≡ get_elem? g.flights q
    set_elsewhere q apart = rw (get_elem?-set g.flights p q new, apart) refl

    old_at : (q : ℕ) → eqb p q ≡ true → get_elem? g.flights q ≡ some old
    old_at q same = let e : p ≡ q = ground arith in ap (get_elem? g.flights) (sym e) ∙ there

    kept-IsSound :
        new.key ≡ old.key
        → in_air new ≡ in_air old
        → has_outcome new ≡ is_closed new
        → IsSound (record g { flights = set g.flights p new })
    kept-IsSound key air done = record {
      owned = λ k q h. elim (Bool-cases (eqb p q)) [
        | inl same ↦
            let (key_old, up) : Owned k (some old) =
              subst (Owned k) (old_at q same) (s.owned k q h) in
            rw (set_here q same) (key ∙ key_old, air ∙ up)
        | inr apart ↦ rw (set_elsewhere q apart) (s.owned k q h)
      ];
      listed = λ q. elim (Bool-cases (eqb p q)) [
        | inl same ↦
            let (in_map, _) : Listed g.by_key q (some old) =
              subst (Listed g.by_key q) (old_at q same) (s.listed q) in
            rw (set_here q same) (λ up. rw key (in_map (sym air ∙ up)), done)
        | inr apart ↦ rw (set_elsewhere q apart) (s.listed q)
      ];
    }

    landed-IsSound :
        in_air old ≡ true
        → in_air new ≡ false
        → has_outcome new ≡ is_closed new
        → IsSound (record { flights = set g.flights p new; by_key = remove old.key g.by_key })
    landed-IsSound up down done = record {
      owned = λ k q h. elim (Bool-cases (old.key == k)) [
        | inl same ↦ absurd (ground (arith, lookup-remove old.key k g.by_key, h))
        | inr other ↦
            let held : lookup k g.by_key ≡ some q =
              ground (arith, lookup-remove old.key k g.by_key, h) in
            elim (Bool-cases (eqb p q)) [
              | inl same ↦
                  let (key_old, _) : Owned k (some old) =
                    subst (Owned k) (old_at q same) (s.owned k q held) in
                  absurd (ground (arith, eq_iff old.key k, key_old, other))
              | inr apart ↦ rw (set_elsewhere q apart) (s.owned k q held)
            ]
      ];
      listed = λ q. elim (Bool-cases (eqb p q)) [
        | inl same ↦ rw (set_here q same) (λ air. absurd (ground (arith, air, down)), done)
        | inr apart ↦ elim (Option-cases (get_elem? g.flights q)) [
          | inl absent ↦ rw (set_elsewhere q apart, absent) tt
          | inr (f, at_q) ↦
              let (in_map, fine) : Listed g.by_key q (some f) =
                subst (Listed g.by_key q) at_q (s.listed q) in
              let (in_map_old, _) : Listed g.by_key p (some old) =
                subst (Listed g.by_key p) there (s.listed p) in
              rw (set_elsewhere q apart, at_q)
                (
                  λ air. ground (
                    arith,
                    lookup-remove old.key f.key g.by_key,
                    eq_iff old.key f.key,
                    in_map air,
                    in_map_old up,
                  ),
                  fine,
                )
        ]
      ];
    }

  close_at-key : (ph : Phase) (v : V) (f : Flight V) → (close_at ph v f).key ≡ f.key
  close_at-key flying v f = refl
  close_at-key closed v f = refl
  close_at-key released v f = refl

  close_at-in_air : (v : V) (f : Flight V) → in_air (close_at f.phase v f) ≡ in_air f
  close_at-in_air v f = ground arith

  close_at-has_outcome :
      (v : V) (f : Flight V)
      → has_outcome f ≡ is_closed f
      → has_outcome (close_at f.phase v f) ≡ is_closed (close_at f.phase v f)
  close_at-has_outcome v f done = ground arith

  close_flight-IsSound :
      (p : ℕ) (v : V) (g : FlightGroup V) → IsSound g → IsSound (close_flight p v g)
  unfolding close_flight
  close_flight-IsSound p v g s = elim (Option-cases (get_elem? g.flights p)) [
    | inl absent ↦ rw (close_flight, absent) s
    | inr (f, there) ↦
        let (_, done) : Listed g.by_key p (some f) = subst (Listed g.by_key p) there (s.listed p) in
        rw (close_flight, there)
          (kept-IsSound p f (close_at f.phase v f) g s there (close_at-key f.phase v f)
            (close_at-in_air v f) (close_at-has_outcome v f done))
  ]

  release_at-IsSound :
      (ph : Phase) (p : ℕ) (f : Flight V) (g : FlightGroup V)
      → f.phase ≡ ph
      → IsSound g
      → get_elem? g.flights p ≡ some f
      → has_outcome f ≡ is_closed f
      → IsSound (release_at ph p f g)
  release_at-IsSound flying p f g e s there done = s
  release_at-IsSound closed p f g e s there done =
      landed-IsSound p f (record f { phase = released }) g s there (ground (arith, e)) refl
        (ground (arith, e, done))
  release_at-IsSound released p f g e s there done = s

  release-IsSound : (p : ℕ) (g : FlightGroup V) → IsSound g → IsSound (release p g)
  unfolding release
  release-IsSound p g s = elim (Option-cases (get_elem? g.flights p)) [
    | inl absent ↦ rw (release, absent) s
    | inr (f, there) ↦
        let (_, done) : Listed g.by_key p (some f) = subst (Listed g.by_key p) there (s.listed p) in
        rw (release, there) (release_at-IsSound f.phase p f g refl s there done)
  ]

  Step-IsSound : {g h : FlightGroup V} → Step g h → IsSound g → IsSound h
  Step-IsSound {g} (acquires key) s = acquire-IsSound key g s
  Step-IsSound {g} (closes p v) s = close_flight-IsSound p v g s
  Step-IsSound {g} (releases p) s = release-IsSound p g s

  pub Reach-IsSound : {g h : FlightGroup V} → Reach g h → IsSound g → IsSound h
  Reach-IsSound here s = s
  Reach-IsSound (next r st) s = Step-IsSound st (Reach-IsSound r s)
