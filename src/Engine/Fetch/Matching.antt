-- ===== src/Engine/Fetch/Matching.antt =====
-- matchBatchArtifacts: which artifact each request of a batch gets.
use feishu_super_search.Prelude.{
  ℕ, zero, suc, ◌+◌, ◌≤◌, ◌≡◌, refl, sym, ap, ◌∙◌, ◌⊎◌, inl, inr, Bool, true, false, not, ◌&&◌,
  Option, none, some, List, [], ◌∷◌, length, count, get_elem?, set, get_elem?-set, eqb,
  if◌then◌else◌, Bool-cases, arith,
}
use feishu_super_search.Kernel.Objects.{Artifact}
use feishu_super_search.Engine.Fetch.{
  ProviderFetchRequest, is_identified, pick, mark, match_identified, is_free, match_in_order,
  unused, match_positions,
}

-- The artifact at `j` is identified by the request, or stands where the request does.
abbrev pub Suits : ℕ → ProviderFetchRequest → List Artifact → ℕ → Type 0
Suits i req artifacts j =
    (a : Artifact) × (get_elem? artifacts j ≡ some a) × ((is_identified req a ≡ true) ⊎ (j ≡ i))

-- There is a position or `none` for each request from `i` on, and each position suits.
abbrev pub Fits : ℕ → List ProviderFetchRequest → List Artifact → List (Option ℕ) → Type 0
Fits i [] artifacts [] = Unit
Fits i [] artifacts (_ ∷ _) = ⊥
Fits i (req ∷ reqs) artifacts [] = ⊥
Fits i (req ∷ reqs) artifacts (none ∷ out) = Fits (suc i) reqs artifacts out
Fits i (req ∷ reqs) artifacts (some j ∷ out) =
    Suits i req artifacts j × Fits (suc i) reqs artifacts out

abbrev pub is_at : ℕ → Option ℕ → Bool
is_at j none = false
is_at j (some i) = eqb i j

abbrev flag_of : Option Bool → ℕ
flag_of none = 0
flag_of (some u) = if u then 1 else 0

-- 1 if the artifact at `j` is used.
abbrev flag : ℕ → List Bool → ℕ
flag j used = flag_of (get_elem? used j)

flag-set :
    (used : List Bool) (i j : ℕ)
    → get_elem? used i ≡ some false
    → flag j (set used i true) ≡ flag j used + (if eqb i j then 1 else 0)
flag-set used i j free = elim (Bool-cases (eqb i j)) [
  | inl same ↦
      let e : i ≡ j = ground arith in
      let at_j : get_elem? used j ≡ some false = ap (get_elem? used) (sym e) ∙ free in
      rw (get_elem?-set used i j true, same, at_j) refl
  | inr apart ↦ rw (get_elem?-set used i j true, apart) (omega arith)
]

length-set : (used : List Bool) (i : ℕ) → length (set used i true) ≡ length used
length-set [] i = refl
length-set (u ∷ used) zero = refl
length-set (u ∷ used) (suc i) = ground (arith, length-set used i)

get_elem?-same_length :
    (used : List Bool) (artifacts : List Artifact) (i : ℕ) (u : Bool)
    → length used ≡ length artifacts
    → get_elem? used i ≡ some u
    → (a : Artifact) × (get_elem? artifacts i ≡ some a)
get_elem?-same_length [] artifacts i u same h = cc
get_elem?-same_length (v ∷ used) [] i u same h = absurd (omega arith)
get_elem?-same_length (v ∷ used) (a ∷ artifacts) zero u same h = (a, refl)
get_elem?-same_length (v ∷ used) (a ∷ artifacts) (suc i) u same h =
    get_elem?-same_length used artifacts i u (omega arith) h

-- What `pick` finds is not used yet, and identified by the request.
abbrev Picked : ProviderFetchRequest → List Artifact → List Bool → ℕ → Option ℕ → Type 0
Picked req artifacts used n o =
    (o ≡ none)
    ⊎ ((d : ℕ) × (o ≡ some (n + d))
        × (get_elem? used d ≡ some false)
        × ((a : Artifact) × (get_elem? artifacts d ≡ some a) × (is_identified req a ≡ true)))

pick-Picked :
    (req : ProviderFetchRequest) (artifacts : List Artifact) (used : List Bool) (n : ℕ)
    → Picked req artifacts used n (pick req artifacts used n)
unfolding pick
pick-Picked req [] used n = inl refl
pick-Picked req (a ∷ artifacts) [] n = inl refl
pick-Picked req (a ∷ artifacts) (u ∷ used) n = elim (Bool-cases (not u && is_identified req a)) [
  | inl here ↦
      rw here
        (inr (0, ap some (omega arith), ground (arith, here), (a, refl, ground (arith, here))))
  | inr further ↦ rw further (elim (pick-Picked req artifacts used (suc n)) [
    | inl absent ↦ inl absent
    | inr (d, found, free, at_d) ↦ inr (suc d, found ∙ ap some (omega arith), free, at_d)
  ])
]

flag-mark :
    (req : ProviderFetchRequest) (artifacts : List Artifact) (used : List Bool) (o : Option ℕ)
    (j : ℕ)
    → Picked req artifacts used 0 o
    → flag j (mark o used) ≡ flag j used + (if is_at j o then 1 else 0)
flag-mark req artifacts used o j (inl absent) = rw absent (omega arith)
flag-mark req artifacts used o j (inr (d, found, free, _)) =
    let e : o ≡ some d = found ∙ ap some (omega arith) in rw e (flag-set used d j free)

length-mark : (o : Option ℕ) (used : List Bool) → length (mark o used) ≡ length used
length-mark none used = refl
length-mark (some j) used = length-set used j

match_identified-count :
    (reqs : List ProviderFetchRequest) (artifacts : List Artifact) (used : List Bool) (j : ℕ)
    → count (is_at j) (match_identified reqs artifacts used).0 + flag j used
      ≡ flag j (match_identified reqs artifacts used).1
unfolding match_identified
match_identified-count [] artifacts used j = omega arith
match_identified-count (req ∷ reqs) artifacts used j =
    let o = pick req artifacts used 0 in
    omega (
      arith,
      match_identified-count reqs artifacts (mark o used) j,
      flag-mark req artifacts used o j (pick-Picked req artifacts used 0),
    )

Fits-cons :
    (i : ℕ) (req : ProviderFetchRequest) (reqs : List ProviderFetchRequest)
    (artifacts : List Artifact) (used : List Bool) (o : Option ℕ) (out : List (Option ℕ))
    → Picked req artifacts used 0 o
    → Fits (suc i) reqs artifacts out
    → Fits i (req ∷ reqs) artifacts (o ∷ out)
Fits-cons i req reqs artifacts used o out (inl absent) h = rw absent h
Fits-cons i req reqs artifacts used o out (inr (d, found, free, (a, at_d, own))) h =
    let e : o ≡ some d = found ∙ ap some (omega arith) in rw e ((a, at_d, inl own), h)

is_free-get : (i : ℕ) (used : List Bool) → is_free i used ≡ true → get_elem? used i ≡ some false
is_free-get i [] h = cc
is_free-get zero (u ∷ used) h = ground (arith, h)
is_free-get (suc i) (u ∷ used) h = is_free-get i used h

match_identified-Fits :
    (i : ℕ) (reqs : List ProviderFetchRequest) (artifacts : List Artifact) (used : List Bool)
    → Fits i reqs artifacts (match_identified reqs artifacts used).0
unfolding match_identified
match_identified-Fits i [] artifacts used = tt
match_identified-Fits i (req ∷ reqs) artifacts used =
    Fits-cons i req reqs artifacts used (pick req artifacts used 0) _
      (pick-Picked req artifacts used 0)
      (match_identified-Fits (suc i) reqs artifacts (mark (pick req artifacts used 0) used))

match_in_order-count :
    (i : ℕ) (out : List (Option ℕ)) (used : List Bool) (j : ℕ)
    → count (is_at j) (match_in_order i out used).0 + flag j used
      ≡ count (is_at j) out + flag j (match_in_order i out used).1
unfolding match_in_order
match_in_order-count i [] used j = omega arith
match_in_order-count i (some k ∷ out) used j =
    omega (arith, match_in_order-count (suc i) out used j)
match_in_order-count i (none ∷ out) used j = elim (Bool-cases (is_free i used)) [
  | inl free ↦
      rw (match_in_order, free)
        (omega (
          arith,
          match_in_order-count (suc i) out (set used i true) j,
          flag-set used i j (is_free-get i used free),
        ))
  | inr held ↦ rw (match_in_order, held) (omega (arith, match_in_order-count (suc i) out used j))
]

match_in_order-Fits :
    (i : ℕ) (reqs : List ProviderFetchRequest) (artifacts : List Artifact) (out : List (Option ℕ))
    (used : List Bool)
    → length used ≡ length artifacts
    → Fits i reqs artifacts out
    → Fits i reqs artifacts (match_in_order i out used).0
unfolding match_in_order
match_in_order-Fits i [] artifacts [] used same h = tt
match_in_order-Fits i [] artifacts (o ∷ out) used same h = elim h [ ]
match_in_order-Fits i (req ∷ reqs) artifacts [] used same h = elim h [ ]
match_in_order-Fits i (req ∷ reqs) artifacts (some k ∷ out) used same h =
    (h.0, match_in_order-Fits (suc i) reqs artifacts out used same h.1)
match_in_order-Fits i (req ∷ reqs) artifacts (none ∷ out) used same h =
    elim (Bool-cases (is_free i used)) [
      | inl free ↦
          let (a, at_i) =
            get_elem?-same_length used artifacts i false same (is_free-get i used free) in
          rw (match_in_order, free)
            (
              (a, at_i, inr refl),
              match_in_order-Fits (suc i) reqs artifacts out (set used i true)
                  (length-set used i ∙ same) h,
            )
      | inr held ↦
          rw (match_in_order, held) (match_in_order-Fits (suc i) reqs artifacts out used same h)
    ]

length-match_identified :
    (reqs : List ProviderFetchRequest) (artifacts : List Artifact) (used : List Bool)
    → length (match_identified reqs artifacts used).1 ≡ length used
unfolding match_identified
length-match_identified [] artifacts used = refl
length-match_identified (req ∷ reqs) artifacts used =
    length-match_identified reqs artifacts (mark (pick req artifacts used 0) used)
    ∙ length-mark (pick req artifacts used 0) used

length-unused : (artifacts : List Artifact) → length (unused artifacts) ≡ length artifacts
unfolding unused
length-unused [] = refl
length-unused (a ∷ artifacts) = ground (arith, length-unused artifacts)

flag-unused : (j : ℕ) (artifacts : List Artifact) → flag j (unused artifacts) ≡ 0
unfolding unused
flag-unused j [] = refl
flag-unused zero (a ∷ artifacts) = refl
flag-unused (suc j) (a ∷ artifacts) = flag-unused j artifacts

flag-le : (j : ℕ) (used : List Bool) → flag j used ≤ 1
flag-le j used = ground arith

-- No artifact of a batch is given to two requests, and each request gets none, or one that it
-- identifies, or the one at its own position.
pub match_positions-Fits :
    (reqs : List ProviderFetchRequest) (artifacts : List Artifact) (j : ℕ)
    → Fits 0 reqs artifacts (match_positions reqs artifacts)
      × (count (is_at j) (match_positions reqs artifacts) ≤ 1)
unfolding match_positions
match_positions-Fits reqs artifacts j =
    let first = match_identified reqs artifacts (unused artifacts) in
    (
      match_in_order-Fits 0 reqs artifacts first.0 first.1
          (length-match_identified reqs artifacts (unused artifacts) ∙ length-unused artifacts)
          (match_identified-Fits 0 reqs artifacts (unused artifacts)),
      omega (
        arith,
        match_in_order-count 0 first.0 first.1 j,
        match_identified-count reqs artifacts (unused artifacts) j,
        flag-unused j artifacts,
        flag-le j (match_in_order 0 first.0 first.1).1,
      ),
    )
