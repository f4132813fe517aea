-- ===== src/Session/Events.antt =====
-- AddEvent of internal/session/store.go: the events that a record keeps.
use mathlib.Core.List.{append-nil, append_assoc}
use feishu_super_search.Prelude.{
  ◌⊎◌, take, eqb, eq_iff, ◌==◌, if◌then◌else◌, String, ℕ, zero, suc, ◌+◌, ◌-◌, ◌≤◌, ◌≡◌, refl, sym,
  List, [], ◌∷◌, ◌++◌, length, drop, ltb, length-append, Bool-cases, inl, inr, arith, ◌∙◌, ap,
}
use feishu_super_search.Kernel.Snapshots.{RetrievalEvent}
use feishu_super_search.Session.{Record, newest, fill_event, add_event}

-- The calls of AddEvent, each with the id and the time that it may fill in.
unfoldable pub add_events : List (String × ℕ × RetrievalEvent) → Record → Record
add_events [] r = r
add_events ((fresh, now, e) ∷ calls) r = add_events calls (add_event fresh now e r)

-- All events that the calls hand over, as they are filled in.
unfoldable pub filled : List (String × ℕ × RetrievalEvent) → Record → List RetrievalEvent
filled [] r = []
filled ((fresh, now, e) ∷ calls) r = fill_event fresh now r e ∷ filled calls r

length-drop : (n : ℕ) (xs : List RetrievalEvent) → length (drop n xs) ≡ length xs - n
length-drop zero xs = omega arith
length-drop (suc n) [] = omega arith
length-drop (suc n) (x ∷ xs) = omega (arith, length-drop n xs)

drop-append :
    (n : ℕ) (xs ys : List RetrievalEvent) → n ≤ length xs → drop n (xs ++ ys) ≡ drop n xs ++ ys
drop-append zero xs ys h = refl
drop-append (suc n) [] ys h = absurd (omega arith)
drop-append (suc n) (x ∷ xs) ys h = drop-append n xs ys (omega arith)

drop-nil : (n : ℕ) → drop {A = RetrievalEvent} n [] ≡ []
drop-nil zero = refl
drop-nil (suc n) = refl

drop-drop : (m n : ℕ) (xs : List RetrievalEvent) → drop m (drop n xs) ≡ drop (n + m) xs
drop-drop m zero xs = ground arith
drop-drop m (suc n) [] = drop-nil m ∙ sym (drop-nil (suc n + m))
drop-drop m (suc n) (x ∷ xs) =
    let e : suc n + m ≡ suc (n + m) = omega arith in rw e (drop-drop m n xs)

newest-drop : (n : ℕ) (xs : List RetrievalEvent) → newest n xs ≡ drop (length xs - n) xs
unfolding newest
newest-drop n xs = elim (Bool-cases (ltb n (length xs))) [
  | inl long ↦ rw long refl
  | inr short ↦ let e : length xs - n ≡ 0 = ground arith in rw (short, e) refl
]

-- Dropping the oldest events early makes no difference.
newest-newest :
    (n : ℕ) (xs ys : List RetrievalEvent) → newest n (newest n xs ++ ys) ≡ newest n (xs ++ ys)
newest-newest n xs ys =
    let d = length xs - n in
    let kept : newest n xs ++ ys ≡ drop d (xs ++ ys) =
      ap (λ (l : List RetrievalEvent). l ++ ys) (newest-drop n xs)
      ∙ sym (drop-append d xs ys (omega arith)) in
    let size : d + (length (drop d (xs ++ ys)) - n) ≡ length (xs ++ ys) - n =
      omega (arith, length-drop d (xs ++ ys), length-append xs ys) in
    ap (newest n) kept
    ∙ newest-drop n (drop d (xs ++ ys))
    ∙ drop-drop (length (drop d (xs ++ ys)) - n) d (xs ++ ys)
    ∙ ap (λ (k : ℕ). drop k (xs ++ ys)) size
    ∙ sym (newest-drop n (xs ++ ys))

-- What AddEvent fills in depends on the id of the record alone.
filled-add_event :
    (calls : List (String × ℕ × RetrievalEvent)) (fresh : String) (now : ℕ) (e : RetrievalEvent)
    (r : Record)
    → filled calls (add_event fresh now e r) ≡ filled calls r
unfolding filled add_event
filled-add_event [] fresh now e r = refl
filled-add_event ((f, n, d) ∷ calls) fresh now e r =
    ap (λ (l : List RetrievalEvent). fill_event f n r d ∷ l) (filled-add_event calls fresh now e r)

add_event-keeps :
    (fresh : String) (now : ℕ) (e : RetrievalEvent) (r : Record) (old : List RetrievalEvent)
    → r.events ≡ newest 2000 old
    → (add_event fresh now e r).events ≡ newest 2000 (old ++ fill_event fresh now r e ∷ [])
unfolding add_event
add_event-keeps fresh now e r old h =
    ap (λ (l : List RetrievalEvent). newest 2000 (l ++ fill_event fresh now r e ∷ [])) h
    ∙ newest-newest 2000 old (fill_event fresh now r e ∷ [])

newest-short : (n : ℕ) (xs : List RetrievalEvent) → length xs ≤ n → newest n xs ≡ xs
unfolding newest
newest-short n xs h = ground arith

add_events-keeps :
    (calls : List (String × ℕ × RetrievalEvent)) (r : Record) (old : List RetrievalEvent)
    → r.events ≡ newest 2000 old
    → (add_events calls r).events ≡ newest 2000 (old ++ filled calls r)
unfolding add_events filled
add_events-keeps [] r old h = h ∙ ap (newest 2000) (sym (append-nil old))
add_events-keeps ((fresh, now, e) ∷ calls) r old h =
    let new = fill_event fresh now r e in
    add_events-keeps calls (add_event fresh now e r) (old ++ new ∷ [])
      (add_event-keeps fresh now e r old h)
    ∙ ap (λ (l : List RetrievalEvent). newest 2000 ((old ++ new ∷ []) ++ l))
        (filled-add_event calls fresh now e r)
    ∙ ap (newest 2000) (append_assoc old (new ∷ []) (filled calls r))

-- A field that is left blank gets the default, and any other keeps what is given.
abbrev pub Fills {ℓ} : {A : Type ℓ} → (blank given default result : A) → Type ℓ
Fills blank given default result =
    ((given ≡ blank) × (result ≡ default)) ⊎ ((¬ (given ≡ blank)) × (result ≡ given))

-- What is recorded of a call on the record `owner`.
pub record IsFilled (owner : String) (call : String × ℕ × RetrievalEvent) (e : RetrievalEvent)
    : Type 0 where
  pub id : Fills "" call.2.id call.0 e.id
  pub session_id : Fills "" call.2.session_id owner e.session_id
  pub time : Fills 0 call.2.time call.1 e.time
  pub kind : e.kind ≡ call.2.kind
  pub node_id : e.node_id ≡ call.2.node_id
  pub source : e.source ≡ call.2.source
  pub payload : e.payload ≡ call.2.payload

abbrev pub AreFilled : String → List (String × ℕ × RetrievalEvent) → List RetrievalEvent → Type 0
AreFilled owner [] [] = Unit
AreFilled owner (c ∷ calls) (e ∷ events) = IsFilled owner c e × AreFilled owner calls events
AreFilled owner _ _ = ⊥

-- `added` are the events of the calls, `dropped` what is no longer held of them and of the old
-- ones: the first ones, and no more than needed.
pub record HoldsNewest (calls : List (String × ℕ × RetrievalEvent)) (r : Record) : Type 0 where
  pub added : List RetrievalEvent
  pub dropped : List RetrievalEvent
  pub filled : AreFilled r.id calls added
  pub whole : dropped ++ (add_events calls r).events ≡ r.events ++ added
  pub size :
      length (add_events calls r).events
      ≡ (if ltb 2000 (length (r.events ++ added)) then 2000 else length (r.events ++ added))

fill_blank :
    (given default : String) → Fills "" given default (if given == "" then default else given)
fill_blank given default = elim (Bool-cases (given == "")) [
  | inl blank ↦ rw blank (inl ((eq_iff given "").0 blank, refl))
  | inr there ↦ rw there (inr ((λ e. absurd (ground (arith, there, (eq_iff given "").1 e))), refl))
]

fill_time : (given default : ℕ) → Fills 0 given default (if eqb given 0 then default else given)
fill_time zero default = inl (refl, refl)
fill_time (suc n) default = inr ((λ e. absurd (omega (arith, e))), ground arith)

fill_event-IsFilled :
    (fresh : String) (now : ℕ) (r : Record) (e : RetrievalEvent)
    → IsFilled r.id (fresh, now, e) (fill_event fresh now r e)
fill_event-IsFilled fresh now r e = record {
  id = fill_blank e.id fresh;
  session_id = fill_blank e.session_id r.id;
  time = fill_time e.time now;
  kind = refl;
  node_id = refl;
  source = refl;
  payload = refl;
}

filled-AreFilled :
    (calls : List (String × ℕ × RetrievalEvent)) (r : Record)
    → AreFilled r.id calls (filled calls r)
unfolding filled
filled-AreFilled [] r = tt
filled-AreFilled ((fresh, now, e) ∷ calls) r =
    (fill_event-IsFilled fresh now r e, filled-AreFilled calls r)

take-drop : (n : ℕ) (xs : List RetrievalEvent) → take n xs ++ drop n xs ≡ xs
take-drop zero xs = refl
take-drop (suc n) [] = refl
take-drop (suc n) (x ∷ xs) = ap (λ (l : List RetrievalEvent). x ∷ l) (take-drop n xs)

length-newest-exact :
    (n : ℕ) (xs : List RetrievalEvent)
    → length (newest n xs) ≡ (if ltb n (length xs) then n else length xs)
length-newest-exact n xs = rw (newest-drop n xs) (ground (arith, length-drop (length xs - n) xs))

-- If a record holds at most 2000 events, then after any calls of AddEvent its events are the
-- end of the list of the old events followed by one for each call: all of them, or 2000 if they
-- are more. The event of a call has the fields that were given, but for an id, a session id or
-- a time that was left blank, which is the fresh id, the id of the record or the time of the
-- call.
pub add_events-HoldsNewest :
    (calls : List (String × ℕ × RetrievalEvent)) (r : Record)
    → length r.events ≤ 2000
    → HoldsNewest calls r
add_events-HoldsNewest calls r h =
    let all = r.events ++ filled calls r in
    let kept = add_events-keeps calls r r.events (sym (newest-short 2000 r.events h)) in
    record {
      added = filled calls r;
      dropped = take (length all - 2000) all;
      filled = filled-AreFilled calls r;
      whole = rw (kept, newest-drop 2000 all) (take-drop (length all - 2000) all);
      size = rw kept (length-newest-exact 2000 all);
    }
