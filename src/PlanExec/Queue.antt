-- ===== src/PlanExec/Queue.antt =====
-- The two heaps of the executor. `container/heap` gives back an item that no other item is less
-- than; the order of the rest is not observed, so a heap is a list here.
use feishu_super_search.Prelude.{
  ℕ, suc, String, ◌≡◌, refl, Bool, false, ◌||◌, Option, none, some, List, [], ◌∷◌, ◌++◌, ltb, eqb,
  ◌==◌, if◌then◌else◌, length, arith,
}

-- `==` and `>` on float64 priorities, which stand as their bit patterns.
pub record FloatOrder : Type 0 where
  pub equal : ℕ → ℕ → Bool
  pub greater : ℕ → ℕ → Bool

pub record ReadyItem : Type 0 where
  pub id : String
  pub priority : ℕ
  pub seq : ℕ

pub record RetryItem : Type 0 where
  pub id : String
  pub due : ℕ
  pub seq : ℕ

-- readyHeap.Less
unfoldable pub ready_less : FloatOrder → ReadyItem → ReadyItem → Bool
ready_less order a b =
    if order.equal a.priority b.priority
    then ltb a.seq b.seq
    else order.greater a.priority b.priority

-- retryHeap.Less
unfoldable pub retry_less : RetryItem → RetryItem → Bool
retry_less a b = if eqb a.due b.due then ltb a.seq b.seq else ltb a.due b.due

module _ {A : Type 0} (less : A → A → Bool) where
  abbrev keep_less : A → List A → Option (A × List A) → Option (A × List A)
  keep_less x xs none = some (x, [])
  keep_less x xs (some (y, ys)) = if less y x then some (y, x ∷ ys) else some (x, xs)

  -- heap.Pop, and `none` on an empty heap.
  unfoldable pub pop : List A → Option (A × List A)
  pop [] = none
  pop (x ∷ xs) = keep_less x xs (pop xs)

-- Whether an item of a heap has an id.
abbrev pub queued : {A : Type 0} → (A → String) → String → List A → Bool
queued name id [] = false
queued name id (x ∷ xs) = name x == id || queued name id xs

abbrev pub from_popped : {A : Type 0} → (A → String) → String → Option (A × List A) → Bool
from_popped name id none = false
from_popped name id (some (x, xs)) = name x == id || queued name id xs

-- What is popped and what is left together hold the same ids.
pub queued-pop :
    {A : Type 0} (less : A → A → Bool) (name : A → String) (id : String) (xs : List A)
    → queued name id xs ≡ from_popped name id (pop less xs)
unfolding pop
queued-pop less name id [] = refl
queued-pop less name id (x ∷ xs) = ground (arith, queued-pop less name id xs)

pub queued-append :
    {A : Type 0} (name : A → String) (id : String) (xs ys : List A)
    → queued name id (xs ++ ys) ≡ queued name id xs || queued name id ys
queued-append name id [] ys = refl
queued-append name id (x ∷ xs) ys = ground (arith, queued-append name id xs ys)

abbrev pub rest_length : {A : Type 0} → Option (A × List A) → ℕ
rest_length none = 0
rest_length (some (x, xs)) = suc (length xs)

pub length-pop :
    {A : Type 0} (less : A → A → Bool) (xs : List A) → length xs ≡ rest_length (pop less xs)
unfolding pop
length-pop less [] = refl
length-pop less (x ∷ xs) = ground (arith, length-pop less xs)
