-- ===== src/Engine/Queues.antt =====
-- The per-key queues of src/engine/scheduler.rs, `HashMap<[u8; 32], VecDeque<QueuedOperation>>`, as
-- an association list, and `active`, a `HashSet`, as a list. The order in which the map is iterated
-- is a parameter.
use atomic_blob_store.Prelude.{
  ℕ, ◌≡◌, Bool, true, false, ◌&&◌, ◌||◌, Option, none, some, List, [], ◌∷◌, ◌++◌, ◌==◌,
  if◌then◌else◌, is_empty,
}
use atomic_blob_store.Engine.Operation.{Operation}

abbrev pub Queues : Type 0
Queues = List (ℕ × List Operation)

unfoldable pub contains : ℕ → List ℕ → Bool
contains k [] = false
contains k (x ∷ xs) = x == k || contains k xs

-- `HashSet::remove`.
unfoldable pub remove : ℕ → List ℕ → List ℕ
remove k [] = []
remove k (x ∷ xs) = let rest = remove k xs in if x == k then rest else x ∷ rest

-- `queues.get(&key)`.
unfoldable pub queue_of : ℕ → Queues → Option (List Operation)
queue_of k [] = none
queue_of k ((j, ops) ∷ rest) = if j == k then some ops else queue_of k rest

-- `queues.entry(key).or_default().push_back(operation)`.
unfoldable pub push_back : ℕ → Operation → Queues → Queues
push_back k op [] = (k, op ∷ []) ∷ []
push_back k op ((j, ops) ∷ rest) =
    if j == k then (j, ops ++ (op ∷ [])) ∷ rest else (j, ops) ∷ push_back k op rest

abbrev pub pop_entry : ℕ → List Operation → Queues → Option (Operation × Queues)
pop_entry j [] rest = none
pop_entry j (op ∷ ops) rest = some (op, (j, ops) ∷ rest)

abbrev pub keep_entry :
    ℕ × List Operation → Option (Operation × Queues) → Option (Operation × Queues)
keep_entry entry none = none
keep_entry entry (some (op, rest)) = some (op, entry ∷ rest)

-- `queues.get_mut(&key).and_then(VecDeque::pop_front)`.
unfoldable pub pop_front : ℕ → Queues → Option (Operation × Queues)
pop_front k [] = none
pop_front k ((j, ops) ∷ rest) =
    if j == k then pop_entry j ops rest else keep_entry (j, ops) (pop_front k rest)

-- `if queues.get(&key).is_some_and(VecDeque::is_empty) { queues.remove(&key); }`
unfoldable pub remove_if_empty : ℕ → Queues → Queues
remove_if_empty k [] = []
remove_if_empty k ((j, ops) ∷ rest) =
    if j == k
    then (if is_empty ops then rest else (j, ops) ∷ rest)
    else (j, ops) ∷ remove_if_empty k rest

-- `queues.values().all(VecDeque::is_empty)`.
unfoldable pub all_empty : Queues → Bool
all_empty [] = true
all_empty ((j, ops) ∷ rest) = is_empty ops && all_empty rest

abbrev pub has_work : Option (List Operation) → Bool
has_work none = false
has_work (some []) = false
has_work (some (op ∷ ops)) = true

-- The keys of the map in the order of `queues.iter()`; every key with work is among them.
pub record KeyOrder : Type 0 where
  pub keys : Queues → List ℕ
  pub complete :
      (queues : Queues) (k : ℕ)
      → has_work (queue_of k queues) ≡ true
      → contains k (keys queues) ≡ true

-- `find_map` for a key that has work and is not active.
unfoldable pub find_idle : List ℕ → Queues → List ℕ → Option ℕ
find_idle [] queues active = none
find_idle (k ∷ ks) queues active =
    if has_work (queue_of k queues)
    then (if contains k active then find_idle ks queues active else some k)
    else find_idle ks queues active
