-- ===== src/Suggest/Lru.antt =====
-- internal/suggestions/suggest/lru.go: a cache that evicts what was used least recently. An element
-- of the linked list is its address and the entry it carries, so that the map can point to it; the
-- order is the list of the elements, the front first. An int64 is its bit pattern. The mutex makes
-- each call one step.
use mathlib.Core.Logic.{ite}
use clai.Common.{
  ℕ, zero, suc, ◌+◌, ◌-◌, ◌%◌, ◌^◌, ◌==◌, ltb, leb, ◌&&◌, not, if◌then◌else◌, Bool, true, false,
  List, [], ◌∷◌, length, keep, Option, none, some, ℤ, positive_or, int64_add,
}
pub mod Elements
pub mod Recency
pub mod Valid
pub mod Moves
pub mod Refinement
pub mod Eviction
pub mod Removal
pub mod Runs
mod Samples

abbrev pub word : ℕ
word = 2 ^ 64

abbrev pub int64_minus : ℕ → ℕ → ℕ
int64_minus a b = (a + word - b) % word

-- `a > b` of signed numbers.
abbrev pub int64_more : ℕ → ℕ → Bool
int64_more a b = ltb ((b + 2 ^ 63) % word) ((a + 2 ^ 63) % word)

pub record LruEntry (K V : Type 0) : Type 0 where
  pub key : K
  pub val : V
  pub size : ℕ

pub record Element (K V : Type 0) : Type 0 where
  pub id : ℕ
  pub entry : LruEntry K V

pub record Lru (K V : Type 0) : Type 0 where
  pub items : K → Option ℕ
  pub order : List (Element K V)
  pub capacity : ℕ
  pub size : ℕ
  -- The address of the next element.
  pub next_id : ℕ

module _ {K V : Type 0} where
  unfoldable pub new_lru : ℤ → Lru K V
  new_lru capacity = record {
    items = λ k. none;
    order = [];
    capacity = positive_or capacity 1;
    size = 0;
    next_id = 0;
  }

  -- The entry of the element at an address.
  unfoldable pub entry_at : ℕ → List (Element K V) → Option (LruEntry K V)
  entry_at i [] = none
  entry_at i (x ∷ xs) = if x.id == i then some x.entry else entry_at i xs

  -- `order.Remove`
  unfoldable pub without : ℕ → List (Element K V) → List (Element K V)
  without i [] = []
  without i (x ∷ xs) = let rest = without i xs in if x.id == i then xs else x ∷ rest

  -- `order.Back`
  abbrev pub back : List (Element K V) → Option (Element K V)
  back [] = none
  back (x ∷ []) = some x
  back (x ∷ y ∷ xs) = back (y ∷ xs)

  unfoldable pub len : Lru K V → ℕ
  len l = length l.order

  unfoldable pub size : Lru K V → ℕ
  size l = l.size

  unfoldable pub clear : Lru K V → Lru K V
  clear l = record l { items = λ k. none; order = []; size = 0 }

module _ {K V : Type 0} (dec : Discrete K) (size_func : Option (K → V → ℕ)) where
  abbrev pub size_by : Option (K → V → ℕ) → K → V → ℕ
  size_by none k v = 1
  size_by (some f) k v = f k v % word

  -- `entrySize`
  abbrev pub size_of : K → V → ℕ
  size_of k v = size_by size_func k v

  abbrev pub found : ℕ → Option (LruEntry K V) → Lru K V → Lru K V × Option V
  found i none l = (l, none)
  found i (some e) l =
      (record l { order = record { id = i; entry = e } ∷ without i l.order }, some e.val)

  abbrev pub get_at : Option ℕ → Lru K V → Lru K V × Option V
  get_at none l = (l, none)
  get_at (some i) l = found i (entry_at i l.order) l

  unfoldable pub get : K → Lru K V → Lru K V × Option V
  get k l = get_at (l.items k) l

  unfoldable pub remove_element : Element K V → Lru K V → Lru K V
  remove_element x l = record l {
    order = without x.id l.order;
    items = λ k. ite (dec x.entry.key k) none (l.items k);
    size = int64_minus l.size x.entry.size;
  }

  abbrev pub evict : Option (Element K V) → Lru K V → Lru K V
  evict none l = l
  evict (some x) l = remove_element x l

  unfoldable pub evict_oldest : Lru K V → Lru K V
  evict_oldest l = evict (back l.order) l

  -- The loop of `Put`; each round removes an element.
  unfoldable pub make_room : ℕ → Lru K V → Lru K V
  make_room zero l = l
  make_room (suc rounds) l =
      let next = make_room rounds (evict_oldest l) in
      if leb l.capacity (length l.order) then next else l

  abbrev pub push_front : K → V → Lru K V → Lru K V
  push_front k v l = record l {
    order =
        record { id = l.next_id; entry = record { key = k; val = v; size = size_of k v } }
        ∷ l.order;
    items = λ j. ite (dec k j) (some l.next_id) (l.items j);
    size = int64_add l.size (size_of k v);
    next_id = l.next_id + 1;
  }

  abbrev pub update : ℕ → K → V → Option (LruEntry K V) → Lru K V → Lru K V
  update i k v none l = l
  update i k v (some e) l = record l {
    order = record { id = i; entry = record e { val = v; size = size_of k v } } ∷ without i l.order;
    size = int64_add (int64_minus l.size e.size) (size_of k v);
  }

  abbrev pub put_at : Option ℕ → K → V → Lru K V → Lru K V
  put_at (some i) k v l = update i k v (entry_at i l.order) l
  put_at none k v l = push_front k v (make_room (length l.order) l)

  unfoldable pub put : K → V → Lru K V → Lru K V
  put k v l = put_at (l.items k) k v l

  abbrev pub remove_found : ℕ → Option (LruEntry K V) → Lru K V → Lru K V
  remove_found i none l = l
  remove_found i (some e) l = remove_element (record { id = i; entry = e }) l

  abbrev pub delete_at : Option ℕ → Lru K V → Lru K V × Bool
  delete_at none l = (l, false)
  delete_at (some i) l = (remove_found i (entry_at i l.order) l, true)

  unfoldable pub delete : K → Lru K V → Lru K V × Bool
  delete k l = delete_at (l.items k) l

  unfoldable pub remove_each : List (Element K V) → Lru K V → Lru K V
  remove_each [] l = l
  remove_each (x ∷ xs) l = remove_each xs (remove_element x l)

  unfoldable pub delete_func : (K → V → Bool) → Lru K V → Lru K V × ℕ
  delete_func pred l =
      let to_remove = keep (λ x. pred x.entry.key x.entry.val) l.order in
      (remove_each to_remove l, length to_remove)

  -- The loop of `EvictToSize`; each round removes an element.
  unfoldable pub evict_while : ℕ → ℕ → Lru K V → Lru K V × ℕ
  evict_while zero target l = (l, 0)
  evict_while (suc rounds) target l =
      let (l', evicted) = evict_while rounds target (evict_oldest l) in
      if int64_more l.size target && not (length l.order == 0) then (l', evicted + 1) else (l, 0)

  unfoldable pub evict_to_size : ℕ → Lru K V → Lru K V × ℕ
  evict_to_size target l = evict_while (length l.order) target l
