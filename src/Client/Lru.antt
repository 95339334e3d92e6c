-- ===== src/Client/Lru.antt =====
-- memclient/src/lru_cache.cpp and its header. The front of `list_` is the head of `list`. `map_` is
-- kept as its keys: each maps to the list node of that handle. The mutex makes each method one step.
pub mod Invariant
pub mod Order
pub mod Methods
pub mod Back
mod Tests
use ram_vram_sharing.Prelude.{
  ℕ, zero, suc, ◌+◌, ◌-◌, Bool, true, false, Option, none, some, List, [], ◌∷◌, ltb, ◌==◌,
  if◌then◌else◌, length,
}

pub record CacheBlock : Type 0 where
  pub handle : ℕ
  pub bytes : List ℕ
  pub dirty : Bool

pub record Cache : Type 0 where
  pub max_bytes : ℕ
  pub current_bytes : ℕ
  pub list : List CacheBlock
  pub keys : List ℕ

unfoldable pub create : ℕ → Cache
create max_bytes = record { max_bytes = max_bytes; current_bytes = 0; list = []; keys = [] }

-- The node that an iterator for `handle` points to.
pub node : ℕ → List CacheBlock → Option CacheBlock
node h [] = none
node h (b ∷ bs) = if b.handle == h then some b else node h bs

-- list_.erase(it)
pub unlink : ℕ → List CacheBlock → List CacheBlock
unlink h [] = []
unlink h (b ∷ bs) = if b.handle == h then bs else b ∷ unlink h bs

pub has_key : ℕ → List ℕ → Bool
has_key h [] = false
has_key h (k ∷ ks) = if k == h then true else has_key h ks

pub erase_key : ℕ → List ℕ → List ℕ
erase_key h [] = []
erase_key h (k ∷ ks) = if k == h then ks else k ∷ erase_key h ks

-- map_.find
pub find : ℕ → Cache → Option CacheBlock
unfolding has_key node
find h c = if has_key h c.keys then node h c.list else none

-- The entry found leaves the list and the map.
abbrev pub forget : ℕ → CacheBlock → Cache → Cache
forget h b c = record c {
  current_bytes = c.current_bytes - length b.bytes;
  list = unlink h c.list;
  keys = erase_key h c.keys;
}

-- std::prev(list_.end()) and what stands before it.
pub split_last : CacheBlock → List CacheBlock → List CacheBlock × CacheBlock
split_last b [] = ([], b)
split_last b (c ∷ cs) = let (front, last) = split_last c cs in (b ∷ front, last)

-- The last block goes: map_.erase, pop_back.
pub drop_last : CacheBlock → List CacheBlock → Cache → CacheBlock × Cache
unfolding split_last erase_key
drop_last b bs c =
    let (front, last) = split_last b bs in
    (
      last,
      record c {
        current_bytes = c.current_bytes - length last.bytes;
        list = front;
        keys = erase_key last.handle c.keys;
      },
    )

-- The while loop of put, on fuel: each round takes a block.
pub trim : ℕ → ℕ → Cache → Cache
unfolding drop_last
trim zero size c = c
trim (suc f) size c = elim c.list [
  | [] ↦ c
  | b ∷ bs ↦
      let rest = trim f size (drop_last b bs c).1 in
      if ltb c.max_bytes (c.current_bytes + size) then rest else c
]

abbrev pub push_front : CacheBlock → Cache → Cache
push_front b c = record c {
  current_bytes = c.current_bytes + length b.bytes;
  list = b ∷ c.list;
  keys = b.handle ∷ c.keys;
}

-- put without the block that was under the handle before.
pub displaced : ℕ → Cache → Cache
unfolding find unlink erase_key
displaced h c = elim (find h c) [ none ↦ c | some b ↦ forget h b c ]

unfoldable pub put : ℕ → List ℕ → Bool → Cache → Cache × Bool
unfolding displaced trim
put h bytes dirty c =
    if ltb c.max_bytes (length bytes)
    then (c, false)
    else let c1 = displaced h c in
      (
        push_front (record { handle = h; bytes = bytes; dirty = dirty })
            (trim (length c1.list) (length bytes) c1),
        true,
      )

unfoldable pub get : ℕ → Cache → Cache × Option (List ℕ)
unfolding find unlink
get h c = elim (find h c) [
  | none ↦ (c, none)
  | some b ↦ (record c { list = b ∷ unlink h c.list }, some b.bytes)
]

unfoldable pub remove : ℕ → Cache → Cache × Bool
unfolding find unlink erase_key
remove h c = elim (find h c) [ none ↦ (c, false) | some b ↦ (forget h b c, true) ]

unfoldable pub evict_one : Cache → Cache × Option CacheBlock
unfolding drop_last
evict_one c = elim c.list [
  | [] ↦ (c, none)
  | b ∷ bs ↦ let (last, c') = drop_last b bs c in (c', some last)
]

unfoldable pub needs_eviction : ℕ → Cache → Bool
needs_eviction additional c = ltb c.max_bytes (c.current_bytes + additional)
