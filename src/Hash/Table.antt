-- ===== src/Hash/Table.antt =====
-- The operations of sf_hashmodule.c. Nodes are addresses; what a node carries beside its links is
-- read through `nodes` and never written by these functions.
pub mod Valid
pub mod Frame
pub mod Insert
pub mod Search
pub mod Remove
pub mod Find
pub mod Dump
use spiderframe.Base.{
  ℕ, ◌+◌, ◌-◌, ◌/◌, ◌^◌, Bool, true, false, ◌&&◌, ◌||◌, Option, none, some, List, [], ◌∷◌,
  get_elem?, set, replicate, ltb, ◌==◌, if◌then◌else◌,
}
use spiderframe.Hash.Key.{key_to_item}
use spiderframe.Link.{
  Ptr, null, Cmd, fault, out_of_fuel, pure, ◌>>=◌, dual_link_append, dual_link_remove,
}
use spiderframe.Link.Walk.{walk}

-- `t_hash_que`
pub record Que : Type 0 where
  pub root : Ptr
  pub count : ℕ

-- `t_hash_handle`
pub record Table : Type 0 where
  pub mask_bits : ℕ
  pub items : List Que

-- `T_HashData` behind its links: the length of what follows, and what follows.
pub record HashData (B : Type 0) : Type 0 where
  pub data_len : ℕ
  pub body : B

-- `sizeof(T_HashData)` on a machine of 64 bits: two links, and the length.
abbrev pub hash_data_size : ℕ
hash_data_size = 24

-- `AllocHashData(pool, size)` of a record whose fields behind the header are `body`.
unfoldable pub alloc_hash_data : {B : Type 0} → ℕ → B → HashData B
alloc_hash_data size body = record { data_len = size - hash_data_size; body = body }

unfoldable pub bits_to_num : ℕ → ℕ
bits_to_num bits = 0xffff_ffff / 2 ^ (32 - bits) + 1

abbrev pub empty_que : Que
empty_que = record { root = null; count = 0 }

-- `allocated` says whether the pool had the memory.
unfoldable pub hash_module_init : Bool → ℕ → Option Table
unfolding bits_to_num
hash_module_init allocated bits =
    if ltb 24 bits || ltb bits 4
    then none
    else if allocated
    then some (record { mask_bits = bits; items = replicate (bits_to_num bits) empty_que })
    else none

-- The bucket of a key, by reference: its index and its contents.
module _ {A : Type 0} (t : Table) (body : ℕ → Que → Cmd A) where
  abbrev pub at_que : ℕ → Option Que → Cmd A
  at_que i none = λ _. fault
  at_que i (some que) = body i que

  abbrev pub in_bucket : Option ℕ → Cmd A
  in_bucket none = λ _. out_of_fuel
  in_bucket (some i) = at_que i (get_elem? t.items i)

  abbrev pub with_item : ℕ → Cmd A
  with_item key = in_bucket (key_to_item t.mask_bits key)

unfoldable pub hash_module_insert : Table → ℕ → Ptr → Cmd Table
hash_module_insert t key node =
    with_item {A = Table} t
      (λ i que. do
        root ← dual_link_append que.root node
        pure (record t { items = set t.items i (record { root = root; count = que.count + 1 }) }))
      key

module _ {B : Type 0} (nodes : Ptr → HashData B) where
  -- `hashTemp->iDataLen == iDataLen && CmpFun (hashTemp, UserData)`
  abbrev pub matches : (B → Bool) → ℕ → Ptr → Bool
  matches cmp data_len p = ((nodes p).data_len == data_len) && cmp (nodes p).body

  -- The loop has fuel for the nodes that the bucket counts.
  unfoldable pub search_que : Que → (B → Bool) → ℕ → Cmd (Option Ptr)
  search_que que cmp data_len =
      if que.root == null
      then pure none
      else walk (λ _. fault) que.count (matches cmp data_len) que.root que.root

  unfoldable pub hash_module_search : Table → ℕ → (B → Bool) → ℕ → Cmd (Option Ptr)
  hash_module_search t key cmp data_len = with_item t (λ i que. search_que que cmp data_len) key

  abbrev pub remove_found : Table → ℕ → Que → Option Ptr → Cmd (Option Ptr × Table)
  remove_found t i que none = pure (none, t)
  remove_found t i que (some p) = do
    root ← dual_link_remove que.root p
    pure
        (some p, record t { items = set t.items i (record { root = root; count = que.count - 1 }) })

  abbrev pub remove_in : Table → (B → Bool) → ℕ → ℕ → Que → Cmd (Option Ptr × Table)
  remove_in t cmp data_len i que =
      if que.root == null
      then pure (none, t)
      else do found ← search_que que cmp data_len; remove_found t i que found

  -- `CmpFun` may be NULL; then nothing is removed.
  unfoldable pub hash_module_remove : Table → ℕ → Option (B → Bool) → ℕ → Cmd (Option Ptr × Table)
  hash_module_remove t key none data_len = with_item t (λ i que. pure (none, t)) key
  hash_module_remove t key (some cmp) data_len = with_item t (remove_in t cmp data_len) key
