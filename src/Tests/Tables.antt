-- ===== src/Tests/Tables.antt =====
-- The tables of sf_hashmodule.c, and the hashes, on small inputs.
use spiderframe.Base.{ℕ, ◌≡◌, refl, true, some, List, [], ◌∷◌, arith, bytes, ◌==◌}
use spiderframe.Link.{Ptr, Links, ok}
use spiderframe.Link.Append.{Returns}
use spiderframe.Link.Walk.{find}
use spiderframe.Hash.Crc.{sf_crc}
use spiderframe.Hash.Crc.Bitwise.{bitwise_crc, sf_crc-bitwise_crc}
use spiderframe.Hash.Key.{key_to_item}
use spiderframe.Hash.Table.{
  Table, HashData, matches, hash_module_init, hash_module_insert, hash_module_search,
  hash_module_remove,
}
use spiderframe.Hash.Table.Frame.{replace}
use spiderframe.Hash.Table.Insert.{Inserted, hash_module_insert-Inserted}
use spiderframe.Hash.Table.Remove.{Removed, hash_module_remove-Removed}
use spiderframe.Hash.Table.Search.{hash_module_search-find}
use spiderframe.Hash.Table.Valid.{IsValid, hash_module_init-IsValid}

abbrev pub no_links : Links
no_links = record { next = λ a. 0; prev = λ a. 0 }

abbrev pub no_nodes : ℕ → List Ptr
no_nodes i = []

-- A table of 16 buckets.
pub init : (t : Table) × (hash_module_init true 4 ≡ some t) × IsValid no_links t no_nodes
init = hash_module_init-IsValid no_links 4 (omega arith) (omega arith)

abbrev pub empty : Table
empty = init.0

abbrev pub empty-IsValid : IsValid no_links empty no_nodes
empty-IsValid = init.2

-- Node 5 goes into it under the key 77.
first : Returns (Inserted no_links empty no_nodes 77 5) (hash_module_insert empty 77 5 no_links)
first =
    hash_module_insert-Inserted no_links empty no_nodes 77 5 empty-IsValid (ground arith)
      (λ i. refl)

abbrev one : Table
one = first.0

abbrev one_links : Links
one_links = first.1

abbrev one_nodes : ℕ → List Ptr
one_nodes = replace no_nodes (first.3).bucket (5 ∷ [])

abbrev one-IsValid : IsValid one_links one one_nodes
one-IsValid = (first.3).valid

hash_module_insert-Inserted_example :
    Returns (Inserted one_links one one_nodes 77 6) (hash_module_insert one 77 6 one_links)
hash_module_insert-Inserted_example =
    hash_module_insert-Inserted one_links one one_nodes 77 6 one-IsValid (ground arith)
      (λ i. ground arith)

-- Every node carries its address.
abbrev nodes : Ptr → HashData ℕ
nodes p = record { data_len = 8; body = p }

hash_module_search-find_example :
    (i : ℕ) × (key_to_item one.mask_bits 77 ≡ some i)
    × (hash_module_search nodes one 77 (λ b. b == 5) 8 one_links
        ≡ ok (find (matches nodes (λ b. b == 5) 8) (one_nodes i)) one_links)
hash_module_search-find_example =
    hash_module_search-find nodes (λ b. b == 5) 8 one_links one one_nodes 77 one-IsValid

hash_module_remove-Removed_example :
    Returns
      (Removed one_links one one_nodes (matches nodes (λ b. b == 5) 8) 77)
      (hash_module_remove nodes one 77 (some (λ b. b == 5)) 8 one_links)
hash_module_remove-Removed_example =
    hash_module_remove-Removed nodes (λ b. b == 5) 8 one_links one one_nodes 77 one-IsValid

sf_crc-bitwise_crc_example : sf_crc (bytes "url") ≡ bitwise_crc (bytes "url")
sf_crc-bitwise_crc_example =
    sf_crc-bitwise_crc (bytes "url") (omega arith, (omega arith, (omega arith, tt)))

-- Two buckets, of one node and of twelve.
abbrev uneven : Table
uneven = record {
  mask_bits = 4;
  items = record { root = 1; count = 1 } ∷ record { root = 2; count = 12 } ∷ [];
}
